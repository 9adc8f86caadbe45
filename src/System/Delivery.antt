-- ===== src/System/Delivery.antt =====
-- From the order to the rider to the customer, where no call fails.
use rush_delivery_engine.Prelude.{
  ℕ, ◌≤◌, ◌*◌, ◌≡◌, refl, sym, ap, ◌∙◌, subst, inl, inr, false, none, some, List, [], ◌∷◌, ◌++◌,
  Has, find, length, take, take-all, replicate, arith,
}
use rush_delivery_engine.Platform.{Uuid, Env, IsCodec}
use rush_delivery_engine.Wire.{json, Message}
use rush_delivery_engine.Store.Errors.{ok}
use rush_delivery_engine.Store.{OutboxRow, World}
use rush_delivery_engine.Kafka.Topics.{topic_order_placed, topic_order_assigned}
use rush_delivery_engine.Kafka.Consumer.{messages, message_env}
use rush_delivery_engine.Kafka.Consumer as Consumer
use rush_delivery_engine.Kafka.Consumer.Offsets.{at}
use rush_delivery_engine.Order.Model.{Order, PlaceOrderRequest, OrderPlacedEvent}
use rush_delivery_engine.Order.Repository.{placed_event}
use rush_delivery_engine.Order.Service.{place}
use rush_delivery_engine.Order.Service.Legality.{place_legal}
use rush_delivery_engine.Order.Service.Growth.{place-Safe}
use rush_delivery_engine.Outbox.Relay.{batch_size}
use rush_delivery_engine.Outbox.Relay as Relay
use rush_delivery_engine.Outbox.Relay.NoLoss.{IsSound}
use rush_delivery_engine.Outbox.Relay.Draining.{waiting}
use rush_delivery_engine.Outbox.Relay.Arrival.{run-logs}
use rush_delivery_engine.Assignment.Model.{OrderAssignedEvent, encode_assigned}
use rush_delivery_engine.Assignment.Service.{candidates, candidate_limit}
use rush_delivery_engine.Assignment.Service.Nearest.{is_free}
use rush_delivery_engine.Assignment.Consumer.{decode_placed, handle}
use rush_delivery_engine.Assignment.Consumer.Decoding.{decode-encode}
use rush_delivery_engine.Assignment.Consumer.Delivery.{delivery_claims}
use rush_delivery_engine.Notification.Model.{Push}
use rush_delivery_engine.Notification.Consumer.{order_assigned_handler, decode_assigned}
use rush_delivery_engine.Notification.Consumer.Pushes.{assigned_push}
use rush_delivery_engine.Notification.Service.{on_assigned, broadcast}
use rush_delivery_engine.Notification.Service.Reaching.{pushed, run-pushed, Has-pushed}
use rush_delivery_engine.System.Growth.{assigns-Grows}

Has-append_right : {A : Type 0} (a : A) (xs ys : List A) → Has a ys → Has a (xs ++ ys)
Has-append_right a [] ys h = h
Has-append_right a (x ∷ xs) ys h = inr (Has-append_right a xs ys h)

-- A relay that ticks `k` times over an unlocked outbox.
abbrev pub relayed : Env → ℕ → World → World
relayed env k w = Relay.run env (replicate k (λ row. false)) w

-- The consumer of `order.assigned` messages, from the first on, for `n` rounds.
abbrev pub notified : Env → ℕ → World → World
notified env n w = (Consumer.run env topic_order_assigned on_assigned n (at 0, w)).1

-- What the customer of the order is told.
abbrev pub told : Env → OrderAssignedEvent → Push
told env e = (e.order_id, record { type_ = "order_assigned"; payload = encode_assigned env e })

pub on_assigned-log : (env : Env) (m : Message) (v : World) → (on_assigned env m v).1.log ≡ v.log
unfolding on_assigned
on_assigned-log env m v = ground arith

on_assigned-broadcast :
    (env : Env) (m : Message) (v : World)
    → on_assigned (message_env env m) m v
      ≡ (ok tt, broadcast (order_assigned_handler env m.value) v)
unfolding on_assigned order_assigned_handler decode_assigned
on_assigned-broadcast env m v = refl

module _ (env : Env) (up : (n : ℕ) → env.fails n ≡ none) (codec : IsCodec env) where
  -- Where no call fails, and UUIDs and times read back as printed: once an order is placed in a sound
  -- state, and the relay has ticked often enough for the rows that wait, the log holds a message of the
  -- topic order.placed that the assignment service reads as the event of this order.
  pub placed_order_arrives :
      (req : PlaceOrderRequest) (w : World) (o : Order) (k : ℕ)
      → IsSound w
      → (place env req w).0 ≡ ok o
      → waiting (place env req w).1 ≤ k * batch_size
      → (m : Message) × (now : ℕ) × Has m
          (messages topic_order_placed (relayed env k (place env req w).1))
        × (decode_placed env m.value ≡ some (placed_event o now))
  placed_order_arrives req w o k s done few = elim (place_legal env req w) [
    | inl (e, failed, _) ↦ absurd (ground (arith, failed, done))
    | inr (o', done', _, new) ↦
        let v = (place env req w).1 in
        let g = (place-Safe env req).run w s in
        let there : Has new.recorded.row v.db.outbox =
          subst (Has new.recorded.row) (sym new.recorded.rows)
            (Has-append_right new.recorded.row w.db.outbox (new.recorded.row ∷ []) (inl refl)) in
        let (m, has, carries) = run-logs env up k v new.recorded.row g.sound few there in
        let same : o' ≡ o = ground (arith, done, done') in
        (
          m,
          new.now,
          subst (λ t. Has m (messages t (relayed env k v))) new.topic has,
          ap (decode_placed env) (carries.2 ∙ ap json new.payload)
              ∙ decode-encode env codec (placed_event o' new.now)
              ∙ ap (λ x. some (placed_event x new.now)) same,
        )
  ]

  row_told :
      (e : OrderAssignedEvent) (row : OutboxRow) (w : World) (k n : ℕ)
      → IsSound w
      → waiting w ≤ k * batch_size
      → Has row w.db.outbox
      → row.topic ≡ topic_order_assigned
      → row.payload ≡ encode_assigned env e
      → length (messages topic_order_assigned (relayed env k w)) ≤ n
      → Has (told env e) (notified env n (relayed env k w)).pushes
  row_told e row w k n s few there topic payload long =
      let v = relayed env k w in
      let ms = messages topic_order_assigned v in
      let (m, has, carries) = run-logs env up k w row s few there in
      let read : order_assigned_handler env m.value ≡ some (told env e) =
        ap (order_assigned_handler env) (carries.2 ∙ ap json payload) ∙ assigned_push env codec e in
      let all : pushed (order_assigned_handler env) (take n ms)
          ≡ pushed (order_assigned_handler env) ms =
        ap (pushed (order_assigned_handler env)) (take-all n ms long) in
      subst (Has (told env e))
        (sym (
          run-pushed env up topic_order_assigned on_assigned (order_assigned_handler env)
            on_assigned-log (on_assigned-broadcast env) n 0 v))
        (Has-append_right (told env e) v.pushes _ (
          subst (Has (told env e)) (sym all) (
            Has-pushed (order_assigned_handler env) m ms (told env e)
              (subst (λ t. Has m (messages t v)) topic has) read)))

  -- Where no call fails, and UUIDs and times read back as printed: when, in a sound state, an order.placed
  -- message is delivered and finds a free candidate, then, after ticks of the relay that are enough for the
  -- rows that wait and rounds of the notification consumer that are enough for the messages, the customers
  -- of the order have been sent the first free candidate as its rider.
  pub assignment_told :
      (msg : Message) (evt : OrderPlacedEvent) (rider_id : Uuid) (w : World) (k n : ℕ)
      → IsSound w
      → decode_placed env msg.value ≡ some evt
      → find (is_free w) (candidates env evt.pickup_lat evt.pickup_lng candidate_limit w.geo)
        ≡ some rider_id
      → waiting (handle env msg w).1 ≤ k * batch_size
      → length (messages topic_order_assigned (relayed env k (handle env msg w).1)) ≤ n
      → (now : ℕ) × Has
          (told env (record { order_id = evt.order_id; rider_id = rider_id; assigned_at = now }))
          (notified env n (relayed env k (handle env msg w).1)).pushes
  assignment_told msg evt rider_id w k n s read found few long =
      let (done, claimed) = delivery_claims env up msg evt w rider_id read found in
      let v = (handle env msg w).1 in
      let there : Has claimed.row v.db.outbox =
        subst (Has claimed.row) (sym claimed.rows)
          (Has-append_right claimed.row w.db.outbox (claimed.row ∷ []) (inl refl)) in
      (
        claimed.now,
        row_told _ claimed.row v k n (assigns-Grows env msg w s).sound few there claimed.topic
            claimed.payload long,
      )
