-- ===== src/Assignment/Consumer/Delivery.antt =====
-- What an `order.placed` message does to the tables, delivered once and again:
-- internal/assignment/consumer.go.
use rush_delivery_engine.Prelude.{ℕ, ◌≡◌, refl, inl, inr, none, some, find, arith, Option-cases}
use rush_delivery_engine.Platform.{Uuid, Env}
use rush_delivery_engine.Wire.{Message}
use rush_delivery_engine.Store.Errors.{Error, ok, err, root}
use rush_delivery_engine.Store.{World}
use rush_delivery_engine.Order.Model.{OrderPlacedEvent}
use rush_delivery_engine.Assignment.Service.{candidates, candidate_limit}
use rush_delivery_engine.Assignment.Service.Claims.{Claimed}
use rush_delivery_engine.Assignment.Service.Outcome.{assign-Outcome}
use rush_delivery_engine.Assignment.Service.Nearest.{is_free, assign-Settled}
use rush_delivery_engine.Assignment.Consumer.{decode_placed, handle, handle_event}

module _ (env : Env) where
  event_error_unchanged :
      (evt : OrderPlacedEvent) (w : World) (e : Error)
      → (handle_event env (some evt) w).0 ≡ err e
      → (handle_event env (some evt) w).1.db ≡ w.db
  unfolding handle_event root
  event_error_unchanged evt w e h =
      elim (assign-Outcome env evt.order_id evt.pickup_lat evt.pickup_lng w) [
        | inl (id, _, done, _) ↦ absurd (ground arith)
        | inr (inl (x, failed, tables)) ↦ tables
        | inr (inr (gave_up, _)) ↦ absurd (ground arith)
      ]

  -- A message that the assignment handler answers with an error, and that is delivered again therefore,
  -- has left every table as it was.
  pub handle_error_unchanged :
      (msg : Message) (w : World) (e : Error)
      → (handle env msg w).0 ≡ err e
      → (handle env msg w).1.db ≡ w.db
  unfolding handle handle_event
  handle_error_unchanged msg w e h = elim (Option-cases (decode_placed env msg.value)) [
    | inl bad ↦ ground arith
    | inr (evt, read) ↦ rw read (event_error_unchanged evt w e (ground arith))
  ]

module _ (env : Env) (up : (n : ℕ) → env.fails n ≡ none) where
  event_claims :
      (evt : OrderPlacedEvent) (w : World) (a : Uuid)
      → find (is_free w) (candidates env evt.pickup_lat evt.pickup_lng candidate_limit w.geo)
        ≡ some a
      → ((handle_event env (some evt) w).0 ≡ ok tt)
        × Claimed env evt.order_id a w.db (handle_event env (some evt) w).1.db
  unfolding handle_event
  event_claims evt w a found =
      let settled = assign-Settled env up evt.order_id evt.pickup_lat evt.pickup_lng w in
      let (done, claimed, _) = rw found at settled in (rw done refl, claimed)

  -- Where no call fails, a delivery of an `order.placed` message that finds a free candidate
  -- succeeds and claims the first one for the order, whatever the order's status and rider.
  pub delivery_claims :
      (msg : Message) (evt : OrderPlacedEvent) (w : World) (a : Uuid)
      → decode_placed env msg.value ≡ some evt
      → find (is_free w) (candidates env evt.pickup_lat evt.pickup_lng candidate_limit w.geo)
        ≡ some a
      → ((handle env msg w).0 ≡ ok tt) × Claimed env evt.order_id a w.db (handle env msg w).1.db
  unfolding handle
  delivery_claims msg evt w a read found = rw read (event_claims evt w a found)
