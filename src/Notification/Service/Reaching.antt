-- ===== src/Notification/Service/Reaching.antt =====
-- What the loop of a notification consumer pushes.
use rush_delivery_engine.Prelude.{
  ℕ, zero, suc, ◌+◌, ◌≡◌, refl, sym, ap, ◌∙◌, inl, inr, Option, none, some, String, List, [], ◌∷◌,
  ◌++◌, length, take, drop, nth, drop-nth, take-nil, drop-past_end, nth-in_range, nth-past_end,
  Le-cases, arith, append-nil, append_assoc, Has,
}
use rush_delivery_engine.Platform.{Env}
use rush_delivery_engine.Wire.{Body, Message}
use rush_delivery_engine.Store.Errors.{ok}
use rush_delivery_engine.Store.{World}
use rush_delivery_engine.Store.Tx.{tick}
use rush_delivery_engine.Kafka.Consumer.{Handler, messages, message_env, run}
use rush_delivery_engine.Kafka.Consumer.Offsets.{at, poll_ok, poll_wait}
use rush_delivery_engine.Notification.Model.{Push}
use rush_delivery_engine.Notification.Service.{broadcast}

abbrev prepend : Option Push → List Push → List Push
prepend none ps = ps
prepend (some p) ps = p ∷ ps

-- The pushes of a batch of messages.
abbrev pub pushed : (Body → Option Push) → List Message → List Push
pushed f [] = []
pushed f (m ∷ ms) = prepend (f m.value) (pushed f ms)

broadcast-log : (o : Option Push) (w : World) → (broadcast o w).log ≡ w.log
broadcast-log none w = refl
broadcast-log (some p) w = refl

broadcast-pushes :
    (o : Option Push) (ps : List Push) (w : World)
    → (broadcast o w).pushes ++ ps ≡ w.pushes ++ prepend o ps
broadcast-pushes none ps w = refl
broadcast-pushes (some p) ps w = append_assoc w.pushes (p ∷ []) ps

module _ (env : Env) (up : (n : ℕ) → env.fails n ≡ none) (topic : String) (h : Handler)
    (f : Body → Option Push) (quiet : (e : Env) (m : Message) (v : World) → (h e m v).1.log ≡ v.log)
    (pushes : (m : Message) (v : World)
      → h (message_env env m) m v ≡ (ok tt, broadcast (f m.value) v)) where
  -- Where no call fails, and the handler does nothing but broadcast what a function makes of the body:
  -- `n` rounds from the committed offset `k` broadcast what it makes of the next `n` messages of the topic,
  -- or of all that are left, in their order.
  pub run-pushed :
      (n k : ℕ) (w : World)
      → (run env topic h n (at k, w)).1.pushes
        ≡ w.pushes ++ pushed f (take n (drop k (messages topic w)))
  unfolding run
  run-pushed zero k w = sym (append-nil w.pushes)
  run-pushed (suc n) k w = elim (Le-cases (length (messages topic w)) k) [
    | inl ended ↦
        ap (λ s. (run env topic h n s).1.pushes)
          (poll_wait env topic h up quiet (at k) w (nth-past_end (messages topic w) k ended))
        ∙ run-pushed n k (tick w)
        ∙ ap (λ ms. w.pushes ++ pushed f ms)
            (nothing_left n (drop-past_end (messages topic w) k ended))
    | inr more ↦
        let (msg, there) = nth-in_range (messages topic w) k more in
        let handled = pushes msg (tick w) in
        let v = tick (h (message_env env msg) msg (tick w)).1 in
        ap (λ s. (run env topic h n s).1.pushes)
          (poll_ok env topic h up quiet (at k) w msg there (ap (λ r. r.0) handled))
        ∙ run-pushed n (k + 1) v
        ∙ next n msg v (ap (λ r. r.1.log) handled ∙ broadcast-log (f msg.value) (tick w))
            (ap (λ r. r.1.pushes) handled) there
  ]
    where
      suc_as_add : (k : ℕ) → k + 1 ≡ suc k
      suc_as_add k = omega arith

      nothing_left :
          (n : ℕ)
          → drop k (messages topic w) ≡ []
          → take n (drop k (messages topic w)) ≡ take (suc n) (drop k (messages topic w))
      nothing_left n e = rw e (take-nil n)

      next :
          (n : ℕ) (msg : Message) (v : World)
          → v.log ≡ w.log
          → v.pushes ≡ (broadcast (f msg.value) (tick w)).pushes
          → nth (messages topic w) k ≡ some msg
          → v.pushes ++ pushed f (take n (drop (k + 1) (messages topic v)))
            ≡ w.pushes ++ pushed f (take (suc n) (drop k (messages topic w)))
      next n msg v log said there =
          rw (suc_as_add k, log, said, drop-nth (messages topic w) k msg there)
            (broadcast-pushes (f msg.value) (pushed f (take n (drop (suc k) (messages topic w))))
              (tick w))

pub Has-pushed :
    (f : Body → Option Push) (m : Message) (ms : List Message) (p : Push)
    → Has m ms
    → f m.value ≡ some p
    → Has p (pushed f ms)
Has-pushed f m (x ∷ ms) p (inl here) e =
    rw (ap (λ (y : Message). f y.value) (sym here) ∙ e) (inl refl)
Has-pushed f m (x ∷ ms) p (inr there) e = Has-prepend (f x.value) (Has-pushed f m ms p there e)
  where
    Has-prepend : (o : Option Push) → Has p (pushed f ms) → Has p (prepend o (pushed f ms))
    Has-prepend none h = h
    Has-prepend (some q) h = inr h
Has-pushed f m [] p h e = absurd h
