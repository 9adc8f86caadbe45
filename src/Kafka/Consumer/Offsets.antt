-- ===== src/Kafka/Consumer/Offsets.antt =====
-- What the loop of pkg/kafka/consumer.go commits.
use rush_delivery_engine.Prelude.{
  ℕ, zero, suc, ◌+◌, ◌≤◌, ◌<◌, min, Bool, true, false, List, [], ◌∷◌, take, drop, drop-nth,
  drop-past_end, take-nil, select, str_eq, Bool-cases, if◌then◌else◌, ◌≡◌, refl, ap, ◌∙◌, inl, inr,
  none, some, String, nth, length, arith, nth-in_range, nth-past_end, Le-cases,
}
use rush_delivery_engine.Platform.{Env}
use rush_delivery_engine.Wire.{Message}
use rush_delivery_engine.Store.Errors.{Error, ok, err}
use rush_delivery_engine.Store.{World}
use rush_delivery_engine.Store.Tx.{call, tick}
use rush_delivery_engine.Kafka.Consumer.{
  Handler, Reader, messages, message_env, skip_past, note_commit, after_handler, after_fetch, poll,
  run, restart,
}

-- A reader that has committed what it fetched.
abbrev pub at : ℕ → Reader
at k = record { next = k; committed = k }

module _ (env : Env) (topic : String) (h : Handler) (up : (n : ℕ) → env.fails n ≡ none)
    (quiet : (e : Env) (m : Message) (w : World) → (h e m w).1.log ≡ w.log) where
  pub same_messages :
      (v w : World) → v.log ≡ w.log → length (messages topic v) ≡ length (messages topic w)
  same_messages v w e = rw e refl

  pub poll_ok :
      (r : Reader) (w : World) (msg : Message)
      → nth (messages topic w) r.next ≡ some msg
      → (h (message_env env msg) msg (tick w)).0 ≡ ok tt
      → poll env topic h (r, w) ≡ (
        record { next = r.next + 1; committed = r.next + 1 },
        tick (h (message_env env msg) msg (tick w)).1,
      )
  unfolding poll after_fetch after_handler note_commit call
  poll_ok r w msg there handled =
      rw (up w.calls, there, handled, up (h (message_env env msg) msg (tick w)).1.calls) refl

  poll_err :
      (r : Reader) (w : World) (msg : Message) (e : Error)
      → nth (messages topic w) r.next ≡ some msg
      → (h (message_env env msg) msg (tick w)).0 ≡ err e
      → poll env topic h (r, w) ≡ (skip_past r, (h (message_env env msg) msg (tick w)).1)
  unfolding poll after_fetch after_handler call
  poll_err r w msg e there handled = rw (up w.calls, there, handled) refl

  pub poll_wait :
      (r : Reader) (w : World)
      → nth (messages topic w) r.next ≡ none
      → poll env topic h (r, w) ≡ (r, tick w)
  unfolding poll after_fetch call
  poll_wait r w there = rw (up w.calls, there) refl

  -- Where no call fails and the handler never writes to Kafka: after a message that the handler
  -- answers with an error, and the next one, which it handles whatever the state, a new reader
  -- starts past both.
  pub error_passed_over :
      (r : Reader) (w : World) (first second : Message) (e : Error)
      → nth (messages topic w) r.next ≡ some first
      → nth (messages topic w) (r.next + 1) ≡ some second
      → (h (message_env env first) first (tick w)).0 ≡ err e
      → ((v : World) → (h (message_env env second) second v).0 ≡ ok tt)
      → restart (run env topic h 2 (r, w)).0 ≡ record { next = r.next + 2; committed = r.next + 2 }
  unfolding run
  error_passed_over r w first second e one two failed handled =
      let v = (h (message_env env first) first (tick w)).1 in
      rw
        (
          poll_err r w first e one failed,
          poll_ok (skip_past r) v second (rw (quiet (message_env env first) first (tick w)) two)
              (handled (tick v)),
        )
        (ground arith)

  -- Where no call fails and the handler never returns an error nor writes to Kafka, `n` rounds
  -- from the committed offset `k`, which is not past the end, fetch and commit the next `n`
  -- messages of the topic, or all that are left.
  pub run-delivers :
      (n k : ℕ) (w : World)
      → ((e : Env) (m : Message) (v : World) → (h e m v).0 ≡ ok tt)
      → k ≤ length (messages topic w)
      → (run env topic h n (at k, w)).0 ≡ at (min (k + n) (length (messages topic w)))
  unfolding run
  run-delivers zero k w handled b = ap at (omega (arith, b))
  run-delivers (suc n) k w handled b = elim (Le-cases (length (messages topic w)) k) [
    | inl ended ↦
        ap (λ s. (run env topic h n s).0)
          (poll_wait (at k) w (nth-past_end (messages topic w) k ended))
        ∙ run-delivers n k (tick w) handled b
        ∙ ap at (omega (arith, b, ended))
    | inr more ↦
        let (msg, there) = nth-in_range (messages topic w) k more in
        let v = tick (h (message_env env msg) msg (tick w)).1 in
        let same = same_messages v w (quiet (message_env env msg) msg (tick w)) in
        ap (λ s. (run env topic h n s).0)
          (poll_ok (at k) w msg there (handled (message_env env msg) msg (tick w)))
        ∙ run-delivers n (k + 1) v handled (rw same (omega (arith, more)))
        ∙ ap at (rw same (omega (arith, more)))
  ]

same_reader :
    {i j c d : ℕ}
    → i ≡ j
    → c ≡ d
    → Path Reader (record { next = i; committed = c }) (record { next = j; committed = d })
same_reader {i} {j} {c} {d} e f = ground (arith, e, f)

-- The committed offset once the messages from the offset `k` on are handled: one past the last of them that
-- the handler accepts, `c` where it accepts none.
abbrev pub committed_after : (Message → Bool) → ℕ → ℕ → List Message → ℕ
committed_after accepts k c [] = c
committed_after accepts k c (m ∷ ms) =
    let rest = committed_after accepts (k + 1) (k + 1) ms in
    let kept = committed_after accepts (k + 1) c ms in if accepts m then rest else kept

module _ (env : Env) (topic : String) (h : Handler) (up : (n : ℕ) → env.fails n ≡ none)
    (quiet : (e : Env) (m : Message) (w : World) → (h e m w).1.log ≡ w.log)
    (accepts : Message → Bool)
    (handles : (m : Message) (v : World) → accepts m ≡ true → (h (message_env env m) m v).0 ≡ ok tt)
    (refuses : (m : Message) (v : World)
      → accepts m ≡ false
      → (e : Error) × ((h (message_env env m) m v).0 ≡ err e)) where
  -- Where no call fails, and the handler publishes nothing and accepts some messages and refuses the
  -- others: after `n` rounds from the offset `k`, the reader has fetched the next `n` messages, or all that
  -- are left, and Kafka keeps the offset past the last one that the handler accepted.
  pub run-accepted :
      (n k c : ℕ) (w : World)
      → k ≤ length (messages topic w)
      → (run env topic h n (record { next = k; committed = c }, w)).0 ≡ record {
        next = min (k + n) (length (messages topic w));
        committed = committed_after accepts k c (take n (drop k (messages topic w)));
      }
  unfolding run
  run-accepted zero k c w b = ap (λ i. record { next = i; committed = c }) (omega (arith, b))
  run-accepted (suc n) k c w b = elim (Le-cases (length (messages topic w)) k) [
    | inl ended ↦
        ap (λ s. (run env topic h n s).0)
          (poll_wait env topic h up quiet (record { next = k; committed = c }) w
            (nth-past_end (messages topic w) k ended))
        ∙ run-accepted n k c (tick w) b
        ∙ nothing_left n ended
    | inr more ↦
        let (msg, there) = nth-in_range (messages topic w) k more in
        let v = (h (message_env env msg) msg (tick w)).1 in
        let same : messages topic v ≡ messages topic w =
          ap (λ log. select (λ m. str_eq m.topic topic) log)
            (quiet (message_env env msg) msg (tick w)) in
        elim (Bool-cases (accepts msg)) [
          | inl hit ↦
              ap (λ s. (run env topic h n s).0)
                (poll_ok env topic h up quiet (record { next = k; committed = c }) w msg there
                  (handles msg (tick w) hit))
              ∙ run-accepted n (k + 1) (k + 1) (tick v) (rw same (omega (arith, more)))
              ∙ accepted n msg v same there hit more
          | inr miss ↦
              let (e, failed) = refuses msg (tick w) miss in
              ap (λ s. (run env topic h n s).0)
                (poll_err env topic h up quiet (record { next = k; committed = c }) w msg e there
                  failed)
              ∙ run-accepted n (k + 1) c v (rw same (omega (arith, more)))
              ∙ refused n msg v same there miss more
        ]
  ]
    where
      suc_as_add : (i : ℕ) → i + 1 ≡ suc i
      suc_as_add i = omega arith

      here : ℕ → ℕ → List Message → Reader
      here i d ms = record {
        next = min i (length (messages topic w));
        committed = committed_after accepts k d ms;
      }

      nothing_left :
          (n : ℕ)
          → length (messages topic w) ≤ k
          → here (k + n) c (take n (drop k (messages topic w)))
            ≡ here (k + suc n) c (take (suc n) (drop k (messages topic w)))
      nothing_left n ended =
          same_reader (omega (arith, b, ended))
            (rw (drop-past_end (messages topic w) k ended, take-nil n) refl)

      accepted :
          (n : ℕ) (msg : Message) (v : World)
          → messages topic v ≡ messages topic w
          → nth (messages topic w) k ≡ some msg
          → accepts msg ≡ true
          → k < length (messages topic w)
          → record {
            next = min (k + 1 + n) (length (messages topic v));
            committed =
                committed_after accepts (k + 1) (k + 1) (take n (drop (k + 1) (messages topic v)));
          }
            ≡ here (k + suc n) c (take (suc n) (drop k (messages topic w)))
      accepted n msg v same there hit more =
          same_reader (rw same (omega (arith, more)))
            (rw (same, drop-nth (messages topic w) k msg there, suc_as_add k, hit) refl)

      refused :
          (n : ℕ) (msg : Message) (v : World)
          → messages topic v ≡ messages topic w
          → nth (messages topic w) k ≡ some msg
          → accepts msg ≡ false
          → k < length (messages topic w)
          → record {
            next = min (k + 1 + n) (length (messages topic v));
            committed =
                committed_after accepts (k + 1) c (take n (drop (k + 1) (messages topic v)));
          }
            ≡ here (k + suc n) c (take (suc n) (drop k (messages topic w)))
      refused n msg v same there miss more =
          same_reader (rw same (omega (arith, more)))
            (rw (same, drop-nth (messages topic w) k msg there, suc_as_add k, miss) refl)
