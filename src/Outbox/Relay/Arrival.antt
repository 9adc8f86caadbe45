-- ===== src/Outbox/Relay/Arrival.antt =====
-- What waits in the outbox reaches Kafka.
use text.Mathlib.TextEquality.{eq_iff}
use rush_delivery_engine.Prelude.{
  ℕ, suc, ◌≤◌, ◌*◌, ◌≡◌, sym, subst, inl, inr, Bool, true, false, none, List, [], ◌∷◌, All, Has,
  arith, length, select, replicate, str_eq, if◌then◌else◌, Bool-cases,
}
use rush_delivery_engine.Platform.{Env}
use rush_delivery_engine.Wire.{Message}
use rush_delivery_engine.Kafka.Consumer.{messages}
use rush_delivery_engine.Store.{OutboxRow, World}
use rush_delivery_engine.Outbox.Relay.{batch_size, is_unsent, dispatch, run}
use rush_delivery_engine.Outbox.Relay.NoLoss.{Carries, IsLogged, IsBacked, IsSound, Extends}
use rush_delivery_engine.Outbox.Relay.Draining.{waiting, run-drains}
use rush_delivery_engine.Outbox.Relay.Growth.{Grows, Grows-refl, Grows-trans, dispatch-Grows}

pub run-Grows :
    (env : Env) (ticks : List (OutboxRow → Bool)) (w : World)
    → IsSound w
    → Grows w (run env ticks w)
unfolding run
run-Grows env [] w s = Grows-refl w s
run-Grows env (locked ∷ ticks) w s =
    let g = dispatch-Grows env locked w s in
    let v = (dispatch env locked w).1 in
    Grows-trans w v (run env ticks v) g (run-Grows env ticks v g.sound)

-- A row that is kept carries the same message.
IsLogged-sent :
    (log : List Message) (row later : OutboxRow)
    → later ≡ record row { sent_at = later.sent_at }
    → IsLogged later log
    → IsLogged row log
IsLogged-sent [] row later same h = h
IsLogged-sent (m ∷ log) row later same (inl here) = inl (subst (λ r. Carries r m) same here)
IsLogged-sent (m ∷ log) row later same (inr there) = inr (IsLogged-sent log row later same there)

backed_sent :
    (log : List Message) (row : OutboxRow)
    → is_unsent row ≡ false
    → IsBacked log row
    → IsLogged row log
backed_sent log row sent (inl unsent) = absurd (ground (arith, sent, unsent))
backed_sent log row sent (inr logged) = logged

none_unsent :
    (row : OutboxRow) (rows : List OutboxRow)
    → length (select is_unsent (row ∷ rows)) ≡ 0
    → (is_unsent row ≡ false) × (length (select is_unsent rows) ≡ 0)
none_unsent row rows h = elim (Bool-cases (is_unsent row)) [
  | inl unsent ↦ absurd (suc-ne-zero (rw unsent at h))
  | inr sent ↦ (sent, rw sent at h)
]
  where
    suc-ne-zero : {n : ℕ} → ¬ (suc n ≡ 0)
    suc-ne-zero e = absurd (omega (arith, e))

each_sent :
    (log : List Message) (rows later : List OutboxRow) (row : OutboxRow)
    → Extends rows later
    → All (IsBacked log) later
    → length (select is_unsent later) ≡ 0
    → Has row rows
    → IsLogged row log
each_sent log [] later row e b none_left h = absurd h
each_sent log (x ∷ rows) [] row e b none_left h = absurd e
each_sent log (x ∷ rows) (y ∷ later) row e b none_left h = elim h [
  | inl here ↦
      subst (λ r. IsLogged r log) (sym here)
        (IsLogged-sent log x y e.0 (backed_sent log y (none_unsent y later none_left).0 b.0))
  | inr there ↦ each_sent log rows later row e.1 b.1 (none_unsent y later none_left).1 there
]

-- The row's message is in the log, under its topic.
IsLogged-select :
    (row : OutboxRow) (log : List Message)
    → IsLogged row log
    → (m : Message) × Has m (select (λ x. str_eq x.topic row.topic) log) × Carries row m
IsLogged-select row [] h = absurd h
IsLogged-select row (m ∷ log) (inl here) =
    (m, ground (arith, here.0, (eq_iff m.topic row.topic).1), here)
IsLogged-select row (m ∷ log) (inr there) =
    let (x, has, carries) = IsLogged-select row log there in
    (x, keep x (str_eq m.topic row.topic) has, carries)
  where
    keep :
        (x : Message) (b : Bool)
        → Has x (select (λ y. str_eq y.topic row.topic) log)
        → Has x (
            if b
            then m ∷ select (λ y. str_eq y.topic row.topic) log
            else select (λ y. str_eq y.topic row.topic) log)
    keep x true h = inr h
    keep x false h = h

module _ (env : Env) (up : (n : ℕ) → env.fails n ≡ none) where
  -- Where no call fails and no row is locked: from a sound state in which at most `k` batches wait, after
  -- `k` ticks each row that was in the outbox has its message in the log of its topic.
  pub run-logs :
      (k : ℕ) (w : World) (row : OutboxRow)
      → IsSound w
      → waiting w ≤ k * batch_size
      → Has row w.db.outbox
      → (m : Message) × Has m (messages row.topic (run env (replicate k (λ r. false)) w))
        × Carries row m
  run-logs k w row s few there =
      let v = run env (replicate k (λ r. false)) w in
      let g = run-Grows env (replicate k (λ r. false)) w s in
      IsLogged-select row v.log (
        each_sent v.log w.db.outbox v.db.outbox row g.rows g.sound.backed
          (run-drains env up k w s few) there)
