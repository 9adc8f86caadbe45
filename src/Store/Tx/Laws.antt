-- ===== src/Store/Tx/Laws.antt =====
-- What a transaction promises, whatever its body does to the tables.
use rush_delivery_engine.Prelude.{ℕ, ◌≡◌, refl, ◌⊎◌, inl, inr, none, arith, Option-cases}
use rush_delivery_engine.Platform.{Env}
use rush_delivery_engine.Store.Errors.{Error, call_failed, Result, ok, err}
use rush_delivery_engine.Store.{Db, World, Action}
use rush_delivery_engine.Store.Tx.{
  tick, settle_call, rollback, Ending, commit, abandon, finish, call, transaction,
}

-- How a transaction can end: with an error and the tables as they were, with a value and the tables as
-- they were, or with a value and the tables that the body left.
abbrev pub Ends : {A : Type 0} → Db → Result (Ending A) × World → Result A × World → Type 0
Ends {A} before b r =
    ((e : Error) × (r.0 ≡ err e) × (r.1.db ≡ before))
    ⊎ ((a : A) × (b.0 ≡ ok (abandon a)) × (r.0 ≡ ok a) × (r.1.db ≡ before))
    ⊎ ((a : A) × (b.0 ≡ ok (commit a)) × (r.0 ≡ ok a) × (r.1.db ≡ b.1.db))

module _ {A : Type 0} (env : Env) where
  finish-Ends : (before : Db) (b : Result (Ending A) × World) → Ends before b (finish env before b)
  unfolding finish
  finish-Ends before (err e, v) = inl (e, refl, refl)
  finish-Ends before (ok (abandon a), v) = inr (inl (a, refl, refl, refl))
  finish-Ends before (ok (commit a), v) = elim (Option-cases (env.fails v.calls)) [
    | inl e ↦ inr (inr (a, refl, ground arith, ground arith))
    | inr (s, e) ↦ inl (call_failed s, ground arith, ground arith)
  ]

  pub transaction-Ends :
      (body : Action (Ending A)) (w : World) → Ends w.db (body (tick w)) (transaction env body w)
  unfolding transaction call
  transaction-Ends body w = elim (Option-cases (env.fails w.calls)) [
    | inl e ↦ rw (e, settle_call) (finish-Ends w.db (body (tick w)))
    | inr (s, e) ↦ inl (call_failed s, ground arith, ground arith)
  ]

  -- An error leaves every table as it was.
  pub transaction_error_unchanged :
      (body : Action (Ending A)) (w : World) {e : Error}
      → (transaction env body w).0 ≡ err e
      → (transaction env body w).1.db ≡ w.db
  unfolding transaction call
  transaction_error_unchanged body w h = ground arith

-- Everything but the tables and the count of calls.
pub record SameOutside (w v : World) : Type 0 where
  pub geo : w.geo ≡ v.geo
  pub log : w.log ≡ v.log
  pub metrics : w.metrics ≡ v.metrics
  pub outbox_seq : w.outbox_seq ≡ v.outbox_seq

module _ {A : Type 0} (env : Env) where
  finish-SameOutside :
      (before : Db) (b : Result (Ending A) × World) → SameOutside (finish env before b).1 b.1
  unfolding finish
  finish-SameOutside before (err e, v) = ground arith
  finish-SameOutside before (ok (abandon a), v) = ground arith
  finish-SameOutside before (ok (commit a), v) = ground arith

  -- Outside the tables a transaction does what its body does, if it begins.
  pub transaction-SameOutside :
      (body : Action (Ending A)) (w : World)
      → let r = transaction env body w in
        ((e : Error) × (r.0 ≡ err e) × (r.1.db ≡ w.db) × SameOutside r.1 w)
        ⊎ SameOutside r.1 (body (tick w)).1
  unfolding transaction call
  transaction-SameOutside body w = elim (Option-cases (env.fails w.calls)) [
    | inl e ↦ inr (rw (e, settle_call) (finish-SameOutside w.db (body (tick w))))
    | inr (s, e) ↦ inl (call_failed s, ground arith, ground arith, ground arith)
  ]

module _ {A : Type 0} (env : Env) (up : (n : ℕ) → env.fails n ≡ none) where
  finish-commit :
      (before : Db) (b : Result (Ending A) × World) (a : A)
      → b.0 ≡ ok (commit a)
      → finish env before b ≡ (ok a, tick b.1)
  unfolding finish call
  finish-commit before (r, v) a h = rw h (rw (up v.calls))

  finish-abandon :
      (before : Db) (b : Result (Ending A) × World) (a : A)
      → b.0 ≡ ok (abandon a)
      → finish env before b ≡ (ok a, rollback before b.1)
  unfolding finish
  finish-abandon before (r, v) a h = rw h

  -- Where no call fails, a body that commits has its way.
  pub transaction-commit :
      (body : Action (Ending A)) (w : World) (a : A)
      → (body (tick w)).0 ≡ ok (commit a)
      → transaction env body w ≡ (ok a, tick (body (tick w)).1)
  unfolding transaction call
  transaction-commit body w a h =
      rw (up w.calls, settle_call) (finish-commit w.db (body (tick w)) a h)

  pub transaction-abandon :
      (body : Action (Ending A)) (w : World) (a : A)
      → (body (tick w)).0 ≡ ok (abandon a)
      → transaction env body w ≡ (ok a, rollback w.db (body (tick w)).1)
  unfolding transaction call
  transaction-abandon body w a h =
      rw (up w.calls, settle_call) (finish-abandon w.db (body (tick w)) a h)
