-- ===== src/Store/Tx.antt =====
-- Calls to a server, and a Postgres transaction. A statement of a transaction changes `db` at once and
-- the transaction restores it unless its commit succeeds; a commit that reports an error is taken not
-- to have happened.
pub mod Laws
use rush_delivery_engine.Prelude.{◌+◌, Option, none, some, String}
use rush_delivery_engine.Platform.{Env}
use rush_delivery_engine.Store.Errors.{call_failed, Result, ok, err}
use rush_delivery_engine.Store.{Db, World, Action, continue}

abbrev pub tick : World → World
tick w = record w { calls = w.calls + 1 }

abbrev pub settle_call : {A : Type 0} → Option String → Action A → Action A
settle_call none op = op
settle_call (some s) op = λ w. (err (call_failed s), w)

-- One call to a server: it fails and does nothing, or `op` happens.
unfoldable pub call : {A : Type 0} → Env → Action A → Action A
call env op w = settle_call (env.fails w.calls) op (tick w)

-- A call that returns a value of the state and changes nothing.
abbrev pub reading : {A : Type 0} → (World → A) → Action A
reading f w = (ok (f w), w)

-- A call that changes the state and returns nothing.
abbrev pub writing : (World → World) → Action (Unit {0})
writing f w = (ok tt, f w)

-- How the body of a transaction ends, when no statement failed: by `return tx.Commit(ctx)`, or by a
-- return that leaves the deferred `tx.Rollback`.
pub data Ending (A : Type 0) : Type 0 where
  commit : A → Ending A
  abandon : A → Ending A

abbrev pub rollback : Db → World → World
rollback before w = record w { db = before }

abbrev pub committed : {A : Type 0} → Db → A → Result (Unit {0}) × World → Result A × World
committed before a (ok _, w) = (ok a, w)
committed before a (err e, w) = (err e, rollback before w)

finish : {A : Type 0} → Env → Db → Result (Ending A) × World → Result A × World
unfolding call
finish env before (err e, w) = (err e, rollback before w)
finish env before (ok (abandon a), w) = (ok a, rollback before w)
finish env before (ok (commit a), w) = committed before a (call env (writing (λ v. v)) w)

unfoldable pub transaction : {A : Type 0} → Env → Action (Ending A) → Action A
unfolding finish
transaction env body w =
    let (begun, w') = call env (writing (λ v. v)) w in
    continue begun (λ _ v. finish env w.db (body v)) w'
