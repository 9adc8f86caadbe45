-- ===== src/Outbox/Relay/Tables.antt =====
-- A dispatch changes no table but the outbox.
use rush_delivery_engine.Prelude.{ℕ, inl, inr, Option-cases, ◌≡◌, refl, Bool, String, List, [], ◌∷◌}
use rush_delivery_engine.Platform.{Env}
use rush_delivery_engine.Wire.{Body, json}
use rush_delivery_engine.Kafka.Producer.{publish_raw}
use rush_delivery_engine.Store.{OutboxRow, Db, Action, wrapped, pure, ◌>>=◌}
use rush_delivery_engine.Store.Tx.{call, settle_call, reading, writing, commit}
use rush_delivery_engine.Store.Keeps.{
  Keeps, bind-Keeps, call-Keeps, wrapped-Keeps, transaction-Keeps,
}
use rush_delivery_engine.Outbox.Relay.{
  batch_size, claim, publish_env, publish_all, mark_sent, dispatch_rows, dispatch_body, dispatch,
}

-- A view of the tables that the outbox is no part of.
module _ {S : Type 0} (view : Db → S) (env : Env)
    (blind : (db : Db) (rows : List OutboxRow) → view (record db { outbox = rows }) ≡ view db) where
  abbrev Safe : {A : Type 0} → Action A → Type 0
  Safe m = Keeps (λ w. view w.db) m

  publish-Safe : (e : Env) (topic key : String) (body : Body) → Safe (publish_raw e topic key body)
  unfolding publish_raw
  publish-Safe e topic key body = call-Keeps (λ w. view w.db) e (writing _) (λ w. refl) (λ w. refl)

  mark_sent-Safe : (ids : List ℕ) → Safe (mark_sent env ids)
  unfolding mark_sent call
  mark_sent-Safe ids w = elim (Option-cases (env.fails w.calls)) [
    | inl up ↦ rw (up, settle_call) (blind w.db _)
    | inr (s, down) ↦ rw (down, settle_call) refl
  ]

  publish_all-Safe : (rows : List OutboxRow) → Safe (publish_all env rows)
  unfolding publish_all
  publish_all-Safe [] = λ w. refl
  publish_all-Safe (row ∷ rows) =
      let sending =
        publish_raw (publish_env env row) row.topic row.partition_key (json row.payload) in
      bind-Keeps (λ w. view w.db) (wrapped "publish" sending)
        (λ _. publish_all env rows >>= λ ids. pure (row.id ∷ ids))
        (wrapped-Keeps (λ w. view w.db) "publish" sending
          (publish-Safe (publish_env env row) row.topic row.partition_key (json row.payload)))
        λ _.
          bind-Keeps (λ w. view w.db) (publish_all env rows) (λ ids. pure (row.id ∷ ids))
            (publish_all-Safe rows) (λ ids w. refl)

  rows-Safe : (batch : List OutboxRow) → Safe (dispatch_rows env batch)
  unfolding dispatch_rows
  rows-Safe [] = λ w. refl
  rows-Safe (row ∷ rows) =
      bind-Keeps (λ w. view w.db) (publish_all env (row ∷ rows))
        (λ ids. wrapped "mark sent" (mark_sent env ids) >>= λ _. pure (commit tt))
        (publish_all-Safe (row ∷ rows))
        λ ids.
          bind-Keeps (λ w. view w.db) (wrapped "mark sent" (mark_sent env ids))
            (λ _. pure (commit tt))
            (wrapped-Keeps (λ w. view w.db) "mark sent" (mark_sent env ids) (mark_sent-Safe ids))
            (λ _ w. refl)

  claim-Safe :
      (locked : OutboxRow → Bool)
      → Safe (call env (reading (λ w. claim batch_size locked w.db.outbox)))
  claim-Safe locked = call-Keeps (λ w. view w.db) env (reading _) (λ w. refl) (λ w. refl)

  body-Safe : (locked : OutboxRow → Bool) → Safe (dispatch_body env locked)
  unfolding dispatch_body
  body-Safe locked =
      let selecting = call env (reading (λ w. claim batch_size locked w.db.outbox)) in
      bind-Keeps (λ w. view w.db) (wrapped "select unsent" selecting) (dispatch_rows env)
        (wrapped-Keeps (λ w. view w.db) "select unsent" selecting (claim-Safe locked)) rows-Safe

  pub dispatch-Keeps : (locked : OutboxRow → Bool) → Keeps (λ w. view w.db) (dispatch env locked)
  unfolding dispatch
  dispatch-Keeps locked = transaction-Keeps view env (dispatch_body env locked) (body-Safe locked)
