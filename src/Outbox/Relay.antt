-- ===== src/Outbox/Relay.antt =====
-- internal/outbox/relay.go. Other relays run against the same table: the rows that they have locked are
-- an argument of a dispatch, and a dispatch is otherwise one transaction.
pub mod Claim
pub mod Delivery
mod Sequence
pub mod Tables
pub mod Growth
pub mod NoLoss
pub mod Draining
pub mod Arrival
use rush_delivery_engine.Prelude.{
  ℕ, Bool, true, false, not, ◌&&◌, Option, none, some, List, [], ◌∷◌, take, select, any, ◌==◌, leb,
  update_where, if◌then◌else◌,
}
use rush_delivery_engine.Platform.{Time, Trace, Env}
use rush_delivery_engine.Wire.{json, Message}
use rush_delivery_engine.Store.{OutboxRow, Db, World, Action, pure, wrapped, ◌>>=◌, ◌>>◌}
use rush_delivery_engine.Store.Errors.{ok}
use rush_delivery_engine.Store.Tx.{call, reading, Ending, commit, abandon, transaction}
use rush_delivery_engine.Kafka.Producer.{message, publish_raw}

-- `batchSize` of `NewRelay`
abbrev pub batch_size : ℕ
batch_size = 100

-- `sent_at IS NULL`
abbrev pub is_unsent : OutboxRow → Bool
is_unsent row = elim row.sent_at [ none ↦ true | some t ↦ false ]

-- `ORDER BY id`
insert_by_id : OutboxRow → List OutboxRow → List OutboxRow
insert_by_id row [] = row ∷ []
insert_by_id row (r ∷ rows) = if leb row.id r.id then row ∷ r ∷ rows else r ∷ insert_by_id row rows

unfoldable pub sort_by_id : List OutboxRow → List OutboxRow
unfolding insert_by_id
sort_by_id [] = []
sort_by_id (row ∷ rows) = insert_by_id row (sort_by_id rows)

abbrev pub is_free : (OutboxRow → Bool) → OutboxRow → Bool
is_free locked row = is_unsent row && not (locked row)

-- `SELECT … WHERE sent_at IS NULL ORDER BY id LIMIT $1 FOR UPDATE SKIP LOCKED`
unfoldable pub claim : ℕ → (OutboxRow → Bool) → List OutboxRow → List OutboxRow
claim limit locked rows = take limit (sort_by_id (select (is_free locked) rows))

-- The context in which a row is published: the trace context stored with it, if there is one.
abbrev pub publish_trace : Env → Option Trace → Trace
publish_trace env none = env.trace
publish_trace env (some trace) = env.extract env.trace trace

abbrev pub publish_env : Env → OutboxRow → Env
publish_env env row = record env { trace = publish_trace env row.trace_context }

abbrev pub message_of : Env → OutboxRow → Message
message_of env row = message (publish_env env row) row.topic row.partition_key (json row.payload)

-- The loop over the batch; it returns the ids of the rows that it published.
unfoldable pub publish_all : Env → List OutboxRow → Action (List ℕ)
unfolding publish_raw
publish_all env [] = pure []
publish_all env (row ∷ rows) = do
  wrapped "publish"
      (publish_raw (publish_env env row) row.topic row.partition_key (json row.payload))
  ids ← publish_all env rows
  pure (row.id ∷ ids)

abbrev pub set_sent : Time → OutboxRow → OutboxRow
set_sent now row = record row { sent_at = some now }

abbrev pub is_in : List ℕ → OutboxRow → Bool
is_in ids row = any (λ id. row.id == id) ids

-- `UPDATE outbox SET sent_at = NOW() WHERE id = ANY($1)`
unfoldable pub mark_sent : Env → List ℕ → Action (Unit {0})
unfolding call
mark_sent env ids = call env λ w. (
  ok tt,
  record w {
    db = record w.db { outbox = update_where (is_in ids) (set_sent (env.now w.calls)) w.db.outbox };
  },
)

dispatch_rows : Env → List OutboxRow → Action (Ending (Unit {0}))
dispatch_rows env [] = pure (abandon tt)
dispatch_rows env (row ∷ rows) = do
  ids ← publish_all env (row ∷ rows)
  wrapped "mark sent" (mark_sent env ids)
  pure (commit tt)

dispatch_body : Env → (OutboxRow → Bool) → Action (Ending (Unit {0}))
unfolding dispatch_rows call
dispatch_body env locked = do
  batch ← wrapped "select unsent" (call env (reading (λ w. claim batch_size locked w.db.outbox)))
  dispatch_rows env batch

unfoldable pub dispatch : Env → (OutboxRow → Bool) → Action (Unit {0})
unfolding dispatch_body transaction
dispatch env locked = transaction env (dispatch_body env locked)

-- `Run`: a dispatch at each tick; an error is logged and the next tick tries again.
unfoldable pub run : Env → List (OutboxRow → Bool) → World → World
run env [] w = w
run env (locked ∷ ticks) w = run env ticks (dispatch env locked w).1
