-- ===== src/Outbox.antt =====
-- internal/outbox/outbox.go.
pub mod Relay
use rush_delivery_engine.Prelude.{◌+◌, none, some, String, [], ◌∷◌, ◌++◌}
use rush_delivery_engine.Platform.{Uuid, Env}
use rush_delivery_engine.Wire.{Object}
use rush_delivery_engine.Store.{OutboxRow, World, Action}
use rush_delivery_engine.Store.Tx.{call, writing}

abbrev pub new_row : Env → World → Uuid → String → String → Object → OutboxRow
new_row env w aggregate_id topic partition_key payload = record {
  id = w.outbox_seq;
  aggregate_id = aggregate_id;
  topic = topic;
  partition_key = partition_key;
  payload = payload;
  trace_context = some env.trace;
  created_at = env.now w.calls;
  sent_at = none;
}

abbrev pub add_row : OutboxRow → World → World
add_row row w = record w {
  db = record w.db { outbox = w.db.outbox ++ row ∷ [] };
  outbox_seq = w.outbox_seq + 1;
}

-- `Write`: the payloads are objects of texts and finite numbers, which `json.Marshal` accepts.
unfoldable pub write : Env → Uuid → String → String → Object → Action (Unit {0})
unfolding call
write env aggregate_id topic partition_key payload =
    call env (writing (λ w. add_row (new_row env w aggregate_id topic partition_key payload) w))
