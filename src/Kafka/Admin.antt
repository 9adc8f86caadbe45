-- ===== src/Kafka/Admin.antt =====
-- pkg/kafka/admin.go.
pub mod Ensured
pub mod Connections
pub mod Success
use Prim.Native.Char.{code}
use Prim.Native.String.{[], ◌∷◌, ◌++◌}
use rush_delivery_engine.Prelude.{
  itoa, ℕ, Bool, true, false, not, ◌==◌, if◌then◌else◌, Option, none, some, String, List, [], ◌∷◌,
  map, any, select, str_eq,
}
use rush_delivery_engine.Store.Errors.{Error, call_failed, ok, err}
use rush_delivery_engine.Startup.Process.{
  Partition, TopicConfig, Resource, broker_conn, Host, Process, Boot, ◌>>=◌, ◌>>◌, pure, raise,
  wrapped, call, opening, deferring, tick,
}

-- `existing[t]`
abbrev pub exists_in : List Partition → String → Bool
exists_in parts t = any (λ (p : Partition). str_eq p.topic t) parts

abbrev pub topic_config : String → TopicConfig
topic_config t = record { topic = t; num_partitions = 1; replication_factor = 1 }

-- `missing`
unfoldable pub missing_topics : List Partition → List String → List TopicConfig
missing_topics parts topics = map topic_config (select (λ t. not (exists_in parts t)) topics)

-- `kafka.Dial`
dial : Host → String → Boot Resource
dial host addr = call host (opening (broker_conn addr))

-- An error of `CreateTopics` may come after some of the topics were created.
abbrev answer : Option String → List Partition → List Partition → Boot (Unit {0})
answer none all some_of = λ p. (ok tt, record p { partitions = all })
answer (some s) all some_of = λ p. (err (call_failed s), record p { partitions = some_of })

create_topics : Host → List TopicConfig → Boot (Unit {0})
create_topics host missing p =
    answer (host.fails p.calls) (host.create missing p.partitions)
      (host.create_partly missing p.partitions) (tick p)

has_colon : String → Bool
has_colon [] = false
has_colon (c ∷ s) = let rest = has_colon s in if code c == b':' then true else rest

-- `net.JoinHostPort`, which brackets the address of an IPv6 host.
unfoldable pub join_host_port : String → String → String
unfolding has_colon
join_host_port name port =
    if has_colon name then "[" ++ name ++ "]:" ++ port else name ++ ":" ++ port

controller_addr : String × ℕ → String
controller_addr (name, port) = join_host_port name (itoa port)

create_missing : Host → List TopicConfig → Boot (Unit {0})
unfolding dial create_topics controller_addr
create_missing host [] = pure tt
create_missing host (t ∷ missing) = do
  controller ← wrapped "get controller" (call host (λ p. pure (host.controller p.partitions) p))
  controller_conn ← wrapped "dial controller" (dial host (controller_addr controller))
  deferring controller_conn (wrapped "create topics" (create_topics host (t ∷ missing)))

ensure_with : Host → List String → Boot (Unit {0})
unfolding create_missing
ensure_with host topics = do
  parts ← wrapped "read partitions" (call host (λ p. pure p.partitions p))
  create_missing host (missing_topics parts topics)

-- `EnsureTopics`
unfoldable pub ensure_topics : Host → List String → List String → Boot (Unit {0})
unfolding ensure_with dial
ensure_topics host [] topics = raise (call_failed "no brokers configured")
ensure_topics host (broker ∷ brokers) topics = do
  conn ← wrapped "dial broker" (dial host broker)
  deferring conn (ensure_with host topics)
