-- ===== src/Tests/Starting.antt =====
-- Services that start, on a cluster without topics.
use rush_delivery_engine.Prelude.{
  ℕ, ◌≡◌, ◌⊎◌, refl, Bool, false, ◌||◌, Option, none, some, String, List, [], ◌∷◌, ◌++◌, map, any,
  str_eq, ◌==◌, true, take, inl, arith, if◌then◌else◌,
}
use rush_delivery_engine.Kafka.Topics.{all_topics}
use rush_delivery_engine.Kafka.Admin.{exists_in, ensure_topics, missing_topics}
use rush_delivery_engine.Kafka.Admin.Ensured.{
  IsCreating, Partly, ensure_topics_adds, ensure_topics_again,
}
use rush_delivery_engine.Store.Errors.{Error, ok, err}
use rush_delivery_engine.Startup.Config.{Config, load}
use rush_delivery_engine.Startup.Config.Defaults.{lookup, IsUnset, local, load-local}
use rush_delivery_engine.Startup.Process.{
  Setting, text, number, flag, texts, Partition, TopicConfig, Host, Process, signalled, call,
  signals, exporter, opened, closed, deferring,
}
use rush_delivery_engine.Startup.Process.Open.{Open, nothing, Left}
use rush_delivery_engine.Startup.Process.Workers.{workers}
use rush_delivery_engine.Startup.Clients.{init}
use rush_delivery_engine.Startup.Services.{
  rider_service, config_path, order_service, notification_service, run,
}
use rush_delivery_engine.Startup.Services.Shutdown.{run_releases}
use rush_delivery_engine.Startup.Services.Success.{IsReady, run_succeeds}
use rush_delivery_engine.Startup.Services.Readiness.{workers_of, TopicsOf, run_starts}

abbrev as_text : Option Setting → Option String
as_text none = some ""
as_text (some (text s)) = some s
as_text (some _) = none

abbrev as_number : Option Setting → Option ℕ
as_number none = some 0
as_number (some (number n)) = some n
as_number (some _) = none

abbrev as_flag : Option Setting → Option Bool
as_flag none = some false
as_flag (some (flag b)) = some b
as_flag (some _) = none

abbrev as_texts : Option Setting → Option (List String)
as_texts none = some []
as_texts (some (texts ss)) = some ss
as_texts (some _) = none

abbrev partition_of : TopicConfig → Partition
partition_of c = record { topic = c.topic }

-- A host where nothing is configured and all calls succeed.
abbrev a_host : Host
a_host = record {
  fails = λ n. none;
  getenv = λ s. "";
  read_in_config = λ s. none;
  viper_get = λ ds path key. lookup key ds;
  decode_text = as_text;
  decode_number = as_number;
  decode_flag = as_flag;
  decode_texts = as_texts;
  unmarshal_error = "bad value";
  parse_dsn = λ s. none;
  controller = λ parts. ("localhost", 9092);
  create = λ cs parts. map partition_of cs ++ parts;
  create_partly = λ cs parts. map partition_of (take 1 cs) ++ parts;
  ending = signalled;
}

-- The second call, that of `resource.New`, fails.
abbrev a_leaking_host : Host
a_leaking_host = record a_host { fails = λ n. if n == 1 then some "timeout" else none }

a_host-IsUnset : IsUnset a_host
a_host-IsUnset = record {
  falls_back = λ ds path key. refl;
  texts_read = λ s. refl;
  missing_text = refl;
  numbers_read = λ n. refl;
  flags_read = λ b. refl;
  lists_read = λ ss. refl;
}

created_topics :
    (cs : List TopicConfig) (parts : List Partition) (t : String)
    → exists_in (map partition_of cs ++ parts) t
      ≡ (any (λ (c : TopicConfig). str_eq c.topic t) cs || exists_in parts t)
created_topics [] parts t = refl
created_topics (c ∷ cs) parts t = ground (arith, created_topics cs parts t)

a_host-IsCreating : IsCreating a_host
a_host-IsCreating = record { all = created_topics; kept = kept; only = only }
  where
    kept :
        (cs : List TopicConfig) (parts : List Partition) (t : String)
        → exists_in parts t ≡ true
        → exists_in (map partition_of (take 1 cs) ++ parts) t ≡ true
    kept [] parts t there = there
    kept (c ∷ cs) parts t there = ground (arith, there)

    only :
        (cs : List TopicConfig) (parts : List Partition) (t : String)
        → exists_in (map partition_of (take 1 cs) ++ parts) t ≡ true
        → (any (λ (c : TopicConfig). str_eq c.topic t) cs || exists_in parts t) ≡ true
    only [] parts t there = there
    only (c ∷ cs) parts t there = ground (arith, there)

abbrev fresh : Process
fresh = record { partitions = []; events = []; calls = 0 }

ensure_topics_adds_example :
    let r = ensure_topics a_host ("kafka:9092" ∷ []) all_topics fresh in
    ((e : Error) × (r.0 ≡ err e)
      × Partly a_host a_host-IsCreating all_topics "order.placed" [] r.1.partitions)
    ⊎ ((r.0 ≡ ok tt)
        × (exists_in r.1.partitions "order.placed"
            ≡ (any (λ u. str_eq u "order.placed") all_topics || exists_in [] "order.placed")))
ensure_topics_adds_example =
    ensure_topics_adds a_host a_host-IsCreating ("kafka:9092" ∷ []) all_topics fresh "order.placed"

abbrev ensured : Process
ensured = record { partitions = map (λ t. record { topic = t }) all_topics; events = []; calls = 0 }

ensure_topics_again_example :
    (ensure_topics a_host ("other:9092" ∷ []) all_topics ensured).1.partitions ≡ ensured.partitions
unfolding ensure_topics call deferring missing_topics
ensure_topics_again_example =
    ensure_topics_again a_host a_host-IsCreating ("kafka:9092" ∷ []) ("other:9092" ∷ []) all_topics
      fresh ensured refl refl

run_releases_example :
    let r = run a_leaking_host rider_service fresh in Open [] r.1.events ⊎ Left [] r
run_releases_example = run_releases a_leaking_host rider_service [] fresh nothing

leaves_exporter :
    (run a_leaking_host rider_service fresh).1.events
    ≡ closed signals ∷ opened (exporter "localhost:4318") ∷ opened signals ∷ []
unfolding run init load deferring call
leaves_exporter = refl

run_starts_example :
    let r = run a_host notification_service fresh in
    ((e : Error) × (r.0 ≡ err e) × (workers r.1.events ≡ []))
    ⊎ ((c : Config) × (load a_host (config_path a_host) ≡ ok c)
        × (workers r.1.events ≡ workers_of a_host c notification_service ++ [])
        × TopicsOf notification_service r.1.partitions)
run_starts_example = run_starts a_host a_host-IsCreating notification_service fresh

a_host-IsReady : IsReady a_host local
a_host-IsReady = record {
  up = λ n. refl;
  loaded = load-local a_host a_host-IsUnset "config/config.yaml" none refl (inl refl);
  dsn_parses = refl;
  broker = "localhost:9092";
  more = [];
  brokers = refl;
  ending = refl;
}

run_succeeds_example :
    let r = run a_host order_service fresh in
    (r.0 ≡ ok tt)
    × (workers r.1.events ≡ workers_of a_host local order_service ++ [])
    × TopicsOf order_service r.1.partitions
run_succeeds_example =
    run_succeeds a_host local a_host-IsReady a_host-IsCreating order_service fresh
