-- ===== src/Startup/Services.antt =====
-- The functions `run` of cmd/: what each service opens, in which order, and what it then sets going.
pub mod Shutdown
pub mod Opening
pub mod Readiness
pub mod Success
use Prim.Native.String.{◌++◌}
use rush_delivery_engine.Prelude.{
  ℕ, true, false, Option, none, some, String, List, [], ◌∷◌, map, str_eq, if◌then◌else◌,
}
use rush_delivery_engine.Store.Errors.{call_failed, Result}
use rush_delivery_engine.Kafka.Topics.{all_topics, topic_order_placed, topic_rider_location_update}
use rush_delivery_engine.Kafka.Consumer.{Handler}
use rush_delivery_engine.Kafka.Admin.{ensure_topics}
use rush_delivery_engine.RateLimit.{SlidingWindow}
use rush_delivery_engine.Auth.{Signer, new_signer}
use rush_delivery_engine.Assignment.Consumer as Assignment
use rush_delivery_engine.Eta as Eta
use rush_delivery_engine.Notification.Service.{listeners}
use rush_delivery_engine.Startup.Config.{Config, load}
use rush_delivery_engine.Startup.Servers.{
  order_server, rider_server, location_server, notification_server,
}
use rush_delivery_engine.Startup.Clients.{new_pool, new_redis, init}
use rush_delivery_engine.Startup.Process.{
  Resource, signals, writer, reader, ReaderConfig, Route, Server, Worker, relaying, consuming,
  serving, Ending, signalled, listen_failed, Host, Process, Boot, ◌>>=◌, ◌>>◌, pure, raise, wrapped,
  call, opening, starting, deferring, open_all, deferring_all,
}

abbrev pub config_path : Host → String
config_path host =
    if str_eq (host.getenv "CONFIG_PATH") ""
    then "config/config.yaml"
    else host.getenv "CONFIG_PATH"

load_config : Host → Boot Config
load_config host = wrapped "load config" (λ p. (load host (config_path host), p))

ensure_all_topics : Host → Config → Boot (Unit {0})
ensure_all_topics host cfg =
    wrapped "ensure topics" (ensure_topics host cfg.kafka.brokers all_topics)

-- The server starts; the process waits for the signal, and shuts the server down, or for its error.
pub serve_until : Host → Ending → Boot (Unit {0})
serve_until host signalled = call host (pure tt)
serve_until host (listen_failed s) = raise (call_failed s)

pub serve : Host → Server → Boot (Unit {0})
unfolding serve_until
serve host server = do starting (serving server); serve_until host host.ending

abbrev pub reader_config : Config → String → String → ReaderConfig
reader_config cfg topic suffix = record {
  brokers = cfg.kafka.brokers;
  topic = topic;
  group_id = cfg.kafka.group_id ++ suffix;
}

start_listeners : Config → List (String × String × Handler) → Boot (Unit {0})
start_listeners cfg [] = pure tt
start_listeners cfg ((topic, suffix, h) ∷ more) = do
  starting (consuming (reader_config cfg topic suffix) h)
  start_listeners cfg more

abbrev pub listener_readers : Config → List (String × String × Handler) → List ReaderConfig
listener_readers cfg [] = []
listener_readers cfg ((topic, suffix, h) ∷ more) =
    reader_config cfg topic suffix ∷ listener_readers cfg more

-- `_ = srv.Shutdown(…)`, or the error of the server.
pub listen_until : Host → Ending → Boot (Unit {0})
listen_until host signalled p = let (_, p') = call host (pure tt) p in (Result.ok tt, p')
listen_until host (listen_failed s) p = raise (call_failed s) p

-- `signal.NotifyContext` with its `defer cancel()`, and the same of each client.
pub with_context : Boot (Unit {0}) → Boot (Unit {0})
with_context body = opening signals >>= λ ctx. deferring ctx body

pub with_producer : Config → Boot (Unit {0}) → Boot (Unit {0})
with_producer cfg body = opening (writer cfg.kafka.brokers) >>= λ producer. deferring producer body

-- `kafka.NewConsumer` for each, and the deferred function that closes them in the same order.
pub with_readers : List ReaderConfig → Boot (Unit {0}) → Boot (Unit {0})
with_readers configs body p =
    let consumers = map reader configs in deferring_all consumers body (open_all consumers p)

module _ (host : Host) where
  pub with_telemetry : Config → String → Boot (Unit {0}) → Boot (Unit {0})
  with_telemetry cfg name body =
      wrapped "init telemetry" (init host cfg.telemetry name) >>= λ shutdown.
      deferring_all shutdown body

  pub with_pool : Config → Boot (Unit {0}) → Boot (Unit {0})
  with_pool cfg body = new_pool host cfg.postgres >>= λ db. deferring db body

  pub with_redis : Config → Boot (Unit {0}) → Boot (Unit {0})
  with_redis cfg body = new_redis host cfg.redis >>= λ rdb. deferring rdb body

  -- `return consumer.Run(ctx, handler)`, which returns once the signal has come.
  pub consume : ReaderConfig → Handler → Boot (Unit {0})
  consume config h = starting (consuming config h)

  order_body : Config → Boot (Unit {0})
  unfolding with_context with_telemetry with_pool with_redis ensure_all_topics with_producer serve
  order_body cfg = with_context (
      with_telemetry cfg "order-service" (
        with_pool cfg (
          with_redis cfg (
            ensure_all_topics host cfg
            >> with_producer cfg (starting relaying >> serve host (order_server host cfg))))))

  rider_body : Config → Boot (Unit {0})
  unfolding with_context with_telemetry with_pool with_redis serve
  rider_body cfg = with_context (
      with_telemetry cfg "rider-service"
        (with_pool cfg (with_redis cfg (serve host (rider_server host cfg)))))

  location_body : Config → Boot (Unit {0})
  unfolding with_context with_telemetry with_redis ensure_all_topics with_producer serve
  location_body cfg = with_context (
      with_telemetry cfg "location-service" (
        with_redis cfg (
          ensure_all_topics host cfg >> with_producer cfg (serve host (location_server host cfg)))))

  assignment_body : Config → Boot (Unit {0})
  unfolding with_context with_telemetry with_pool with_redis ensure_all_topics with_producer
      with_readers consume
  assignment_body cfg =
      let config = reader_config cfg topic_order_placed ".assignment" in
      with_context (
        with_telemetry cfg "assignment-service" (
          with_pool cfg (
            with_redis cfg (
              ensure_all_topics host cfg
              >> with_producer cfg (
                  starting relaying
                  >> with_readers (config ∷ []) (consume config Assignment.handle))))))

  eta_body : Config → Boot (Unit {0})
  unfolding with_context with_telemetry with_pool ensure_all_topics with_producer with_readers
      consume
  eta_body cfg =
      let config = reader_config cfg topic_rider_location_update ".eta" in
      with_context (
        with_telemetry cfg "eta-service" (
          with_pool cfg (
            ensure_all_topics host cfg
            >> with_producer cfg (with_readers (config ∷ []) (consume config Eta.handle)))))

  notification_body : Config → Boot (Unit {0})
  unfolding with_context with_telemetry with_pool ensure_all_topics with_readers start_listeners
      listen_until
  notification_body cfg = with_context (
      with_telemetry cfg "notification-service" (
        with_pool cfg (
          ensure_all_topics host cfg
          >> with_readers (listener_readers cfg listeners) (
              start_listeners cfg listeners
              >> starting (serving (notification_server host cfg))
              >> listen_until host host.ending))))

  -- `run` of the main.go of each service.
  unfoldable pub run_order : Boot (Unit {0})
  unfolding load_config order_body
  run_order = load_config host >>= order_body

  unfoldable pub run_rider : Boot (Unit {0})
  unfolding load_config rider_body
  run_rider = load_config host >>= rider_body

  unfoldable pub run_location : Boot (Unit {0})
  unfolding load_config location_body
  run_location = load_config host >>= location_body

  unfoldable pub run_assignment : Boot (Unit {0})
  unfolding load_config assignment_body
  run_assignment = load_config host >>= assignment_body

  unfoldable pub run_eta : Boot (Unit {0})
  unfolding load_config eta_body
  run_eta = load_config host >>= eta_body

  unfoldable pub run_notification : Boot (Unit {0})
  unfolding load_config notification_body
  run_notification = load_config host >>= notification_body

-- The services of cmd/.
pub data Service : Type 0 where
  order_service rider_service location_service assignment_service eta_service notification_service :
      Service

unfoldable pub run : Host → Service → Boot (Unit {0})
unfolding run_order run_rider run_location run_assignment run_eta run_notification
run host order_service = run_order host
run host rider_service = run_rider host
run host location_service = run_location host
run host assignment_service = run_assignment host
run host eta_service = run_eta host
run host notification_service = run_notification host
