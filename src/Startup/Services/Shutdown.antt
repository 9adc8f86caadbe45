-- ===== src/Startup/Services/Shutdown.antt =====
-- A service of cmd/ that stops has closed what it opened, but for the exporter that pkg/telemetry leaves
-- where it fails.
use rush_delivery_engine.Prelude.{String, List, [], ◌∷◌, map, ◌⊎◌, inl}
use rush_delivery_engine.Kafka.Topics.{all_topics}
use rush_delivery_engine.Kafka.Consumer.{Handler}
use rush_delivery_engine.Kafka.Admin.Connections.{ensure_topics-Releases}
use rush_delivery_engine.Store.Errors.{Result, ok, err}
use rush_delivery_engine.Startup.Config.{Config}
use rush_delivery_engine.Startup.Clients.{new_pool, new_redis}
use rush_delivery_engine.Startup.Clients.Opening.{
  new_pool-Opens, new_redis-Opens, init-LeavesAtMost,
}
use rush_delivery_engine.Startup.Process.{
  Resource, signals, writer, reader, ReaderConfig, Server, Worker, consuming, serving, Ending,
  signalled, listen_failed, Host, Process, Boot, ◌>>=◌, ◌>>◌, pure, opening, starting, continue,
  open_all, deferring_all,
}
use rush_delivery_engine.Startup.Process.Open.{
  Open, opens, starts, Opens, Releases, bind-Releases, call-Releases, acquiring-Releases, Left,
  LeavesAtMost, acquiring-LeavesAtMost, onto, open_all-Open, close_all-Open,
}
use rush_delivery_engine.Startup.Services.{
  load_config, ensure_all_topics, serve_until, serve, start_listeners, listen_until, with_context,
  with_producer, with_readers, with_telemetry, with_pool, with_redis, consume, order_body,
  rider_body, location_body, assignment_body, eta_body, notification_body, run_order, run_rider,
  run_location, run_assignment, run_eta, run_notification, Service, order_service, rider_service,
  location_service, assignment_service, eta_service, notification_service, run,
}

opening-Opens : (r : Resource) → Opens (opening r)
opening-Opens r rs p o = opens o

starting-Releases : (k : Worker) → Releases (starting k)
starting-Releases k rs p o = starts o

then-Releases : (m n : Boot (Unit {0})) → Releases m → Releases n → Releases (m >> n)
then-Releases m n hm hn = bind-Releases m (λ _. n) hm (λ _. hn)

with_context-LeavesAtMost :
    (body : Boot (Unit {0})) → LeavesAtMost body → LeavesAtMost (with_context body)
unfolding with_context
with_context-LeavesAtMost body h rs p o = acquiring-LeavesAtMost signals body rs _ h (opens o)

with_producer-Releases :
    (cfg : Config) (body : Boot (Unit {0})) → Releases body → Releases (with_producer cfg body)
unfolding with_producer
with_producer-Releases cfg body h =
    acquiring-Releases (opening (writer cfg.kafka.brokers)) (λ _. body)
      (opening-Opens (writer cfg.kafka.brokers)) (λ _. h)

with_readers-Releases :
    (configs : List ReaderConfig) (body : Boot (Unit {0}))
    → Releases body
    → Releases (with_readers configs body)
unfolding with_readers deferring_all
with_readers-Releases configs body h rs p o =
    let consumers = map reader configs in
    close_all-Open consumers rs (body (open_all consumers p)).1
      (h (onto consumers rs) (open_all consumers p) (open_all-Open consumers rs p o))

start_listeners-Releases :
    (cfg : Config) (ls : List (String × String × Handler)) → Releases (start_listeners cfg ls)
unfolding start_listeners
start_listeners-Releases cfg [] = λ rs p o. o
start_listeners-Releases cfg ((topic, suffix, h) ∷ more) =
    then-Releases (starting _) (start_listeners cfg more) (starting-Releases _)
      (start_listeners-Releases cfg more)

module _ (host : Host) where
  with_telemetry-LeavesAtMost :
      (cfg : Config) (name : String) (body : Boot (Unit {0}))
      → Releases body
      → LeavesAtMost (with_telemetry host cfg name body)
  unfolding with_telemetry
  with_telemetry-LeavesAtMost cfg name body h = init-LeavesAtMost host cfg.telemetry name body h

  with_pool-Releases :
      (cfg : Config) (body : Boot (Unit {0})) → Releases body → Releases (with_pool host cfg body)
  unfolding with_pool
  with_pool-Releases cfg body h =
      acquiring-Releases (new_pool host cfg.postgres) (λ _. body) (new_pool-Opens host cfg.postgres)
        (λ _. h)

  with_redis-Releases :
      (cfg : Config) (body : Boot (Unit {0})) → Releases body → Releases (with_redis host cfg body)
  unfolding with_redis
  with_redis-Releases cfg body h =
      acquiring-Releases (new_redis host cfg.redis) (λ _. body) (new_redis-Opens host cfg.redis)
        (λ _. h)

  ensure_all_topics-Releases : (cfg : Config) → Releases (ensure_all_topics host cfg)
  unfolding ensure_all_topics
  ensure_all_topics-Releases cfg = ensure_topics-Releases host cfg.kafka.brokers all_topics

  serve_until-Releases : (ending : Ending) → Releases (serve_until host ending)
  unfolding serve_until
  serve_until-Releases signalled = call-Releases host (pure tt) (λ rs p o. o)
  serve_until-Releases (listen_failed s) = λ rs p o. o

  serve-Releases : (server : Server) → Releases (serve host server)
  unfolding serve
  serve-Releases server =
      then-Releases (starting (serving server)) (serve_until host host.ending)
        (starting-Releases (serving server)) (serve_until-Releases host.ending)

  listen_until-Releases : (ending : Ending) → Releases (listen_until host ending)
  unfolding listen_until
  listen_until-Releases signalled rs p o = call-Releases host (pure tt) (λ rs' p' o'. o') rs p o
  listen_until-Releases (listen_failed s) rs p o = o

  consume-Releases : (config : ReaderConfig) (h : Handler) → Releases (consume host config h)
  unfolding consume
  consume-Releases config h = starting-Releases (consuming config h)

ruleset releasing = (
  with_context-LeavesAtMost, with_producer-Releases, with_readers-Releases,
  start_listeners-Releases, with_telemetry-LeavesAtMost, with_pool-Releases, with_redis-Releases,
  ensure_all_topics-Releases, serve-Releases, listen_until-Releases, consume-Releases,
  starting-Releases, then-Releases,
)

module _ (host : Host) where
  order_body-LeavesAtMost : (cfg : Config) → LeavesAtMost (order_body host cfg)
  unfolding order_body
  order_body-LeavesAtMost cfg = search releasing depth 16

  rider_body-LeavesAtMost : (cfg : Config) → LeavesAtMost (rider_body host cfg)
  unfolding rider_body
  rider_body-LeavesAtMost cfg = search releasing depth 16

  location_body-LeavesAtMost : (cfg : Config) → LeavesAtMost (location_body host cfg)
  unfolding location_body
  location_body-LeavesAtMost cfg = search releasing depth 16

  assignment_body-LeavesAtMost : (cfg : Config) → LeavesAtMost (assignment_body host cfg)
  unfolding assignment_body
  assignment_body-LeavesAtMost cfg = search releasing depth 16

  eta_body-LeavesAtMost : (cfg : Config) → LeavesAtMost (eta_body host cfg)
  unfolding eta_body
  eta_body-LeavesAtMost cfg = search releasing depth 16

  notification_body-LeavesAtMost : (cfg : Config) → LeavesAtMost (notification_body host cfg)
  unfolding notification_body
  notification_body-LeavesAtMost cfg = search releasing depth 16

  loaded-LeavesAtMost :
      (body : Config → Boot (Unit {0})) (r : Result Config)
      → ((cfg : Config) → LeavesAtMost (body cfg))
      → LeavesAtMost (continue r body)
  loaded-LeavesAtMost body (ok cfg) h rs p o = h cfg rs p o
  loaded-LeavesAtMost body (err e) h rs p o = inl o

  configured-LeavesAtMost :
      (body : Config → Boot (Unit {0}))
      → ((cfg : Config) → LeavesAtMost (body cfg))
      → LeavesAtMost (load_config host >>= body)
  unfolding load_config
  configured-LeavesAtMost body h rs p o = loaded-LeavesAtMost body _ h rs p o

  -- Whatever call fails and however the service stops, each service, when its `run` returns, has open
  -- what was open before and no more; or it returns the error of `resource.New`, wrapped by
  -- `telemetry.Init`, and has open what was open before and the exporter.
  pub run_releases :
      (service : Service) (rs : List Resource) (p : Process)
      → Open rs p.events
      → Open rs (run host service p).1.events ⊎ Left rs (run host service p)
  unfolding run run_order run_rider run_location run_assignment run_eta run_notification
  run_releases order_service = configured-LeavesAtMost (order_body host) order_body-LeavesAtMost
  run_releases rider_service = configured-LeavesAtMost (rider_body host) rider_body-LeavesAtMost
  run_releases location_service =
      configured-LeavesAtMost (location_body host) location_body-LeavesAtMost
  run_releases assignment_service =
      configured-LeavesAtMost (assignment_body host) assignment_body-LeavesAtMost
  run_releases eta_service = configured-LeavesAtMost (eta_body host) eta_body-LeavesAtMost
  run_releases notification_service =
      configured-LeavesAtMost (notification_body host) notification_body-LeavesAtMost
