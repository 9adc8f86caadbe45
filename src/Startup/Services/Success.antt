-- ===== src/Startup/Services/Success.antt =====
-- The services start, and stop without an error, where nothing fails.
use rush_delivery_engine.Prelude.{
  map, ℕ, ◌≡◌, ◌++◌, arith, refl, sym, subst, inl, inr, none, String, List, [], ◌∷◌,
}
use rush_delivery_engine.Kafka.Consumer.{Handler}
use rush_delivery_engine.Kafka.Topics.{all_topics}
use rush_delivery_engine.Kafka.Admin.{ensure_topics}
use rush_delivery_engine.Kafka.Admin.Success.{ensure_topics-Succeeds}
use rush_delivery_engine.Store.Errors.{Result, ok}
use rush_delivery_engine.Startup.Config.{Config, load}
use rush_delivery_engine.Startup.Clients.{dsn, new_pool, new_redis, init}
use rush_delivery_engine.Startup.Clients.Success.{
  new_pool-Succeeds, new_redis-Succeeds, init-Succeeds,
}
use rush_delivery_engine.Startup.Process.Success.{
  Succeeds, pure-Succeeds, opening-Succeeds, starting-Succeeds, then-Succeeds, wrapped-Succeeds,
  acquiring-Succeeds, initialising-Succeeds, deferring_all-Succeeds, call-Succeeds,
}
use rush_delivery_engine.Startup.Process.{
  reader, open_all, consuming, serving, ReaderConfig, Server, signalled, Host, Process, Boot,
  continue, ◌>>=◌, pure, wrapped, starting,
}
use rush_delivery_engine.Kafka.Admin.Ensured.{IsCreating}
use rush_delivery_engine.Startup.Process.Workers.{workers}
use rush_delivery_engine.Startup.Services.Readiness.{workers_of, TopicsOf, run_starts}
use rush_delivery_engine.Startup.Services.{
  config_path, load_config, ensure_all_topics, serve_until, serve, start_listeners, listen_until,
  with_context, with_producer, with_readers, with_telemetry, with_pool, with_redis, consume,
  order_body, rider_body, location_body, assignment_body, eta_body, notification_body, run_order,
  run_rider, run_location, run_assignment, run_eta, run_notification, Service, order_service,
  rider_service, location_service, assignment_service, eta_service, notification_service, run,
}

-- No call fails, the configuration loads, its connection string parses, it names a broker, and the
-- process is stopped by a signal.
pub record IsReady (host : Host) (cfg : Config) : Type 0 where
  pub up : (n : ℕ) → host.fails n ≡ none
  pub loaded : load host (config_path host) ≡ ok cfg
  pub dsn_parses : host.parse_dsn (dsn cfg.postgres) ≡ none
  pub broker : String
  pub more : List String
  pub brokers : cfg.kafka.brokers ≡ broker ∷ more
  pub ending : host.ending ≡ signalled

with_context-Succeeds : (body : Boot (Unit {0})) → Succeeds body → Succeeds (with_context body)
unfolding with_context
with_context-Succeeds body h = acquiring-Succeeds _ (λ r. body) (opening-Succeeds _) (λ r. h)

with_producer-Succeeds :
    (cfg : Config) (body : Boot (Unit {0})) → Succeeds body → Succeeds (with_producer cfg body)
unfolding with_producer
with_producer-Succeeds cfg body h = acquiring-Succeeds _ (λ r. body) (opening-Succeeds _) (λ r. h)

with_readers-Succeeds :
    (configs : List ReaderConfig) (body : Boot (Unit {0}))
    → Succeeds body
    → Succeeds (with_readers configs body)
unfolding with_readers
with_readers-Succeeds configs body h = record {
  result = λ p.
      (deferring_all-Succeeds (map reader configs) body h).result (open_all (map reader configs) p);
}

start_listeners-Succeeds :
    (cfg : Config) (ls : List (String × String × Handler)) → Succeeds (start_listeners cfg ls)
unfolding start_listeners
start_listeners-Succeeds cfg [] = pure-Succeeds tt
start_listeners-Succeeds cfg ((topic, suffix, h) ∷ more) =
    then-Succeeds _ _ (starting-Succeeds _) (start_listeners-Succeeds cfg more)

module _ (host : Host) (cfg : Config) (ready : IsReady host cfg) where
  with_telemetry-Succeeds :
      (name : String) (body : Boot (Unit {0}))
      → Succeeds body
      → Succeeds (with_telemetry host cfg name body)
  unfolding with_telemetry
  with_telemetry-Succeeds name body h =
      initialising-Succeeds (wrapped "init telemetry" (init host cfg.telemetry name)) body
        (wrapped-Succeeds "init telemetry" _ (init-Succeeds host ready.up cfg.telemetry name)) h

  with_pool-Succeeds : (body : Boot (Unit {0})) → Succeeds body → Succeeds (with_pool host cfg body)
  unfolding with_pool
  with_pool-Succeeds body h =
      acquiring-Succeeds (new_pool host cfg.postgres) (λ r. body)
        (new_pool-Succeeds host ready.up cfg.postgres ready.dsn_parses) (λ r. h)

  with_redis-Succeeds :
      (body : Boot (Unit {0})) → Succeeds body → Succeeds (with_redis host cfg body)
  unfolding with_redis
  with_redis-Succeeds body h =
      acquiring-Succeeds (new_redis host cfg.redis) (λ r. body)
        (new_redis-Succeeds host ready.up cfg.redis) (λ r. h)

  ensure_all_topics-Succeeds : Succeeds (ensure_all_topics host cfg)
  unfolding ensure_all_topics
  ensure_all_topics-Succeeds =
      wrapped-Succeeds "ensure topics" (ensure_topics host cfg.kafka.brokers all_topics) (
        subst (λ bs. Succeeds (ensure_topics host bs all_topics)) (sym ready.brokers)
          (ensure_topics-Succeeds host ready.up ready.broker ready.more all_topics))

  serve-Succeeds : (server : Server) → Succeeds (serve host server)
  unfolding serve serve_until
  serve-Succeeds server =
      then-Succeeds (starting (serving server)) _ (starting-Succeeds (serving server)) (
        subst (λ e. Succeeds (serve_until host e)) (sym ready.ending)
          (call-Succeeds host ready.up (pure tt) (pure-Succeeds tt)))

  listen_until-Succeeds : Succeeds (listen_until host host.ending)
  unfolding listen_until
  listen_until-Succeeds =
      subst (λ e. Succeeds (listen_until host e)) (sym ready.ending)
        (record { result = λ p. (tt, refl) })

  consume-Succeeds : (config : ReaderConfig) (h : Handler) → Succeeds (consume host config h)
  unfolding consume
  consume-Succeeds config h = starting-Succeeds (consuming config h)

  load_config-Succeeds : (p : Process) → load_config host p ≡ (ok cfg, p)
  unfolding load_config
  load_config-Succeeds p = rw ready.loaded refl

ruleset succeeding = (
  with_context-Succeeds, with_producer-Succeeds, with_readers-Succeeds, with_telemetry-Succeeds,
  with_pool-Succeeds, with_redis-Succeeds, ensure_all_topics-Succeeds, serve-Succeeds,
  listen_until-Succeeds, consume-Succeeds, start_listeners-Succeeds, starting-Succeeds,
  then-Succeeds,
)

module _ (host : Host) (cfg : Config) (ready : IsReady host cfg) where
  order_body-Succeeds : Succeeds (order_body host cfg)
  unfolding order_body
  order_body-Succeeds = search succeeding depth 16

  rider_body-Succeeds : Succeeds (rider_body host cfg)
  unfolding rider_body
  rider_body-Succeeds = search succeeding depth 16

  location_body-Succeeds : Succeeds (location_body host cfg)
  unfolding location_body
  location_body-Succeeds = search succeeding depth 16

  assignment_body-Succeeds : Succeeds (assignment_body host cfg)
  unfolding assignment_body
  assignment_body-Succeeds = search succeeding depth 16

  eta_body-Succeeds : Succeeds (eta_body host cfg)
  unfolding eta_body
  eta_body-Succeeds = search succeeding depth 16

  notification_body-Succeeds : Succeeds (notification_body host cfg)
  unfolding notification_body
  notification_body-Succeeds = search succeeding depth 16

  configured-ok :
      (body : Config → Boot (Unit {0})) (p : Process)
      → Succeeds (body cfg)
      → ((load_config host >>= body) p).0 ≡ ok tt
  configured-ok body p h =
      let (_, fine) = h.result p in
      subst (λ (r : Result Config × Process). (continue r.0 body r.1).0 ≡ ok tt)
        (sym (load_config-Succeeds host cfg ready p)) fine

  run-ok : (service : Service) (p : Process) → (run host service p).0 ≡ ok tt
  unfolding run run_order run_rider run_location run_assignment run_eta run_notification
  run-ok order_service p = configured-ok (order_body host) p order_body-Succeeds
  run-ok rider_service p = configured-ok (rider_body host) p rider_body-Succeeds
  run-ok location_service p = configured-ok (location_body host) p location_body-Succeeds
  run-ok assignment_service p = configured-ok (assignment_body host) p assignment_body-Succeeds
  run-ok eta_service p = configured-ok (eta_body host) p eta_body-Succeeds
  run-ok notification_service p =
      configured-ok (notification_body host) p notification_body-Succeeds

  -- Where no call fails, a successful CreateTopics adds the topics that it is asked for, the configuration
  -- loads, its connection string parses, it names a broker, and a signal stops the process: `run` of each
  -- service returns without an error, has started what the service consists of, and no more, and, but for
  -- the rider service, every topic exists.
  pub run_succeeds :
      (creating : IsCreating host) (service : Service) (p : Process)
      → let r = run host service p in
        (r.0 ≡ ok tt)
        × (workers r.1.events ≡ workers_of host cfg service ++ workers p.events)
        × TopicsOf service r.1.partitions
  run_succeeds creating service p = elim (run_starts host creating service p) [
    | inl (e, failed, _) ↦ absurd (ground (arith, failed, run-ok service p))
    | inr (c, loaded, ks, topics) ↦ (
      run-ok service p,
      subst
          (λ d.
            workers (run host service p).1.events ≡ workers_of host d service ++ workers p.events)
          (same loaded) ks,
      topics,
    )
  ]
    where
      same : {c : Config} → load host (config_path host) ≡ ok c → c ≡ cfg
      same {c} loaded = ground (arith, loaded, ready.loaded)
