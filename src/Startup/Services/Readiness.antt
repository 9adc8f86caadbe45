-- ===== src/Startup/Services/Readiness.antt =====
-- What a service of cmd/ has set going, and what the cluster then holds.
use rush_delivery_engine.Prelude.{
  ◌≡◌, refl, subst, ◌⊎◌, inl, inr, true, String, List, [], ◌∷◌, ◌++◌, All, arith,
}
use rush_delivery_engine.Store.Errors.{Error, Result, ok, err, wrap}
use rush_delivery_engine.Kafka.Topics.{
  all_topics, topic_order_placed, topic_order_assigned, topic_order_status_updated,
  topic_eta_updated, topic_rider_location_update,
}
use rush_delivery_engine.Kafka.Admin.{exists_in, ensure_topics}
use rush_delivery_engine.Kafka.Admin.Ensured.{IsCreating, ensure_topics_adds, ensure_topics-Ends}
use rush_delivery_engine.Assignment.Consumer as Assignment
use rush_delivery_engine.Eta as Eta
use rush_delivery_engine.Notification.Service.{
  listeners, on_assigned, on_status, on_eta, on_rider_location,
}
use rush_delivery_engine.Startup.Config.{Config, load}
use rush_delivery_engine.Startup.Process.{
  Partition, Worker, relaying, consuming, serving, Host, Process, Boot, ◌>>◌, starting, continue,
  map_err,
}
use rush_delivery_engine.Startup.Process.Workers.{workers, Started, Starts}
use rush_delivery_engine.Startup.Servers.{
  order_server, rider_server, location_server, notification_server,
}
use rush_delivery_engine.Startup.Services.Opening.{
  with_context-Starts, with_producer-Starts, with_readers-Starts, with_telemetry-Starts,
  with_pool-Starts, with_redis-Starts, listen_until-Started, serve-Starts, relay_and_serve-Starts,
  consume-Starts, relay_and_consume-Starts,
}
use rush_delivery_engine.Startup.Services.{
  config_path, load_config, ensure_all_topics, start_listeners, listen_until, order_body,
  rider_body, location_body, assignment_body, eta_body, notification_body, run_order, run_rider,
  run_location, run_assignment, run_eta, run_notification, Service, order_service, rider_service,
  location_service, assignment_service, eta_service, notification_service, run, reader_config,
}

abbrev pub HasTopics : List Partition → Type 0
HasTopics parts = All (λ t. exists_in parts t ≡ true) all_topics

abbrev pub AnyTopics : List Partition → Type 0
AnyTopics parts = Unit

-- What each service sets going, the latest first.
abbrev pub workers_of : Host → Config → Service → List Worker
workers_of host cfg order_service = serving (order_server host cfg) ∷ relaying ∷ []
workers_of host cfg rider_service = serving (rider_server host cfg) ∷ []
workers_of host cfg location_service = serving (location_server host cfg) ∷ []
workers_of host cfg assignment_service =
    consuming (reader_config cfg topic_order_placed ".assignment") Assignment.handle ∷ relaying ∷ []
workers_of host cfg eta_service =
    consuming (reader_config cfg topic_rider_location_update ".eta") Eta.handle ∷ []
workers_of host cfg notification_service =
    serving (notification_server host cfg)
    ∷ consuming (reader_config cfg topic_rider_location_update ".notify.loc") on_rider_location
    ∷ consuming (reader_config cfg topic_eta_updated ".notify.eta") on_eta
    ∷ consuming (reader_config cfg topic_order_status_updated ".notify.status") on_status
    ∷ consuming (reader_config cfg topic_order_assigned ".notify.assigned") on_assigned
    ∷ []

-- The rider service uses no topic.
abbrev pub TopicsOf : Service → List Partition → Type 0
TopicsOf rider_service = AnyTopics
TopicsOf _ = HasTopics

module _ (host : Host) (Q : List Partition → Type 0) where
  listen-Starts :
      (cfg : Config)
      → Starts Q Q (workers_of host cfg notification_service) (
          start_listeners cfg listeners
          >> starting (serving (notification_server host cfg))
          >> listen_until host host.ending)
  unfolding start_listeners
  listen-Starts cfg p q =
      listen_until-Started host Q host.ending (workers_of host cfg notification_service)
        (workers p.events) _ refl q

module _ (host : Host) (creating : IsCreating host) where
  ensure_topics-HasTopics :
      (brokers : List String) (p : Process)
      → ((e : Error) × ((ensure_topics host brokers all_topics p).0 ≡ err e))
        ⊎ HasTopics (ensure_topics host brokers all_topics p).1.partitions
  ensure_topics-HasTopics brokers p = ground (
    arith,
    ensure_topics_adds host creating brokers all_topics p topic_order_placed,
    ensure_topics_adds host creating brokers all_topics p topic_order_assigned,
    ensure_topics_adds host creating brokers all_topics p topic_order_status_updated,
    ensure_topics_adds host creating brokers all_topics p topic_rider_location_update,
    ensure_topics_adds host creating brokers all_topics p topic_eta_updated,
  )

  ensured-Started :
      (ks before : List Worker) (body : Boot (Unit {0})) (r : Result (Unit {0})) (p : Process)
      → workers p.events ≡ before
      → ((e : Error) × (r ≡ err e)) ⊎ HasTopics p.partitions
      → Starts HasTopics HasTopics ks body
      → Started HasTopics ks before (continue (map_err (wrap "ensure topics") r) (λ _. body) p)
  ensured-Started ks before body (err e) p same there h = inl (_, refl, same)
  ensured-Started ks before body (ok _) p same (inl (e, failed)) h = absurd (ground (arith, failed))
  ensured-Started ks before body (ok _) p same (inr there) h =
      subst (λ ws. Started HasTopics ks ws (body p)) same (h p there)

  ensure-Starts :
      (cfg : Config) (ks : List Worker) (body : Boot (Unit {0}))
      → Starts HasTopics HasTopics ks body
      → Starts AnyTopics HasTopics ks (ensure_all_topics host cfg >> body)
  unfolding ensure_all_topics
  ensure-Starts cfg ks body h p i =
      let r = ensure_topics host cfg.kafka.brokers all_topics p in
      ensured-Started ks (workers p.events) body r.0 r.1
        (ensure_topics-Ends host cfg.kafka.brokers all_topics p).1
        (ensure_topics-HasTopics cfg.kafka.brokers p) h

ruleset starting_up = (
  with_context-Starts, with_producer-Starts, with_readers-Starts, with_telemetry-Starts,
  with_pool-Starts, with_redis-Starts, ensure-Starts, serve-Starts, relay_and_serve-Starts,
)

module _ (host : Host) (creating : IsCreating host) (cfg : Config) where
  order_body-Starts :
      Starts AnyTopics HasTopics (workers_of host cfg order_service) (order_body host cfg)
  unfolding order_body
  order_body-Starts = search starting_up depth 16

  rider_body-Starts :
      Starts AnyTopics AnyTopics (workers_of host cfg rider_service) (rider_body host cfg)
  unfolding rider_body
  rider_body-Starts = search starting_up depth 16

  location_body-Starts :
      Starts AnyTopics HasTopics (workers_of host cfg location_service) (location_body host cfg)
  unfolding location_body
  location_body-Starts = search starting_up depth 16

  assignment_body-Starts :
      Starts AnyTopics HasTopics (workers_of host cfg assignment_service) (assignment_body host cfg)
  unfolding assignment_body
  assignment_body-Starts = search (starting_up, relay_and_consume-Starts) depth 16

  eta_body-Starts : Starts AnyTopics HasTopics (workers_of host cfg eta_service) (eta_body host cfg)
  unfolding eta_body
  eta_body-Starts = search (starting_up, consume-Starts) depth 16

  notification_body-Starts :
      Starts AnyTopics HasTopics
        (workers_of host cfg notification_service)
        (notification_body host cfg)
  unfolding notification_body
  notification_body-Starts = search (starting_up, listen-Starts) depth 16

module _ (host : Host) (creating : IsCreating host) where
  configured-Started :
      (service : Service) (body : Config → Boot (Unit {0})) (r : Result Config) (p : Process)
      → load host (config_path host) ≡ r
      → ((c : Config) → Starts AnyTopics (TopicsOf service) (workers_of host c service) (body c))
      → ((e : Error) × ((continue (map_err (wrap "load config") r) body p).0 ≡ err e)
          × (workers (continue (map_err (wrap "load config") r) body p).1.events
              ≡ workers p.events))
        ⊎ ((c : Config) × (load host (config_path host) ≡ ok c)
            × (workers (continue (map_err (wrap "load config") r) body p).1.events
                ≡ workers_of host c service ++ workers p.events)
            × TopicsOf service (continue (map_err (wrap "load config") r) body p).1.partitions)
  configured-Started service body (err e) p loaded h = inl (_, refl, refl)
  configured-Started service body (ok c) p loaded h = elim (h c p tt) [
    | inl failed ↦ inl failed
    | inr (ks, topics) ↦ inr (c, loaded, ks, topics)
  ]

  -- Where a successful CreateTopics adds the topics that it is asked for: whatever call fails, `run` of
  -- each service returns an error and has started nothing, or it loaded a configuration and started what
  -- the service consists of, and no more; then, but for the rider service, every topic exists.
  pub run_starts :
      (service : Service) (p : Process)
      → let r = run host service p in
        ((e : Error) × (r.0 ≡ err e) × (workers r.1.events ≡ workers p.events))
        ⊎ ((c : Config) × (load host (config_path host) ≡ ok c)
            × (workers r.1.events ≡ workers_of host c service ++ workers p.events)
            × TopicsOf service r.1.partitions)
  unfolding run run_order run_rider run_location run_assignment run_eta run_notification load_config
  run_starts order_service p =
      configured-Started order_service (order_body host) _ p refl (order_body-Starts host creating)
  run_starts rider_service p =
      configured-Started rider_service (rider_body host) _ p refl (rider_body-Starts host creating)
  run_starts location_service p =
      configured-Started location_service (location_body host) _ p refl
        (location_body-Starts host creating)
  run_starts assignment_service p =
      configured-Started assignment_service (assignment_body host) _ p refl
        (assignment_body-Starts host creating)
  run_starts eta_service p =
      configured-Started eta_service (eta_body host) _ p refl (eta_body-Starts host creating)
  run_starts notification_service p =
      configured-Started notification_service (notification_body host) _ p refl
        (notification_body-Starts host creating)
