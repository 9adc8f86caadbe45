-- ===== src/Startup/Services/Opening.antt =====
-- What each part of a function `run` sets going, given the rest of it.
use rush_delivery_engine.Prelude.{
  ◌≡◌, refl, inl, inr, String, List, [], ◌∷◌, ◌++◌, map, Option-cases,
}
use rush_delivery_engine.Kafka.Consumer.{Handler}
use rush_delivery_engine.Startup.Config.{Config}
use rush_delivery_engine.Startup.Clients.{new_pool, new_redis, init}
use rush_delivery_engine.Startup.Clients.Quiet.{
  opening-Silent, new_pool-Silent, new_redis-Silent, init-Silent,
}
use rush_delivery_engine.Startup.Process.{
  Partition, signals, writer, reader, ReaderConfig, Server, Worker, relaying, consuming, serving,
  Ending, signalled, listen_failed, Host, Process, Boot, ◌>>◌, wrapped, call, opening, starting,
  deferring_all, open_all, close_all,
}
use rush_delivery_engine.Startup.Process.Workers.{
  workers, Started, Starts, acquiring-Starts, initialising-Starts, deferring_all-Starts,
  open_all-Starts,
}
use rush_delivery_engine.Startup.Services.{
  serve_until, serve, listen_until, with_context, with_producer, with_readers, with_telemetry,
  with_pool, with_redis, consume,
}

module _ (I Q : List Partition → Type 0) (ks : List Worker) where
  pub with_context-Starts :
      (body : Boot (Unit {0})) → Starts I Q ks body → Starts I Q ks (with_context body)
  unfolding with_context
  with_context-Starts body h =
      acquiring-Starts I Q ks (opening signals) body (opening-Silent signals) h

  pub with_producer-Starts :
      (cfg : Config) (body : Boot (Unit {0}))
      → Starts I Q ks body
      → Starts I Q ks (with_producer cfg body)
  unfolding with_producer
  with_producer-Starts cfg body h =
      acquiring-Starts I Q ks (opening (writer cfg.kafka.brokers)) body
        (opening-Silent (writer cfg.kafka.brokers)) h

  pub with_readers-Starts :
      (configs : List ReaderConfig) (body : Boot (Unit {0}))
      → Starts I Q ks body
      → Starts I Q ks (with_readers configs body)
  unfolding with_readers
  with_readers-Starts configs body h =
      open_all-Starts I Q ks (map reader configs) (deferring_all (map reader configs) body)
        (deferring_all-Starts I Q ks (map reader configs) body h)

module _ (host : Host) (I Q : List Partition → Type 0) (ks : List Worker) where
  pub with_telemetry-Starts :
      (cfg : Config) (name : String) (body : Boot (Unit {0}))
      → Starts I Q ks body
      → Starts I Q ks (with_telemetry host cfg name body)
  unfolding with_telemetry
  with_telemetry-Starts cfg name body h =
      initialising-Starts I Q ks (wrapped "init telemetry" (init host cfg.telemetry name)) body
        (init-Silent host cfg.telemetry name) h

  pub with_pool-Starts :
      (cfg : Config) (body : Boot (Unit {0}))
      → Starts I Q ks body
      → Starts I Q ks (with_pool host cfg body)
  unfolding with_pool
  with_pool-Starts cfg body h =
      acquiring-Starts I Q ks (new_pool host cfg.postgres) body (new_pool-Silent host cfg.postgres)
        h

  pub with_redis-Starts :
      (cfg : Config) (body : Boot (Unit {0}))
      → Starts I Q ks body
      → Starts I Q ks (with_redis host cfg body)
  unfolding with_redis
  with_redis-Starts cfg body h =
      acquiring-Starts I Q ks (new_redis host cfg.redis) body (new_redis-Silent host cfg.redis) h

module _ (host : Host) (Q : List Partition → Type 0) where
  pub serve_until-Started :
      (ending : Ending) (ks before : List Worker) (p : Process)
      → workers p.events ≡ ks ++ before
      → Q p.partitions
      → Started Q ks before (serve_until host ending p)
  unfolding serve_until call
  serve_until-Started (listen_failed s) ks before p e q = inr (e, q)
  serve_until-Started signalled ks before p e q = elim (Option-cases (host.fails p.calls)) [
    | inl up ↦ rw up (inr (e, q))
    | inr (s, down) ↦ rw down (inr (e, q))
  ]

  pub listen_until-Started :
      (ending : Ending) (ks before : List Worker) (p : Process)
      → workers p.events ≡ ks ++ before
      → Q p.partitions
      → Started Q ks before (listen_until host ending p)
  unfolding listen_until call
  listen_until-Started (listen_failed s) ks before p e q = inr (e, q)
  listen_until-Started signalled ks before p e q = elim (Option-cases (host.fails p.calls)) [
    | inl up ↦ rw up (inr (e, q))
    | inr (s, down) ↦ rw down (inr (e, q))
  ]

  pub serve-Starts : (server : Server) → Starts Q Q (serving server ∷ []) (serve host server)
  unfolding serve
  serve-Starts server p q =
      serve_until-Started host.ending (serving server ∷ []) (workers p.events) _ refl q

  pub relay_and_serve-Starts :
      (server : Server)
      → Starts Q Q (serving server ∷ relaying ∷ []) (starting relaying >> serve host server)
  unfolding serve
  relay_and_serve-Starts server p q =
      serve_until-Started host.ending (serving server ∷ relaying ∷ []) (workers p.events) _ refl q

  pub consume-Starts :
      (config : ReaderConfig) (h : Handler)
      → Starts Q Q (consuming config h ∷ []) (consume host config h)
  unfolding consume
  consume-Starts config h p q = inr (refl, q)

  pub relay_and_consume-Starts :
      (config : ReaderConfig) (h : Handler)
      → Starts Q Q
          (consuming config h ∷ relaying ∷ [])
          (starting relaying >> with_readers (config ∷ []) (consume host config h))
  unfolding consume with_readers deferring_all open_all close_all
  relay_and_consume-Starts config h p q = inr (refl, q)
