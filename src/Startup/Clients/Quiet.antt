-- ===== src/Startup/Clients/Quiet.antt =====
-- The constructors of pkg/postgres, pkg/redisx and pkg/telemetry start no goroutine of the program and
-- touch no topic.
use rush_delivery_engine.Prelude.{
  refl, inl, inr, Option, none, some, String, Option-cases, Bool-cases,
}
use rush_delivery_engine.Startup.Config.{Postgres, Telemetry}
use rush_delivery_engine.Startup.Process.{
  Resource, pool, exporter, redis_client, RedisOptions, Host, pure, wrapped, call, opening,
}
use rush_delivery_engine.Startup.Process.Workers.{Silent, call-Silent, bind-Silent}
use rush_delivery_engine.Startup.Clients.{
  dsn, parse_config, after_ping, pinged, new_pool, new_redis, new_exporter, new_provider, init,
}

pub opening-Silent : (r : Resource) → Silent (opening r)
opening-Silent r p = (refl, refl)

module _ (host : Host) where
  pinged-Silent : (text : String) (r : Resource) → Silent (pinged host text r)
  unfolding pinged after_ping call
  pinged-Silent text r p = elim (Option-cases (host.fails p.calls)) [
    | inl up ↦ rw up (refl, refl)
    | inr (s, down) ↦ rw down (refl, refl)
  ]

  parse_config-Silent : (s : String) (e : Option String) → Silent (parse_config host s e)
  unfolding parse_config
  parse_config-Silent s none p = (refl, refl)
  parse_config-Silent s (some e) p = (refl, refl)

  pub new_pool-Silent : (cfg : Postgres) → Silent (new_pool host cfg)
  unfolding new_pool
  new_pool-Silent cfg =
      bind-Silent
        (wrapped "parse pg config" (parse_config host (dsn cfg) (host.parse_dsn (dsn cfg)))) _
        (parse_config-Silent (dsn cfg) (host.parse_dsn (dsn cfg)))
        λ pcfg.
          bind-Silent (wrapped "create pool" (call host (opening (pool pcfg))))
            (pinged host "ping pg")
            (call-Silent host (opening (pool pcfg)) (opening-Silent (pool pcfg)))
            (pinged-Silent "ping pg")

  pub new_redis-Silent : (cfg : RedisOptions) → Silent (new_redis host cfg)
  unfolding new_redis
  new_redis-Silent cfg =
      bind-Silent (opening (redis_client cfg)) (pinged host "redis ping")
        (opening-Silent (redis_client cfg)) (pinged-Silent "redis ping")

  checked-Silent : (text : String) → Silent (wrapped text (call host (pure tt)))
  checked-Silent text = call-Silent host (pure tt) (λ p. (refl, refl))

  new_provider-Silent :
      (cfg : Telemetry) (name : String) (exp : Resource) → Silent (new_provider cfg name exp)
  unfolding new_provider
  new_provider-Silent cfg name exp p = (refl, refl)

  pub init-Silent : (cfg : Telemetry) (name : String) → Silent (init host cfg name)
  unfolding init new_exporter
  init-Silent cfg name p = elim (Bool-cases cfg.enabled) [
    | inr off ↦ rw off (refl, refl)
    | inl on ↦ rw on (
        bind-Silent (wrapped "otlp exporter" (call host (opening (exporter cfg.otlp_endpoint)))) _
          (call-Silent host (opening (exporter cfg.otlp_endpoint))
            (opening-Silent (exporter cfg.otlp_endpoint)))
          (λ exp.
            bind-Silent (wrapped "resource" (call host (pure tt))) (λ _. new_provider cfg name exp)
              (checked-Silent "resource") (λ _. new_provider-Silent cfg name exp))
          p)
  ]
