-- ===== src/Startup/Clients/Success.antt =====
-- The clients are made where no call fails.
use rush_delivery_engine.Prelude.{ℕ, ◌≡◌, refl, sym, subst, Bool-cases, inl, inr, none, String, []}
use rush_delivery_engine.Startup.Config.{Postgres, Telemetry}
use rush_delivery_engine.Startup.Clients.{
  dsn, parse_config, after_ping, pinged, new_pool, new_redis, new_exporter, new_provider, init,
}
use rush_delivery_engine.Startup.Process.{RedisOptions, Resource, Host, call}
use rush_delivery_engine.Startup.Process.Success.{
  Succeeds, pure-Succeeds, opening-Succeeds, bind-Succeeds, then-Succeeds, wrapped-Succeeds,
  call-Succeeds,
}

module _ (host : Host) (up : (n : ℕ) → host.fails n ≡ none) where
  pub pinged-Succeeds : (text : String) (r : Resource) → Succeeds (pinged host text r)
  unfolding pinged after_ping call
  pinged-Succeeds text r = record { result = λ p. (r, rw (up p.calls) refl) }

  pub new_pool-Succeeds :
      (cfg : Postgres) → host.parse_dsn (dsn cfg) ≡ none → Succeeds (new_pool host cfg)
  unfolding new_pool parse_config
  new_pool-Succeeds cfg parses =
      bind-Succeeds _ _
        (wrapped-Succeeds "parse pg config" _
          (subst (λ e. Succeeds (parse_config host (dsn cfg) e)) (sym parses) (pure-Succeeds _)))
        λ pcfg.
          bind-Succeeds _ _
            (wrapped-Succeeds "create pool" _ (call-Succeeds host up _ (opening-Succeeds _)))
            (pinged-Succeeds "ping pg")

  pub new_redis-Succeeds : (cfg : RedisOptions) → Succeeds (new_redis host cfg)
  unfolding new_redis
  new_redis-Succeeds cfg = bind-Succeeds _ _ (opening-Succeeds _) (pinged-Succeeds "redis ping")

  new_provider-Succeeds :
      (cfg : Telemetry) (name : String) (exp : Resource) → Succeeds (new_provider cfg name exp)
  unfolding new_provider
  new_provider-Succeeds cfg name exp = record { result = λ p. (_, refl) }

  pub init-Succeeds : (cfg : Telemetry) (name : String) → Succeeds (init host cfg name)
  unfolding init new_exporter
  init-Succeeds cfg name = elim (Bool-cases cfg.enabled) [
    | inl on ↦ rw on (
        bind-Succeeds _ _
          (wrapped-Succeeds "otlp exporter" _ (call-Succeeds host up _ (opening-Succeeds _)))
          λ exp.
            then-Succeeds _ _
              (wrapped-Succeeds "resource" _ (call-Succeeds host up _ (pure-Succeeds tt)))
              (new_provider-Succeeds cfg name exp))
    | inr off ↦ rw off (pure-Succeeds [])
  ]
