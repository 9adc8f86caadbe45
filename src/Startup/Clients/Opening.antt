-- ===== src/Startup/Clients/Opening.antt =====
-- A client that a constructor returns is open, and a constructor that fails leaves nothing open, but for
-- the exporter of pkg/telemetry.
use rush_delivery_engine.Prelude.{refl, inl, inr, String, List, ◌∷◌, Option-cases, Bool-cases}
use rush_delivery_engine.Startup.Config.{Postgres, Telemetry}
use rush_delivery_engine.Startup.Process.{
  Resource, RedisOptions, Host, Process, Boot, tick, call, tracer, exporter, wrapped, ◌>>=◌,
  deferring_all, close_all,
}
use rush_delivery_engine.Startup.Process.Open.{
  Open, opens, closes, at_once, Opens, Releases, LeavesAtMost, WithResult,
}
use rush_delivery_engine.Startup.Clients.{
  parse_config, after_ping, pinged, new_pool, new_redis, new_exporter, new_provider, init, dsn,
}

module _ (host : Host) where
  pinged-Opens :
      (text : String) (r : Resource) (rs : List Resource) (p : Process)
      → Open (r ∷ rs) p.events
      → WithResult rs (pinged host text r p).1.events (pinged host text r p).0
  unfolding pinged after_ping call
  pinged-Opens text r rs p o = elim (Option-cases (host.fails p.calls)) [
    | inl up ↦ rw up o
    | inr (s, down) ↦ rw down (closes at_once o)
  ]

  pub new_redis-Opens : (cfg : RedisOptions) → Opens (new_redis host cfg)
  unfolding new_redis
  new_redis-Opens cfg rs p o = pinged-Opens "redis ping" _ rs _ (opens o)

  pub new_pool-Opens : (cfg : Postgres) → Opens (new_pool host cfg)
  unfolding new_pool parse_config call
  new_pool-Opens cfg rs p o = elim (Option-cases (host.parse_dsn (dsn cfg))) [
    | inr (s, bad) ↦ rw bad o
    | inl good ↦ elim (Option-cases (host.fails p.calls)) [
      | inl up ↦ rw (good, parse_config, up) (pinged-Opens "ping pg" _ rs _ (opens o))
      | inr (s, down) ↦ rw (good, parse_config, down) o
    ]
  ]

  -- The rest of `run` after `telemetry.Init`.
  pub init-LeavesAtMost :
      (cfg : Telemetry) (service_name : String) (body : Boot (Unit {0}))
      → Releases body
      → LeavesAtMost
          (wrapped "init telemetry" (init host cfg service_name) >>= λ rs. deferring_all rs body)
  unfolding init new_exporter new_provider deferring_all close_all call
  init-LeavesAtMost cfg service_name body h rs p o = elim (Bool-cases cfg.enabled) [
    | inr off ↦ rw off (inl (h rs p o))
    | inl on ↦ elim (Option-cases (host.fails p.calls)) [
      | inr (s, down) ↦ rw (on, down) (inl o)
      | inl up ↦ elim (Option-cases (host.fails (tick p).calls)) [
        | inr (s, down) ↦ rw (on, up, down) (inr (s, cfg.otlp_endpoint, refl, opens o))
        | inl up' ↦
            rw (on, up, up')
              (inl (
                closes at_once (
                  closes at_once (
                    h (tracer cfg.otlp_endpoint service_name ∷ exporter cfg.otlp_endpoint ∷ rs) _
                      (opens (opens o))))))
      ]
    ]
  ]
