-- ===== src/Startup/Clients.antt =====
-- pkg/postgres/postgres.go, pkg/redisx/redis.go, pkg/telemetry/otel.go and pkg/logger/logger.go: the
-- clients that a service makes, each checked by a call before it is used.
pub mod Opening
pub mod Quiet
pub mod Success
use Prim.Native.String.{◌++◌}
use rush_delivery_engine.Prelude.{
  itoa, Bool, true, false, ◌||◌, Option, none, some, String, List, [], ◌∷◌, str_eq, if◌then◌else◌,
}
use rush_delivery_engine.Store.Errors.{Error, call_failed, wrap, Result, ok, err}
use rush_delivery_engine.Startup.Config.{Postgres, Telemetry}
use rush_delivery_engine.Startup.Process.{
  Resource, exporter, tracer, pool, redis_client, PoolConfig, RedisOptions, Host, Process, Boot,
  ◌>>=◌, ◌>>◌, pure, raise, wrapped, call, opening, note, closed,
}

-- The connection string of `New`.
unfoldable pub dsn : Postgres → String
dsn c =
    "postgres://"
    ++ c.user
    ++ ":"
    ++ c.password
    ++ "@"
    ++ c.host
    ++ ":"
    ++ itoa c.port
    ++ "/"
    ++ c.name
    ++ "?sslmode="
    ++ c.sslmode

-- `pgxpool.ParseConfig` and the settings after it.
parse_config : Host → String → Option String → Boot PoolConfig
parse_config host s (some e) = raise (call_failed e)
parse_config host s none = pure (record {
  dsn = s;
  max_conns = 20;
  min_conns = 2;
  max_conn_lifetime_minutes = 30;
  max_conn_idle_minutes = 5;
})

-- A client whose first ping fails is closed.
after_ping : Resource → Result (Unit {0}) → Boot Resource
after_ping r (ok _) p = (ok r, p)
after_ping r (err e) p = (err e, note (closed r) p)

unfoldable pub pinged : Host → String → Resource → Boot Resource
unfolding after_ping
pinged host text r p =
    let (alive, p') = wrapped text (call host (pure tt)) p in after_ping r alive p'

-- `postgres.New`
unfoldable pub new_pool : Host → Postgres → Boot Resource
unfolding parse_config
new_pool host cfg = do
  pcfg ← wrapped "parse pg config" (parse_config host (dsn cfg) (host.parse_dsn (dsn cfg)))
  r ← wrapped "create pool" (call host (opening (pool pcfg)))
  pinged host "ping pg" r

-- `redisx.New`; the client connects when it is first used.
unfoldable pub new_redis : Host → RedisOptions → Boot Resource
new_redis host cfg = do r ← opening (redis_client cfg); pinged host "redis ping" r

-- `otlptracehttp.New`
new_exporter : Host → String → Boot Resource
new_exporter host endpoint = wrapped "otlp exporter" (call host (opening (exporter endpoint)))

-- `sdktrace.NewTracerProvider`; its `Shutdown` stops the provider and then its exporter.
new_provider : Telemetry → String → Resource → Boot (List Resource)
new_provider cfg service_name exp = do
  tp ← opening (tracer cfg.otlp_endpoint service_name)
  pure (tp ∷ exp ∷ [])

-- `telemetry.Init`: what the shutdown function that it returns closes. The exporter stays open where
-- `resource.New` fails.
unfoldable pub init : Host → Telemetry → String → Boot (List Resource)
unfolding new_exporter new_provider
init host cfg service_name =
    if cfg.enabled
    then (new_exporter host cfg.otlp_endpoint >>= λ exp.
        wrapped "resource" (call host (pure tt)) >> new_provider cfg service_name exp)
    else pure []

pub data Level : Type 0 where
  debug_level info_level : Level

-- The level of `logger.New`.
unfoldable pub level : String → Level
level env = if str_eq env "local" || str_eq env "dev" then debug_level else info_level
