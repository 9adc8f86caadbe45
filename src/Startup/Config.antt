-- ===== src/Startup/Config.antt =====
-- pkg/config/config.go. Viper is the part of `Host` that reads the file and finds the value of a key.
pub mod Defaults
use rush_delivery_engine.Prelude.{ℕ, Bool, true, Option, none, some, String, List, [], ◌∷◌}
use rush_delivery_engine.Store.Errors.{call_failed, Result, ok, err}
use rush_delivery_engine.Startup.Process.{
  Setting, text, number, flag, texts, Settings, ReadError, config_file_not_found, other_error,
  RedisOptions, Host,
}
use rush_delivery_engine.Wire.{◌>>=◌}

pub record Postgres : Type 0 where
  pub host : String
  pub port : ℕ
  pub name : String
  pub user : String
  pub password : String
  pub sslmode : String

pub record Kafka : Type 0 where
  pub brokers : List String
  pub group_id : String

pub record Services : Type 0 where
  pub order_port : ℕ
  pub rider_port : ℕ
  pub location_port : ℕ
  pub notify_port : ℕ

pub record Auth : Type 0 where
  pub jwt_secret : String
  pub ttl_hours : ℕ

pub record Telemetry : Type 0 where
  pub enabled : Bool
  pub otlp_endpoint : String

pub record Config : Type 0 where
  pub env : String
  pub postgres : Postgres
  pub redis : RedisOptions
  pub kafka : Kafka
  pub services : Services
  pub orders_per_minute : ℕ
  pub auth : Auth
  pub telemetry : Telemetry

-- `setDefaults`
abbrev pub defaults : Settings
defaults =
    ("env", text "local")
    ∷ ("postgres.host", text "localhost")
    ∷ ("postgres.port", number 5432)
    ∷ ("postgres.name", text "delivery_engine")
    ∷ ("postgres.user", text "postgres")
    ∷ ("postgres.password", text "postgres")
    ∷ ("postgres.sslmode", text "disable")
    ∷ ("redis.addr", text "localhost:6379")
    ∷ ("redis.db", number 0)
    ∷ ("kafka.brokers", texts ("localhost:9092" ∷ []))
    ∷ ("kafka.group_id", text "delivery-engine")
    ∷ ("services.order_port", number 8080)
    ∷ ("services.rider_port", number 8081)
    ∷ ("services.location_port", number 8083)
    ∷ ("services.notify_port", number 8085)
    ∷ ("rate_limit.orders_per_minute", number 5)
    ∷ ("auth.jwt_secret", text "dev-only-secret-change-me")
    ∷ ("auth.ttl_hours", number 24)
    ∷ ("telemetry.enabled", flag true)
    ∷ ("telemetry.otlp_endpoint", text "localhost:4318")
    ∷ []

module _ (host : Host) (path : String) where
  text_at : String → Option String
  text_at key = host.decode_text (host.viper_get defaults path key)

  number_at : String → Option ℕ
  number_at key = host.decode_number (host.viper_get defaults path key)

  postgres_at : Option Postgres
  unfolding text_at number_at
  postgres_at = do
    h ← text_at "postgres.host"
    port ← number_at "postgres.port"
    name ← text_at "postgres.name"
    user ← text_at "postgres.user"
    password ← text_at "postgres.password"
    sslmode ← text_at "postgres.sslmode"
    some (record {
      host = h;
      port = port;
      name = name;
      user = user;
      password = password;
      sslmode = sslmode;
    })

  redis_at : Option RedisOptions
  unfolding text_at number_at
  redis_at = do
    addr ← text_at "redis.addr"
    password ← text_at "redis.password"
    db ← number_at "redis.db"
    some (record { addr = addr; password = password; db = db })

  kafka_at : Option Kafka
  unfolding text_at
  kafka_at = do
    brokers ← host.decode_texts (host.viper_get defaults path "kafka.brokers")
    group_id ← text_at "kafka.group_id"
    some (record { brokers = brokers; group_id = group_id })

  services_at : Option Services
  unfolding number_at
  services_at = do
    order_port ← number_at "services.order_port"
    rider_port ← number_at "services.rider_port"
    location_port ← number_at "services.location_port"
    notify_port ← number_at "services.notify_port"
    some (record {
      order_port = order_port;
      rider_port = rider_port;
      location_port = location_port;
      notify_port = notify_port;
    })

  auth_at : Option Auth
  unfolding text_at number_at
  auth_at = do
    jwt_secret ← text_at "auth.jwt_secret"
    ttl_hours ← number_at "auth.ttl_hours"
    some (record { jwt_secret = jwt_secret; ttl_hours = ttl_hours })

  telemetry_at : Option Telemetry
  unfolding text_at
  telemetry_at = do
    enabled ← host.decode_flag (host.viper_get defaults path "telemetry.enabled")
    otlp_endpoint ← text_at "telemetry.otlp_endpoint"
    some (record { enabled = enabled; otlp_endpoint = otlp_endpoint })

  -- `Unmarshal` into a `Config`, by its tags.
  unfoldable pub unmarshal : Option Config
  unfolding text_at number_at postgres_at redis_at kafka_at services_at auth_at telemetry_at
  unmarshal = do
    env ← text_at "env"
    postgres ← postgres_at
    redis ← redis_at
    kafka ← kafka_at
    services ← services_at
    orders_per_minute ← number_at "rate_limit.orders_per_minute"
    auth ← auth_at
    telemetry ← telemetry_at
    some (record {
      env = env;
      postgres = postgres;
      redis = redis;
      kafka = kafka;
      services = services;
      orders_per_minute = orders_per_minute;
      auth = auth;
      telemetry = telemetry;
    })

  or_unmarshal_error : Option Config → Result Config
  or_unmarshal_error none = err (call_failed host.unmarshal_error)
  or_unmarshal_error (some c) = ok c

  -- A file that is not found is no error.
  after_read : Option ReadError → Result Config
  unfolding or_unmarshal_error unmarshal
  after_read none = or_unmarshal_error unmarshal
  after_read (some (config_file_not_found s)) = or_unmarshal_error unmarshal
  after_read (some (other_error s)) = err (call_failed s)

  -- `Load`
  unfoldable pub load : Result Config
  unfolding after_read
  load = after_read (host.read_in_config path)
