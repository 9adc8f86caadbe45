-- ===== src/Startup/Config/Defaults.antt =====
-- What a service runs with where nothing is configured.
use rush_delivery_engine.Prelude.{
  ℕ, ◌≡◌, refl, ◌⊎◌, inl, inr, true, Bool, Option, none, some, String, List, [], ◌∷◌, str_eq,
  if◌then◌else◌,
}
use rush_delivery_engine.Store.Errors.{ok}
use rush_delivery_engine.Startup.Process.{
  Setting, text, number, flag, texts, Settings, ReadError, config_file_not_found, Host,
}
use rush_delivery_engine.Startup.Config.{
  Config, text_at, number_at, postgres_at, redis_at, kafka_at, services_at, auth_at, telemetry_at,
  unmarshal, or_unmarshal_error, after_read, load,
}

abbrev pub lookup : String → Settings → Option Setting
lookup k [] = none
lookup k ((j, v) ∷ rest) = if str_eq j k then some v else lookup k rest

-- Viper where neither the file nor the environment sets a key: it finds the default, and decodes a
-- value of the type that is asked for, and a missing one to the zero value.
pub record IsUnset (host : Host) : Type 0 where
  pub falls_back : (ds : Settings) (path key : String) → host.viper_get ds path key ≡ lookup key ds
  pub texts_read : (s : String) → host.decode_text (some (text s)) ≡ some s
  pub missing_text : host.decode_text none ≡ some ""
  pub numbers_read : (n : ℕ) → host.decode_number (some (number n)) ≡ some n
  pub flags_read : (b : Bool) → host.decode_flag (some (flag b)) ≡ some b
  pub lists_read : (ss : List String) → host.decode_texts (some (texts ss)) ≡ some ss

abbrev pub local : Config
local = record {
  env = "local";
  postgres = record {
    host = "localhost";
    port = 5432;
    name = "delivery_engine";
    user = "postgres";
    password = "postgres";
    sslmode = "disable";
  };
  redis = record { addr = "localhost:6379"; password = ""; db = 0 };
  kafka = record { brokers = "localhost:9092" ∷ []; group_id = "delivery-engine" };
  services = record {
    order_port = 8080;
    rider_port = 8081;
    location_port = 8083;
    notify_port = 8085;
  };
  orders_per_minute = 5;
  auth = record { jwt_secret = "dev-only-secret-change-me"; ttl_hours = 24 };
  telemetry = record { enabled = true; otlp_endpoint = "localhost:4318" };
}

module _ (host : Host) (h : IsUnset host) (path : String) where
  unmarshal-local : unmarshal host path ≡ some local
  unfolding unmarshal text_at number_at postgres_at redis_at kafka_at services_at auth_at
      telemetry_at
  unmarshal-local = simp (
    text_at, number_at, postgres_at, redis_at, services_at, auth_at, h.falls_back, h.texts_read,
    h.missing_text, h.numbers_read, h.flags_read, h.lists_read,
  )

  -- Where nothing is configured and viper finds no file, or reads one that sets nothing, `Load` gives the
  -- configuration for local development.
  pub load-local :
      (read : Option ReadError)
      → host.read_in_config path ≡ read
      → (read ≡ none) ⊎ ((s : String) × (read ≡ some (config_file_not_found s)))
      → load host path ≡ ok local
  unfolding load after_read or_unmarshal_error
  load-local read e (inl whole) = rw (e, whole, unmarshal-local) refl
  load-local read e (inr (s, missing)) = rw (e, missing, unmarshal-local) refl
