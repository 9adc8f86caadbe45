-- ===== src/Startup/Servers.antt =====
-- The HTTP servers that the functions `run` of cmd/ set up: the address and the routes, and for the order
-- service the limiter and the signer. The middlewares of chi and the timeouts of the server are not part
-- of it; Metrics.antt has the middleware that counts.
use Prim.Native.String.{◌++◌}
use rush_delivery_engine.Prelude.{itoa, ℕ, true, false, none, some, String, [], ◌∷◌}
use rush_delivery_engine.Auth.{new_signer}
use rush_delivery_engine.Startup.Config.{Config}
use rush_delivery_engine.Startup.Process.{Route, Server, Host}

abbrev route : String → String → Route
route method path = record { method = method; path = path; authenticated = false }

abbrev guarded : String → String → Route
guarded method path = record { method = method; path = path; authenticated = true }

abbrev address : ℕ → String
address port = ":" ++ itoa port

abbrev pub order_server : Host → Config → Server
order_server host cfg = record {
  addr = address cfg.services.order_port;
  routes =
      route "GET" "/healthz"
      ∷ route "" "/metrics"
      ∷ route "POST" "/api/v1/auth/login"
      ∷ guarded "POST" "/api/v1/orders/"
      ∷ guarded "GET" "/api/v1/orders/{id}"
      ∷ guarded "PATCH" "/api/v1/orders/{id}/cancel"
      ∷ guarded "PATCH" "/api/v1/orders/{id}/status"
      ∷ [];
  limiter =
      some (record { limit = cfg.orders_per_minute; window = 60000000000; prefix = "rl:orders" });
  signer = some (new_signer cfg.auth.jwt_secret cfg.auth.ttl_hours);
}

abbrev pub rider_server : Host → Config → Server
rider_server host cfg = record {
  addr = address cfg.services.rider_port;
  routes =
      route "GET" "/healthz"
      ∷ route "" "/metrics"
      ∷ route "POST" "/api/v1/riders/"
      ∷ route "PATCH" "/api/v1/riders/{id}/status"
      ∷ route "GET" "/api/v1/riders/{id}/orders"
      ∷ [];
  limiter = none;
  signer = none;
}

abbrev pub location_server : Host → Config → Server
location_server host cfg = record {
  addr = address cfg.services.location_port;
  routes = route "GET" "/healthz" ∷ route "" "/metrics" ∷ route "GET" "/ws/rider/{rider_id}" ∷ [];
  limiter = none;
  signer = none;
}

abbrev pub notification_server : Host → Config → Server
notification_server host cfg = record {
  addr = address cfg.services.notify_port;
  routes = route "GET" "/healthz" ∷ route "" "/metrics" ∷ route "GET" "/ws/order/{order_id}" ∷ [];
  limiter = none;
  signer = none;
}
