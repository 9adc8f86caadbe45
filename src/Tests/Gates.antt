-- ===== src/Tests/Gates.antt =====
-- The login and the router of the order service at concrete inputs.
use rush_delivery_engine.Prelude.{
  ◌≡◌, ◌&&◌, ◌==◌, Bool, true, some, none, [], refl, Bool-cases, inl, inr, arith, if◌then◌else◌,
  str_eq, String, false,
}
use text.Mathlib.TextEquality.{eq_iff}
use rush_delivery_engine.Order.Handler.{post, serve}
use rush_delivery_engine.Auth.{
  Claims, Jwt, IsJwt, Signer, claims_of, sign, middleware, login, reply_token,
}
use rush_delivery_engine.Auth.Passing.{login-admitted}
use rush_delivery_engine.RateLimit.{key_of, SlidingWindow, Redis}
use rush_delivery_engine.Gateway.{orders, identify, login_form, HttpRequest, answered, gateway}
use rush_delivery_engine.Gateway.Guarded.{Guarded, gateway-Guarded, no_header_unthrottled}
use rush_delivery_engine.Tests.Demo.{up_env, a_request, a_world}

abbrev a_signer : Signer
a_signer = record { secret = "k"; ttl = 2000000000 }

abbrev the_claims : Claims
the_claims = claims_of a_signer 10 2 "customer"

abbrev are_the_claims : Claims → Bool
are_the_claims c =
    c.customer_id == 2
    && str_eq c.role "customer"
    && c.issued_at == 0
    && c.expires_at == 2000000000
    && str_eq c.issuer "rush-delivery-engine"

-- A library that knows one token.
abbrev one_token : Jwt
one_token = record {
  sign = λ secret c. if are_the_claims c then some "t" else none;
  parse = λ key now token. some (the_claims, true);
}

are_the_claims_sound : (c : Claims) → are_the_claims c ≡ true → the_claims ≡ c
are_the_claims_sound c h =
    ground (arith, eq_iff c.role "customer", eq_iff c.issuer "rush-delivery-engine")

one_token-IsJwt : IsJwt one_token
one_token-IsJwt = record {
  parse_signed = λ key secret token c now signed known early. elim (Bool-cases (are_the_claims c)) [
    | inl same ↦ rw (are_the_claims_sound c same) refl
    | inr other ↦ absurd (ground arith)
  ];
}

abbrev a_limiter : SlidingWindow
a_limiter = record { limit = 2; window = 60; prefix = "rl:orders" }

abbrev empty_redis : Redis
empty_redis key = record { members = []; expires_at = 0 }

abbrev an_http_request : HttpRequest
an_http_request = record {
  method = "POST";
  path = "/api/v1/orders";
  authorization = "Bearer t";
  x_customer_id = "";
  route = orders (post (some a_request));
}

gateway-Guarded_example :
    let r =
      gateway up_env one_token a_signer
        (λ t. t)
        (λ t. t)
        a_limiter
        none
        50
        an_http_request
        empty_redis
        a_world in
    Guarded up_env
      (middleware one_token a_signer 50 "Bearer t")
      (orders (post (some a_request)))
      a_world
      (r.0, r.2)
    × ((key : String)
        → str_eq key (key_of (λ t. t) a_limiter (identify up_env none an_http_request)) ≡ false
        → r.1 key ≡ empty_redis key)
gateway-Guarded_example =
    gateway-Guarded up_env one_token a_signer (λ t. t) (λ t. t) a_limiter none 50 an_http_request
      empty_redis a_world

no_header_unthrottled_example :
    let r =
      gateway up_env one_token a_signer
        (λ t. t)
        (λ t. t)
        a_limiter
        none
        50
        an_http_request
        empty_redis
        a_world in
    (r.0 ≡ answered (serve up_env (post (some a_request)) a_world).0) × (r.1 ≡ empty_redis)
unfolding login reply_token sign
no_header_unthrottled_example =
    no_header_unthrottled up_env one_token a_signer (λ t. t) (λ t. t) a_limiter none 50
      an_http_request empty_redis a_world the_claims (post (some a_request)) refl refl
      (login-admitted one_token one_token-IsJwt a_signer 10 50 2 "t" refl (omega arith))

abbrev a_login : HttpRequest
a_login = record {
  method = "POST";
  path = "/api/v1/auth/login";
  authorization = "";
  x_customer_id = "";
  route = login_form (some 2);
}
