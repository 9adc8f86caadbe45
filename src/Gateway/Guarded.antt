-- ===== src/Gateway/Guarded.antt =====
-- What reaches the order API through the router of cmd/order-service/main.go.
use rush_delivery_engine.Prelude.{
  ℕ, ◌≡◌, ◌≢◌, false, some, str_eq, refl, ◌⊎◌, inl, inr, Option, none, String, arith,
}
use rush_delivery_engine.Platform.{Time, Env}
use rush_delivery_engine.Store.{World}
use rush_delivery_engine.Order.Handler.{Request, Response, serve}
use rush_delivery_engine.Auth.{Claims, Jwt, Signer, Admission, admitted, unauthorized, middleware}
use rush_delivery_engine.RateLimit.{
  SlidingWindow, Redis, Verdict, pass_unthrottled, pass, too_many_requests, http, allow, key_of,
}
use rush_delivery_engine.Gateway.{
  Target, healthz, metrics_page, no_route, login_form, orders, serve_target, HttpRequest, Answer,
  answered, identify, identity_of, serve_admitted, after_limiter, gateway,
}

identify-no_header :
    (env : Env) (req : HttpRequest) → req.x_customer_id ≡ "" → identify env none req ≡ ""
unfolding identify identity_of
identify-no_header env req h = ground arith

module _ (env : Env) where
  -- No table changed and the answer is not one of the order API; or the request was for the order API, its
  -- token verified, and the API served this very request.
  abbrev pub Guarded : Admission → Target → World → Answer × World → Type 0
  Guarded admission target w r =
      ((r.1 ≡ w) × ((response : Response) → r.0 ≢ answered response))
      ⊎ ((claims : Claims) × (rq : Request) × (admission ≡ admitted claims)
          × (target ≡ orders rq)
          × (r ≡ (answered (serve env rq w).0, (serve env rq w).1)))

  admitted-Guarded :
      (admission : Admission) (rq : Request) (w : World)
      → Guarded admission (orders rq) w (serve_admitted env admission rq w)
  unfolding serve_admitted
  admitted-Guarded (unauthorized text) rq w = inl (refl, λ response e. ground arith)
  admitted-Guarded (admitted claims) rq w = inr (claims, rq, refl, refl, refl)

  target-Guarded :
      (jwt : Jwt) (signer : Signer) (now : Time) (admission : Admission) (target : Target)
      (w : World)
      → Guarded admission target w (serve_target env jwt signer now admission target w)
  unfolding serve_target
  target-Guarded jwt signer now admission healthz w = inl (refl, λ response e. ground arith)
  target-Guarded jwt signer now admission metrics_page w = inl (refl, λ response e. ground arith)
  target-Guarded jwt signer now admission no_route w = inl (refl, λ response e. ground arith)
  target-Guarded jwt signer now admission (login_form customer_id) w =
      inl (refl, λ response e. ground arith)
  target-Guarded jwt signer now admission (orders rq) w = admitted-Guarded admission rq w

  limited-Guarded :
      (verdict : Verdict) (admission : Admission) (target : Target) (next : World → Answer × World)
      (w : World)
      → Guarded admission target w (next w)
      → Guarded admission target w (after_limiter verdict next w)
  unfolding after_limiter
  limited-Guarded (too_many_requests limit remaining retry) admission target next w g =
      inl (refl, λ response e. ground arith)
  limited-Guarded (pass limit remaining) admission target next w g = g
  limited-Guarded pass_unthrottled admission target next w g = g

module _ (env : Env) (jwt : Jwt) (signer : Signer) (round whole_seconds : ℕ → ℕ)
    (s : SlidingWindow) where
  http-other_keys :
      (down : Option String) (now : Time) (identity : String) (redis : Redis) (key : String)
      → str_eq key (key_of round s identity) ≡ false
      → (http round whole_seconds s down now identity redis).1 key ≡ redis key
  unfolding http allow
  http-other_keys (some e) now identity redis key other = ground arith
  http-other_keys none now identity redis key other = ground arith

  -- A request through the router leaves the windows of all identities but its own as they are, whether its
  -- token verifies or not. It changes no table and gets no answer of the order API, or it is a request to
  -- the order API whose bearer token verifies, and it gets the answer and has the effect that the order API
  -- gives this request.
  pub gateway-Guarded :
      (down : Option String) (now : Time) (req : HttpRequest) (redis : Redis) (w : World)
      → let r = gateway env jwt signer round whole_seconds s down now req redis w in
        Guarded env (middleware jwt signer now req.authorization) req.route w (r.0, r.2)
        × ((key : String)
            → str_eq key (key_of round s (identify env none req)) ≡ false
            → r.1 key ≡ redis key)
  unfolding gateway
  gateway-Guarded down now req redis w = (
    limited-Guarded env (http round whole_seconds s down now (identify env none req) redis).0
        (middleware jwt signer now req.authorization) req.route _ w
        (target-Guarded env jwt signer now (middleware jwt signer now req.authorization) req.route
          w),
    http-other_keys down now (identify env none req) redis,
  )

  -- A request to the order API of a customer who is logged in is not throttled if it has no header X-Customer-Id, however
  -- full the windows are: it gets the answer of the order API, and no window counts it.
  pub no_header_unthrottled :
      (down : Option String) (now : Time) (req : HttpRequest) (redis : Redis) (w : World)
      (claims : Claims) (rq : Request)
      → req.route ≡ orders rq
      → req.x_customer_id ≡ ""
      → middleware jwt signer now req.authorization ≡ admitted claims
      → let r = gateway env jwt signer round whole_seconds s down now req redis w in
        (r.0 ≡ answered (serve env rq w).0) × (r.1 ≡ redis)
  unfolding gateway http after_limiter serve_target serve_admitted
  no_header_unthrottled down now req redis w claims rq routed no_header logged_in =
      rw (identify-no_header env req no_header, logged_in, routed) (refl, refl)
