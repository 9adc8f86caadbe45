-- ===== src/Gateway.antt =====
-- The router of cmd/order-service/main.go: the limiter is a middleware of the whole router and runs first,
-- the authentication one of the group that holds the routes of the order API. Request ids, the metrics and
-- the timeout bear on neither.
pub mod Guarded
pub mod Sessions
use rush_delivery_engine.Prelude.{
  ℕ, Bool, true, false, not, ◌||◌, Option, none, some, String, str_eq, if◌then◌else◌,
}
use rush_delivery_engine.Platform.{Uuid, Time, Env}
use rush_delivery_engine.Store.{World}
use rush_delivery_engine.Order.Handler.{Request, Response, serve}
use rush_delivery_engine.Auth.{
  Claims, Jwt, Signer, Admission, admitted, unauthorized, middleware, LoginReply, login,
}
use rush_delivery_engine.RateLimit.{
  SlidingWindow, Redis, Verdict, pass_unthrottled, pass, too_many_requests, http,
}

-- What chi finds for the method and the path; a login comes with the customer of its body, if it decodes.
pub data Target : Type 0 where
  healthz metrics_page no_route : Target
  login_form : Option Uuid → Target
  orders : Request → Target

pub record HttpRequest : Type 0 where
  pub method : String
  pub path : String
  pub authorization : String
  pub x_customer_id : String
  pub route : Target

-- The claims, which a request has once the authentication has put them in its context, else the header.
identity_of : Env → Option Claims → String → String
identity_of env none header = header
identity_of env (some claims) header = env.uuid_text claims.customer_id

-- The function that the limiter identifies a request by.
unfoldable pub identify : Env → Option Claims → HttpRequest → String
unfolding identity_of
identify env context req =
    if not (str_eq req.method "POST") || not (str_eq req.path "/api/v1/orders")
    then ""
    else identity_of env context req.x_customer_id

pub data Answer : Type 0 where
  throttled : ℕ → ℕ → ℕ → Answer
  refused : String → Answer
  answered : Response → Answer
  alive exposed unrouted : Answer
  login_answer : LoginReply → Answer

unfoldable pub serve_admitted : Env → Admission → Request → World → Answer × World
serve_admitted env (unauthorized text) rq w = (refused text, w)
serve_admitted env (admitted claims) rq w =
    let (response, w') = serve env rq w in (answered response, w')

unfoldable pub serve_target :
    Env → Jwt → Signer → Time → Admission → Target → World → Answer × World
unfolding serve_admitted
serve_target env jwt signer now admission healthz w = (alive, w)
serve_target env jwt signer now admission metrics_page w = (exposed, w)
serve_target env jwt signer now admission no_route w = (unrouted, w)
serve_target env jwt signer now admission (login_form customer_id) w =
    (login_answer (login jwt signer now customer_id), w)
serve_target env jwt signer now admission (orders rq) w = serve_admitted env admission rq w

after_limiter : Verdict → (World → Answer × World) → World → Answer × World
after_limiter (too_many_requests limit remaining retry) next w =
    (throttled limit remaining retry, w)
after_limiter (pass limit remaining) next w = next w
after_limiter pass_unthrottled next w = next w

module _ (env : Env) (jwt : Jwt) (signer : Signer) (round whole_seconds : ℕ → ℕ)
    (s : SlidingWindow) where
  -- A request at the time `now`; `down` is the error of Redis, if it reports one. No claims are in the
  -- context yet when the limiter runs.
  unfoldable pub gateway :
      Option String → Time → HttpRequest → Redis → World → Answer × Redis × World
  unfolding after_limiter serve_target identify
  gateway down now req redis w =
      let (verdict, redis') = http round whole_seconds s down now (identify env none req) redis in
      let admission = middleware jwt signer now req.authorization in
      let (answer, w') =
        after_limiter verdict (serve_target env jwt signer now admission req.route) w in
      (answer, redis', w')
