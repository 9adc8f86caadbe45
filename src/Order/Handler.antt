-- ===== src/Order/Handler.antt =====
-- internal/order/handler.go and auth_handler.go. A request body is given by what `json.Decode` makes of
-- it: `none` where it reports an error.
pub mod Responses
use rush_delivery_engine.Prelude.{
  ℕ, Bool, true, false, Option, none, some, String, List, str_eq, if◌then◌else◌,
}
use rush_delivery_engine.Platform.{Uuid, Env}
use rush_delivery_engine.Store.Errors.{
  Error, Result, ok, err, order_not_found, invalid_request, root, error_text,
}
use rush_delivery_engine.Store.{World, Action}
use rush_delivery_engine.Order.Model.{Order, PlaceOrderRequest, parse_status}
use rush_delivery_engine.Order.Service.{place, get, transition, cancel}

pub data Reply : Type 0 where
  order_reply : Order → Reply
  error_reply : String → Reply

pub record Response : Type 0 where
  pub code : ℕ
  pub reply : Reply

-- `writeJSON` and `writeErr`
abbrev pub write_json : ℕ → Order → Response
write_json code o = record { code = code; reply = order_reply o }

abbrev pub write_err : ℕ → String → Response
write_err code text = record { code = code; reply = error_reply text }

abbrev pub is_invalid_request : Error → Bool
is_invalid_request invalid_request = true
is_invalid_request _ = false

abbrev pub is_not_found : Error → Bool
is_not_found order_not_found = true
is_not_found _ = false

-- Runs a service method and answers with its result.
abbrev pub answer : (Result Order → Response) → Action Order → World → Response × World
answer respond m w = let (r, w') = m w in (respond r, w')

respond_place : Result Order → Response
unfolding root error_text
respond_place (ok o) = write_json 201 o
respond_place (err e) =
    if is_invalid_request (root e)
    then write_err 400 (error_text e)
    else write_err 500 "internal error"

respond_get : Result Order → Response
unfolding root
respond_get (ok o) = write_json 200 o
respond_get (err e) =
    if is_not_found (root e)
    then write_err 404 "order not found"
    else write_err 500 "internal error"

respond_update : Result Order → Response
unfolding root error_text
respond_update (ok o) = write_json 200 o
respond_update (err e) =
    if is_not_found (root e) then write_err 404 "order not found" else write_err 409 (error_text e)

respond_cancel : Result Order → Response
unfolding root error_text
respond_cancel (ok o) = write_json 200 o
respond_cancel (err e) =
    if is_not_found (root e)
    then write_err 404 "order not found"
    else if is_invalid_request (root e)
    then write_err 400 (error_text e)
    else write_err 409 (error_text e)

unfoldable pub handle_place : Env → Option PlaceOrderRequest → World → Response × World
unfolding respond_place
handle_place env none w = (write_err 400 "invalid json", w)
handle_place env (some req) w = answer respond_place (place env req) w

with_id : Option Uuid → (Uuid → World → Response × World) → World → Response × World
with_id none f w = (write_err 400 "invalid id", w)
with_id (some id) f w = f id w

unfoldable pub handle_get : Env → String → World → Response × World
unfolding respond_get with_id
handle_get env param = with_id (env.uuid_parse param) (λ id. answer respond_get (get env id))

update_with : Env → Option String → Uuid → World → Response × World
unfolding respond_update
update_with env none id w = (write_err 400 "status required", w)
update_with env (some text) id w =
    if str_eq text ""
    then (write_err 400 "status required", w)
    else answer respond_update (transition env id (parse_status text)) w

-- `body` is the status field, "" where it is missing.
unfoldable pub handle_update_status : Env → String → Option String → World → Response × World
unfolding update_with with_id
handle_update_status env param body = with_id (env.uuid_parse param) (update_with env body)

unfoldable pub handle_cancel : Env → String → World → Response × World
unfolding respond_cancel with_id
handle_cancel env param =
    with_id (env.uuid_parse param) (λ id. answer respond_cancel (cancel env id))

-- The requests that `Routes` mounts under /api/v1/orders.
pub data Request : Type 0 where
  post : Option PlaceOrderRequest → Request
  fetch : String → Request
  patch_cancel : String → Request
  patch_status : String → Option String → Request

unfoldable pub serve : Env → Request → World → Response × World
serve env (post body) = handle_place env body
serve env (fetch param) = handle_get env param
serve env (patch_cancel param) = handle_cancel env param
serve env (patch_status param body) = handle_update_status env param body
