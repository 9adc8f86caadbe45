-- ===== src/Rider/Handler.antt =====
-- internal/rider/handler.go. A request body is given by what `json.Decode` makes of it: `none` where it
-- reports an error.
pub mod Responses
use rush_delivery_engine.Prelude.{ℕ, Bool, true, false, Option, none, some, String, if◌then◌else◌}
use rush_delivery_engine.Platform.{Uuid, Env}
use rush_delivery_engine.Store.Errors.{
  Error, Result, ok, err, rider_not_found, rider_invalid_request, root, error_text,
}
use rush_delivery_engine.Store.{World, Action}
use rush_delivery_engine.Order.Model as OrderModel
use rush_delivery_engine.Rider.Model.{Rider, RegisterRequest, SetStatusRequest}
use rush_delivery_engine.Rider.Service.{register, change_status, get_active_order}

pub data Reply : Type 0 where
  rider_reply : Rider → Reply
  active_reply : Uuid → OrderModel.Status → Reply
  error_reply : String → Reply

pub record Response : Type 0 where
  pub code : ℕ
  pub reply : Reply

abbrev write_err : ℕ → String → Response
write_err code text = record { code = code; reply = error_reply text }

abbrev is_invalid_request : Error → Bool
is_invalid_request rider_invalid_request = true
is_invalid_request _ = false

abbrev is_not_found : Error → Bool
is_not_found rider_not_found = true
is_not_found _ = false

abbrev answer : {A : Type 0} → (Result A → Response) → Action A → World → Response × World
answer respond m w = let (r, w') = m w in (respond r, w')

respond_register : Result Rider → Response
unfolding root error_text
respond_register (ok r) = record { code = 201; reply = rider_reply r }
respond_register (err e) =
    if is_invalid_request (root e)
    then write_err 400 (error_text e)
    else write_err 500 "internal error"

respond_status : Result Rider → Response
unfolding root error_text
respond_status (ok r) = record { code = 200; reply = rider_reply r }
respond_status (err e) =
    if is_not_found (root e)
    then write_err 404 "rider not found"
    else if is_invalid_request (root e)
    then write_err 400 (error_text e)
    else write_err 500 "internal error"

respond_active : Result (Uuid × OrderModel.Status) → Response
unfolding root
respond_active (ok (id, status)) = record { code = 200; reply = active_reply id status }
respond_active (err e) =
    if is_not_found (root e)
    then write_err 404 "no active order"
    else write_err 500 "internal error"

unfoldable pub handle_register : Env → Option RegisterRequest → World → Response × World
unfolding respond_register
handle_register env none w = (write_err 400 "invalid json", w)
handle_register env (some req) w = answer respond_register (register env req) w

status_with : Env → Option SetStatusRequest → Uuid → World → Response × World
unfolding respond_status
status_with env none id w = (write_err 400 "invalid json", w)
status_with env (some req) id w = answer respond_status (change_status env id req) w

with_id : Option Uuid → (Uuid → World → Response × World) → World → Response × World
with_id none f w = (write_err 400 "invalid id", w)
with_id (some id) f w = f id w

unfoldable pub handle_set_status : Env → String → Option SetStatusRequest → World → Response × World
unfolding status_with with_id
handle_set_status env param body = with_id (env.uuid_parse param) (status_with env body)

unfoldable pub handle_active_order : Env → String → World → Response × World
unfolding respond_active with_id
handle_active_order env param =
    with_id (env.uuid_parse param) (λ id. answer respond_active (get_active_order env id))

-- The routes under /api/v1/riders; `param` is the id in the path.
pub data Request : Type 0 where
  post : (body : Option RegisterRequest) → Request
  patch_status : (param : String) (body : Option SetStatusRequest) → Request
  get_order : (param : String) → Request

unfoldable pub handle_request : Env → Request → World → Response × World
handle_request env (post body) = handle_register env body
handle_request env (patch_status param body) = handle_set_status env param body
handle_request env (get_order param) = handle_active_order env param
