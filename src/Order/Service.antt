-- ===== src/Order/Service.antt =====
-- internal/order/service.go.
pub mod Growth
pub mod Legality
pub mod Races
use rush_delivery_engine.Prelude.{
  Bool, true, ◌&&◌, ◌||◌, not, String, ◌==◌, leb, str_eq, if◌then◌else◌,
}
use rush_delivery_engine.Platform.{Uuid, Float, Env}
use rush_delivery_engine.Store.Errors.{Result, ok, err, detail, invalid_request}
use rush_delivery_engine.Store.{Action, pure, lift, inc_event, ◌>>=◌, ◌>>◌}
use rush_delivery_engine.Order.Model.{Status, cancelled, Order, PlaceOrderRequest}
use rush_delivery_engine.Order.StateMachine.{validate_transition}
use rush_delivery_engine.Order.Repository.{create, get_by_id, update_status, event_of_status}

unfoldable pub valid_lat_lng : Env → Float → Float → Bool
valid_lat_lng env lat lng =
    le (neg (of_int 90)) lat
    && le lat (of_int 90)
    && le (neg (of_int 180)) lng
    && le lng (of_int 180)
  where
    open env.float use {le, neg, of_int}

abbrev invalid : String → Result (Unit {0})
invalid text = err (detail invalid_request text)

unfoldable pub validate_place : Env → PlaceOrderRequest → Result (Unit {0})
unfolding valid_lat_lng
validate_place env r =
    if r.customer_id == 0
    then invalid "customer_id required"
    else if r.restaurant_id == 0
    then invalid "restaurant_id required"
    else if env.float.le r.total_amount (env.float.of_int 0)
    then invalid "total_amount must be > 0"
    else if str_eq r.delivery_address ""
    then invalid "delivery_address required"
    else if not (valid_lat_lng env r.pickup_lat r.pickup_lng)
        || not (valid_lat_lng env r.dropoff_lat r.dropoff_lng)
    then invalid "invalid coordinates"
    else ok tt

unfoldable pub place : Env → PlaceOrderRequest → Action Order
place env req = do
  lift (validate_place env req)
  o ← create env req
  inc_event "order.placed"
  pure o

unfoldable pub get : Env → Uuid → Action Order
get env id = get_by_id env id

-- `Transition` from its second call on. The order that is returned is the one that was read, with its
-- status set.
pub transition_to : Env → Uuid → Status → Order → Action Order
transition_to env id to o = do
  lift (validate_transition o.status to)
  update_status env id to
  inc_event (event_of_status to)
  pure (record o { status = to })

unfoldable pub transition : Env → Uuid → Status → Action Order
unfolding transition_to
transition env id to = do o ← get_by_id env id; transition_to env id to o

unfoldable pub cancel : Env → Uuid → Action Order
unfolding transition
cancel env id = transition env id cancelled
