-- ===== src/Assignment/Consumer.antt =====
-- internal/assignment/consumer.go.
pub mod Decoding
pub mod Delivery
use rush_delivery_engine.Prelude.{Option, none, some}
use rush_delivery_engine.Platform.{Env}
use rush_delivery_engine.Wire.{
  Body, json, not_json, Object, Message, uuid_field, time_field, float_field, ◌>>=◌,
}
use rush_delivery_engine.Store.Errors.{Error, Result, ok, err, no_rider_available, root}
use rush_delivery_engine.Store.{Action, World}
use rush_delivery_engine.Order.Model.{OrderPlacedEvent}
use rush_delivery_engine.Assignment.Service.{assign}

-- `json.Unmarshal` into an `OrderPlacedEvent`.
unfoldable pub decode_placed : Env → Body → Option OrderPlacedEvent
decode_placed env (not_json text) = none
decode_placed env (json o) = do
  order_id ← uuid_field env "order_id" o
  customer_id ← uuid_field env "customer_id" o
  restaurant_id ← uuid_field env "restaurant_id" o
  pickup_lat ← float_field "pickup_lat" o
  pickup_lng ← float_field "pickup_lng" o
  dropoff_lat ← float_field "dropoff_lat" o
  dropoff_lng ← float_field "dropoff_lng" o
  placed_at ← time_field env "placed_at" o
  some (record {
    order_id = order_id;
    customer_id = customer_id;
    restaurant_id = restaurant_id;
    pickup_lat = pickup_lat;
    pickup_lng = pickup_lng;
    dropoff_lat = dropoff_lat;
    dropoff_lng = dropoff_lng;
    placed_at = placed_at;
  })

-- No rider is an outcome that is committed; any other error has the message delivered again.
abbrev unless_no_rider : Error → Error → Result (Unit {0})
unless_no_rider no_rider_available e = ok tt
unless_no_rider _ e = err e

abbrev committed : Result (Unit {0}) → Result (Unit {0})
committed (ok _) = ok tt
committed (err e) = unless_no_rider (root e) e

unfoldable pub handle_event : Env → Option OrderPlacedEvent → Action (Unit {0})
unfolding root
handle_event env none w = (ok tt, w)
handle_event env (some evt) w =
    let (r, w') = assign env evt.order_id evt.pickup_lat evt.pickup_lng w in (committed r, w')

unfoldable pub handle : Env → Message → Action (Unit {0})
unfolding handle_event
handle env msg = handle_event env (decode_placed env msg.value)
