-- ===== src/Eta.antt =====
-- internal/eta: calculator.go, model.go, service.go and consumer.go.
pub mod Growth
pub mod Updates
use rush_delivery_engine.Prelude.{
  ℕ, Bool, true, false, Option, none, some, String, List, [], ◌∷◌, update_where, if◌then◌else◌,
}
use rush_delivery_engine.Platform.{Uuid, Float, Time, FloatOps, Env}
use rush_delivery_engine.Wire.{
  str, num, Object, Body, json, not_json, Message, uuid_field, time_field, float_field, ◌>>=◌,
}
use rush_delivery_engine.Kafka.Topics.{topic_eta_updated}
use rush_delivery_engine.Kafka.Producer.{publish}
use rush_delivery_engine.Store.Errors.{Error, no_rows, Result, ok, err, root}
use rush_delivery_engine.Store.{World, Action, ◌>>◌}
use rush_delivery_engine.Store.Tx.{call, writing}
use rush_delivery_engine.Geo.{haversine_km}
use rush_delivery_engine.Order.Model.{Status, picked_up, Order}
use rush_delivery_engine.Order.Repository.{has_id}
use rush_delivery_engine.Rider.Repository.{latest_active}
use rush_delivery_engine.Location.{RiderLocationUpdatedEvent}

-- `Compute`
unfoldable pub compute : FloatOps → Float → Float → Float → Float → ℕ
compute f from_lat from_lng to_lat to_lng =
    let km = haversine_km f from_lat from_lng to_lat to_lng in
    let hours = f.div km (f.of_int 25) in
    let mins = f.mul hours (f.of_int 60) in
    if f.lt mins (f.of_int 1) then 1 else f.to_int (f.ceil mins)

pub record EtaUpdatedEvent : Type 0 where
  pub order_id : Uuid
  pub rider_id : Uuid
  pub eta_minutes : ℕ
  pub computed_at : Time

abbrev pub encode_eta : Env → EtaUpdatedEvent → Object
encode_eta env e =
    ("order_id", str (env.uuid_text e.order_id))
    ∷ ("rider_id", str (env.uuid_text e.rider_id))
    ∷ ("eta_minutes", num (env.float.of_int e.eta_minutes))
    ∷ ("computed_at", str (env.time_text e.computed_at))
    ∷ []

abbrev pub is_picked_up : Status → Bool
is_picked_up picked_up = true
is_picked_up _ = false

-- The place the rider heads for.
abbrev pub target : Order → Float × Float
target o =
    if is_picked_up o.status then (o.dropoff_lat, o.dropoff_lng) else (o.pickup_lat, o.pickup_lng)

abbrev pub minutes_to : FloatOps → RiderLocationUpdatedEvent → Order → ℕ
minutes_to f evt o = let (lat, lng) = target o in compute f evt.lat evt.lng lat lng

-- `UPDATE orders SET eta_minutes = $1, updated_at = NOW() WHERE id = $2`
pub set_eta : Env → Uuid → ℕ → Action (Unit {0})
unfolding call
set_eta env id mins = call env (
    writing λ w. record w {
      db = record w.db {
        orders =
            update_where (has_id id)
              (λ o. record o { eta_minutes = some mins; updated_at = env.now w.calls }) w.db.orders;
      };
    })

announce : Env → RiderLocationUpdatedEvent → Order → Action (Unit {0})
announce env evt o w =
    publish env topic_eta_updated (env.uuid_text o.id)
      (encode_eta env (record {
        order_id = o.id;
        rider_id = evt.rider_id;
        eta_minutes = minutes_to env.float evt o;
        computed_at = env.now w.calls;
      }))
      w

store_eta : Env → RiderLocationUpdatedEvent → Order → Action (Unit {0})
unfolding set_eta announce
store_eta env evt o = set_eta env o.id (minutes_to env.float evt o) >> announce env evt o

-- `ErrNoRows` is no error here.
unless_none : Error → Error → Result (Unit {0})
unless_none no_rows e = ok tt
unless_none _ e = err e

with_active : Env → RiderLocationUpdatedEvent → Result Order → Action (Unit {0})
unfolding unless_none store_eta root
with_active env evt (err e) w = (unless_none (root e) e, w)
with_active env evt (ok o) w = store_eta env evt o w

-- `OnLocation`; the query is the one of the rider service.
unfoldable pub on_location : Env → RiderLocationUpdatedEvent → Action (Unit {0})
unfolding with_active
on_location env evt w =
    let (active, w') = latest_active env evt.rider_id w in with_active env evt active w'

-- `json.Unmarshal` into a `RiderLocationUpdatedEvent`.
unfoldable pub decode_location : Env → Body → Option RiderLocationUpdatedEvent
decode_location env (not_json text) = none
decode_location env (json o) = do
  rider_id ← uuid_field env "rider_id" o
  lat ← float_field "lat" o
  lng ← float_field "lng" o
  timestamp ← time_field env "timestamp" o
  some (record { rider_id = rider_id; lat = lat; lng = lng; timestamp = timestamp })

unfoldable pub handle : Env → Message → Action (Unit {0})
unfolding decode_location
handle env msg w = elim (decode_location env msg.value) [
  | none ↦ (ok tt, w)
  | some evt ↦ on_location env evt w
]
