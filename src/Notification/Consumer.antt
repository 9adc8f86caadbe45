-- ===== src/Notification/Consumer.antt =====
-- internal/notification/consumer.go: what each Kafka message has the hub broadcast. A payload that does
-- not decode is logged and broadcasts nothing; no handler reports an error.
pub mod Pushes
use rush_delivery_engine.Prelude.{ℕ, Option, none, some, String, List, [], ◌∷◌}
use rush_delivery_engine.Platform.{Uuid, Time, Env}
use rush_delivery_engine.Wire.{
  str, num, Object, Body, json, not_json, Value, get_member, uuid_field, time_field, text_field,
  ◌>>=◌,
}
use rush_delivery_engine.Assignment.Model.{OrderAssignedEvent}
use rush_delivery_engine.Notification.Model.{OutMsg, Push}
use rush_delivery_engine.Eta.{EtaUpdatedEvent, decode_location}
use rush_delivery_engine.Location.{RiderLocationUpdatedEvent}

unfoldable pub decode_assigned : Env → Object → Option OrderAssignedEvent
decode_assigned env o = do
  order_id ← uuid_field env "order_id" o
  rider_id ← uuid_field env "rider_id" o
  assigned_at ← time_field env "assigned_at" o
  some (record { order_id = order_id; rider_id = rider_id; assigned_at = assigned_at })

-- `OrderAssignedHandler`
unfoldable pub order_assigned_handler : Env → Body → Option Push
unfolding decode_assigned
order_assigned_handler env (not_json text) = none
order_assigned_handler env (json o) = do
  evt ← decode_assigned env o
  some (
    evt.order_id,
    record {
      type_ = "order_assigned";
      payload =
          ("order_id", str (env.uuid_text evt.order_id))
          ∷ ("rider_id", str (env.uuid_text evt.rider_id))
          ∷ ("assigned_at", str (env.time_text evt.assigned_at))
          ∷ [];
    },
  )

-- `OrderStatusHandler`, at the time `now`.
unfoldable pub order_status_handler : Env → Time → Body → Option Push
order_status_handler env now (not_json text) = none
order_status_handler env now (json o) = do
  order_id ← uuid_field env "order_id" o
  status ← text_field "status" o
  some (
    order_id,
    record {
      type_ = "order_status_changed";
      payload =
          ("order_id", str (env.uuid_text order_id))
          ∷ ("status", str status)
          ∷ ("changed_at", str (env.time_text now))
          ∷ [];
    },
  )

-- A field of type `int`.
abbrev pub as_int : Env → Option Value → Option ℕ
as_int env none = some 0
as_int env (some (str s)) = none
as_int env (some (num f)) = env.float.as_int f

unfoldable pub decode_eta : Env → Object → Option EtaUpdatedEvent
decode_eta env o = do
  order_id ← uuid_field env "order_id" o
  rider_id ← uuid_field env "rider_id" o
  eta_minutes ← as_int env (get_member "eta_minutes" o)
  computed_at ← time_field env "computed_at" o
  some (record {
    order_id = order_id;
    rider_id = rider_id;
    eta_minutes = eta_minutes;
    computed_at = computed_at;
  })

-- `ETAHandler`
unfoldable pub eta_handler : Env → Body → Option Push
unfolding decode_eta
eta_handler env (not_json text) = none
eta_handler env (json o) = do
  evt ← decode_eta env o
  some (
    evt.order_id,
    record {
      type_ = "eta_updated";
      payload =
          ("order_id", str (env.uuid_text evt.order_id))
          ∷ ("eta_minutes", num (env.float.of_int evt.eta_minutes))
          ∷ ("computed_at", str (env.time_text evt.computed_at))
          ∷ [];
    },
  )

-- `LocationHandler`, with the lookup of the rider's order, which may fail.
unfoldable pub location_handler : Env → (Uuid → Option Uuid) → Body → Option Push
location_handler env locate_order body = do
  evt ← decode_location env body
  order_id ← locate_order evt.rider_id
  some (
    order_id,
    record {
      type_ = "rider_location";
      payload =
          ("lat", num evt.lat)
          ∷ ("lng", num evt.lng)
          ∷ ("timestamp", str (env.time_text evt.timestamp))
          ∷ [];
    },
  )
