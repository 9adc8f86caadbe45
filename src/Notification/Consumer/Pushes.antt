-- ===== src/Notification/Consumer/Pushes.antt =====
-- The events of the other services, as internal/notification/consumer.go passes them on.
use rush_delivery_engine.Prelude.{◌≡◌, Option, some, [], ◌∷◌}
use rush_delivery_engine.Platform.{Uuid, Time, Env, IsCodec}
use rush_delivery_engine.Wire.{json, str, num, ◌>>=◌}
use rush_delivery_engine.Order.Model.{Status}
use rush_delivery_engine.Order.Repository.{encode_status}
use rush_delivery_engine.Assignment.Model.{
  OrderAssignedEvent, encode_assigned, NoRiderEvent, encode_no_rider,
}
use rush_delivery_engine.Location.{RiderLocationUpdatedEvent, encode_location}
use rush_delivery_engine.Eta.{EtaUpdatedEvent, encode_eta, decode_location}
use rush_delivery_engine.Notification.Consumer.{
  order_assigned_handler, decode_assigned, order_status_handler, eta_handler, decode_eta,
  location_handler,
}

module _ (env : Env) (codec : IsCodec env) where
  -- Where UUIDs and times read back as printed: An `order.assigned` event of the assignment
  -- service is pushed to its order, field by field.
  pub assigned_push :
      (e : OrderAssignedEvent)
      → order_assigned_handler env (json (encode_assigned env e))
        ≡ some (e.order_id, record { type_ = "order_assigned"; payload = encode_assigned env e })
  unfolding order_assigned_handler decode_assigned
  assigned_push e = simp (codec.uuid_back, codec.time_back)

  -- Where UUIDs and times read back as printed: A status event of the order service, and the
  -- cancellation of the assignment service, are pushed to their order with their status; the time
  -- is that of the push, and the reason is left out.
  pub status_push :
      (id : Uuid) (to : Status) (now changed : Time) (e : NoRiderEvent)
      → (order_status_handler env now (json (encode_status env id to changed))
          ≡ some (
            id,
            record { type_ = "order_status_changed"; payload = encode_status env id to now },
          ))
        × (order_status_handler env now (json (encode_no_rider env e))
            ≡ some (
              e.order_id,
              record {
                type_ = "order_status_changed";
                payload =
                    ("order_id", str (env.uuid_text e.order_id))
                    ∷ ("status", str e.status)
                    ∷ ("changed_at", str (env.time_text now))
                    ∷ [];
              },
            ))
  unfolding order_status_handler
  status_push id to now changed e = (simp codec.uuid_back, simp codec.uuid_back)

  -- Where UUIDs and times read back as printed, and the number of minutes from the double that it
  -- is written as: an `eta.updated` event is pushed to its order with its minutes.
  pub eta_push :
      (e : EtaUpdatedEvent)
      → env.float.as_int (env.float.of_int e.eta_minutes) ≡ some e.eta_minutes
      → eta_handler env (json (encode_eta env e))
        ≡ some (
          e.order_id,
          record {
            type_ = "eta_updated";
            payload =
                ("order_id", str (env.uuid_text e.order_id))
                ∷ ("eta_minutes", num (env.float.of_int e.eta_minutes))
                ∷ ("computed_at", str (env.time_text e.computed_at))
                ∷ [];
          },
        )
  unfolding eta_handler decode_eta
  eta_push e back = simp (codec.uuid_back, codec.time_back, back)

  -- Where UUIDs and times read back as printed: a `rider.location.updated` event is pushed to the
  -- order that the lookup finds for the rider, and to none where it finds none.
  pub location_push :
      (locate_order : Uuid → Option Uuid) (e : RiderLocationUpdatedEvent)
      → location_handler env locate_order (json (encode_location env e))
        ≡ locate_order e.rider_id >>= λ id. some (
          id,
          record {
            type_ = "rider_location";
            payload =
                ("lat", num e.lat)
                ∷ ("lng", num e.lng)
                ∷ ("timestamp", str (env.time_text e.timestamp))
                ∷ [];
          },
        )
  unfolding location_handler decode_location
  location_push locate_order e = simp (codec.uuid_back, codec.time_back)
