-- ===== src/Notification/Service.antt =====
-- cmd/notification-service/main.go: the Kafka handlers of internal/notification/consumer.go over the
-- shared state, the lookup of a rider's order, and the four consumers.
pub mod Reaching
use Prim.Native.String.{◌++◌ as append_text}
use rush_delivery_engine.Prelude.{Option, none, some, String, List, [], ◌∷◌, ◌++◌}
use rush_delivery_engine.Platform.{Uuid, Env}
use rush_delivery_engine.Wire.{Body, Message}
use rush_delivery_engine.Store.Errors.{Error, Result, ok, err}
use rush_delivery_engine.Store.{World, Action, ◌>>=◌, pure}
use rush_delivery_engine.Order.Model.{Order}
use rush_delivery_engine.Rider.Repository.{latest_active}
use rush_delivery_engine.Location.{RiderLocationUpdatedEvent}
use rush_delivery_engine.Eta.{decode_location}
use rush_delivery_engine.Kafka.Topics.{
  topic_order_assigned, topic_order_status_updated, topic_eta_updated, topic_rider_location_update,
}
use rush_delivery_engine.Kafka.Consumer.{Handler}
use rush_delivery_engine.Notification.Model.{Push}
use rush_delivery_engine.Notification.Consumer.{
  order_assigned_handler, order_status_handler, eta_handler, location_handler,
}

-- `hub.Broadcast`, where the handler gets to it.
abbrev pub broadcast : Option Push → World → World
broadcast none w = w
broadcast (some p) w = record w { pushes = w.pushes ++ p ∷ [] }

unfoldable pub on_assigned : Handler
on_assigned env msg w = (ok tt, broadcast (order_assigned_handler env msg.value) w)

unfoldable pub on_status : Handler
on_status env msg w = (ok tt, broadcast (order_status_handler env (env.now w.calls) msg.value) w)

unfoldable pub on_eta : Handler
on_eta env msg w = (ok tt, broadcast (eta_handler env msg.value) w)

-- `newRiderOrderLookup`
unfoldable pub locate_order : Env → Uuid → Action Uuid
locate_order env rider_id = do o ← latest_active env rider_id; pure o.id

abbrev pub found : Result Uuid → Uuid → Option Uuid
found (ok id) rider = some id
found (err e) rider = none

after_decoding : Env → Body → Option RiderLocationUpdatedEvent → Action (Unit {0})
unfolding locate_order
after_decoding env body none w = (ok tt, w)
after_decoding env body (some evt) w =
    let (r, w') = locate_order env evt.rider_id w in
    (ok tt, broadcast (location_handler env (found r) body) w')

unfoldable pub on_rider_location : Handler
unfolding after_decoding
on_rider_location env msg = after_decoding env msg.value (decode_location env msg.value)

-- The topics with the suffixes of their groups, and the handlers, which the loop of `run` pairs.
abbrev pub listeners : List (String × String × Handler)
listeners =
    (topic_order_assigned, ".notify.assigned", on_assigned)
    ∷ (topic_order_status_updated, ".notify.status", on_status)
    ∷ (topic_eta_updated, ".notify.eta", on_eta)
    ∷ (topic_rider_location_update, ".notify.loc", on_rider_location)
    ∷ []
