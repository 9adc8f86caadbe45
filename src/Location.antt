-- ===== src/Location.antt =====
-- internal/location: model.go, service.go, and the loop of handler.go over the frames of one rider's
-- WebSocket. Deadlines and pings bear on the connection only and are not modelled.
pub mod Acks
use rush_delivery_engine.Prelude.{
  ℕ, Bool, Option, none, some, String, List, [], ◌∷◌, str_eq, if◌then◌else◌,
}
use rush_delivery_engine.Platform.{Uuid, Float, Time, Env}
use rush_delivery_engine.Wire.{Value, str, num, Object, get_field}
use rush_delivery_engine.Kafka.Topics.{topic_rider_location_update}
use rush_delivery_engine.Kafka.Producer.{publish}
use rush_delivery_engine.Store.Errors.{Result, ok, err}
use rush_delivery_engine.Store.{World, Action, ◌>>◌}
use rush_delivery_engine.Rider.Service.{geoadd}

pub record RiderLocationUpdatedEvent : Type 0 where
  pub rider_id : Uuid
  pub lat : Float
  pub lng : Float
  pub timestamp : Time

abbrev pub encode_location : Env → RiderLocationUpdatedEvent → Object
encode_location env e =
    ("rider_id", str (env.uuid_text e.rider_id))
    ∷ ("lat", num e.lat)
    ∷ ("lng", num e.lng)
    ∷ ("timestamp", str (env.time_text e.timestamp))
    ∷ []

unfoldable pub update_location : Env → Uuid → Float → Float → Time → Action (Unit {0})
update_location env rider_id lat lng ts = do
  geoadd env rider_id lat lng
  publish env topic_rider_location_update (env.uuid_text rider_id)
      (encode_location env (record { rider_id = rider_id; lat = lat; lng = lng; timestamp = ts }))

pub record IncomingMessage : Type 0 where
  pub type_ : String
  pub payload : Object

-- `asFloat` of a value of a decoded JSON object.
abbrev pub as_float : Option Value → Option Float
as_float none = none
as_float (some (str s)) = none
as_float (some (num f)) = some f

or_now : Time → Option Time → Time
or_now now none = now
or_now now (some t) = t

abbrev pub timestamp_of : Env → Time → Option Value → Time
unfolding or_now
timestamp_of env now none = now
timestamp_of env now (some (num f)) = now
timestamp_of env now (some (str s)) = or_now now (env.time_parse s)

-- What the handler writes back.
pub data Reply : Type 0 where
  ack : Reply
  ws_error : String → Reply

acknowledge : Result (Unit {0}) → Reply
acknowledge (ok _) = ack
acknowledge (err e) = ws_error "update failed"

update_from : Env → Uuid → Object → Option Float → Option Float → World → Reply × World
unfolding acknowledge
update_from env rider_id payload none lng w = (ws_error "lat/lng required", w)
update_from env rider_id payload (some lat) none w = (ws_error "lat/lng required", w)
update_from env rider_id payload (some lat) (some lng) w =
    let ts = timestamp_of env (env.now w.calls) (get_field "timestamp" payload) in
    let (updated, w') = update_location env rider_id lat lng ts w in (acknowledge updated, w')

-- The body of the loop, for one frame.
unfoldable pub receive : Env → Uuid → IncomingMessage → World → Reply × World
unfolding update_from
receive env rider_id msg w =
    if str_eq msg.type_ "location_update"
    then update_from env rider_id msg.payload (as_float (get_field "lat" msg.payload))
        (as_float (get_field "lng" msg.payload)) w
    else (ws_error "unknown message type", w)

-- The loop over the frames that are read; `none` is a read that fails, which ends it.
unfoldable pub rider_loop : Env → Uuid → List (Option IncomingMessage) → World → List Reply × World
unfolding receive
rider_loop env rider_id [] w = ([], w)
rider_loop env rider_id (none ∷ frames) w = ([], w)
rider_loop env rider_id (some msg ∷ frames) w =
    let (reply, w') = receive env rider_id msg w in
    let (replies, w'') = rider_loop env rider_id frames w' in (reply ∷ replies, w'')

-- How the handler ends, with what it wrote to the connection.
pub data Session : Type 0 where
  bad_request : String → Session
  upgrade_failed : Session
  closed : List Reply → Session

with_conn : Env → Uuid → List (Option IncomingMessage) → Option String → World → Session × World
unfolding rider_loop
with_conn env rider_id frames (some e) w = (upgrade_failed, w)
with_conn env rider_id frames none w =
    let (replies, w') = rider_loop env rider_id frames w in (closed replies, w')

with_id :
    Env → List (Option IncomingMessage) → Option String → Option Uuid → World → Session × World
unfolding with_conn
with_id env frames upgrade none w = (bad_request "invalid rider_id", w)
with_id env frames upgrade (some rider_id) w = with_conn env rider_id frames upgrade w

-- The handler of a rider's WebSocket, with the parameter of its path; `upgrade` is the error of the
-- upgrade, if it fails.
unfoldable pub rider :
    Env → String → Option String → List (Option IncomingMessage) → World → Session × World
unfolding with_id
rider env param upgrade frames w = with_id env frames upgrade (env.uuid_parse param) w
