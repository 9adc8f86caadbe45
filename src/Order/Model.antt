-- ===== src/Order/Model.antt =====
-- internal/order/model.go.
use Prim.Native.String.{String}
use rush_delivery_engine.Prelude.{ℕ, Option, str_eq, if◌then◌else◌}
use rush_delivery_engine.Platform.{Uuid, Float, Time}

-- `Status` is a Go string: the six constants, and any other text.
pub data Status : Type 0 where
  placed accepted preparing picked_up delivered cancelled : Status
  other : String → Status

pub record Order : Type 0 where
  pub id : Uuid
  pub customer_id : Uuid
  pub rider_id : Option Uuid
  pub restaurant_id : Uuid
  pub status : Status
  pub total_amount : Float
  pub delivery_address : String
  pub pickup_lat : Float
  pub pickup_lng : Float
  pub dropoff_lat : Float
  pub dropoff_lng : Float
  pub eta_minutes : Option ℕ
  pub created_at : Time
  pub updated_at : Time

pub record PlaceOrderRequest : Type 0 where
  pub customer_id : Uuid
  pub restaurant_id : Uuid
  pub total_amount : Float
  pub delivery_address : String
  pub pickup_lat : Float
  pub pickup_lng : Float
  pub dropoff_lat : Float
  pub dropoff_lng : Float

pub record OrderPlacedEvent : Type 0 where
  pub order_id : Uuid
  pub customer_id : Uuid
  pub restaurant_id : Uuid
  pub pickup_lat : Float
  pub pickup_lng : Float
  pub dropoff_lat : Float
  pub dropoff_lng : Float
  pub placed_at : Time

-- The text of a status, as JSON and Postgres hold it.
unfoldable pub status_text : Status → String
status_text placed = "PLACED"
status_text accepted = "ACCEPTED"
status_text preparing = "PREPARING"
status_text picked_up = "PICKED_UP"
status_text delivered = "DELIVERED"
status_text cancelled = "CANCELLED"
status_text (other s) = s

-- The status that a text is.
unfoldable pub parse_status : String → Status
parse_status s =
    if str_eq s "PLACED"
    then placed
    else if str_eq s "ACCEPTED"
    then accepted
    else if str_eq s "PREPARING"
    then preparing
    else if str_eq s "PICKED_UP"
    then picked_up
    else if str_eq s "DELIVERED"
    then delivered
    else if str_eq s "CANCELLED"
    then cancelled
    else other s
