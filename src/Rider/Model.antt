-- ===== src/Rider/Model.antt =====
-- internal/rider/model.go.
use rush_delivery_engine.Prelude.{String, Bool, true, false, Option}
use rush_delivery_engine.Platform.{Uuid, Float, Time}

-- `Status` is a Go string: the three constants, and any other text.
pub data Status : Type 0 where
  offline available busy : Status
  other : String → Status

unfoldable pub is_valid : Status → Bool
is_valid offline = true
is_valid available = true
is_valid busy = true
is_valid (other s) = false

pub record Rider : Type 0 where
  pub id : Uuid
  pub name : String
  pub phone : String
  pub status : Status
  pub created_at : Time
  pub updated_at : Time

pub record RegisterRequest : Type 0 where
  pub name : String
  pub phone : String

pub record SetStatusRequest : Type 0 where
  pub status : Status
  pub lat : Option Float
  pub lng : Option Float
