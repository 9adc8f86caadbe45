-- ===== src/Assignment/Model.antt =====
-- internal/assignment/model.go, and the JSON of the events of the assignment service.
use rush_delivery_engine.Prelude.{String, [], ◌∷◌}
use rush_delivery_engine.Platform.{Uuid, Time, Env}
use rush_delivery_engine.Wire.{Object, str}

pub record OrderAssignedEvent : Type 0 where
  pub order_id : Uuid
  pub rider_id : Uuid
  pub assigned_at : Time

abbrev pub encode_assigned : Env → OrderAssignedEvent → Object
encode_assigned env e =
    ("order_id", str (env.uuid_text e.order_id))
    ∷ ("rider_id", str (env.uuid_text e.rider_id))
    ∷ ("assigned_at", str (env.time_text e.assigned_at))
    ∷ []

-- `noRiderEvent` of service.go
pub record NoRiderEvent : Type 0 where
  pub order_id : Uuid
  pub status : String
  pub reason : String
  pub changed_at : Time

abbrev pub encode_no_rider : Env → NoRiderEvent → Object
encode_no_rider env e =
    ("order_id", str (env.uuid_text e.order_id))
    ∷ ("status", str e.status)
    ∷ ("reason", str e.reason)
    ∷ ("changed_at", str (env.time_text e.changed_at))
    ∷ []
