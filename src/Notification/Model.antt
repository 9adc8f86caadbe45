-- ===== src/Notification/Model.antt =====
-- internal/notification/consumer.go: what is sent to a customer.
use rush_delivery_engine.Prelude.{String}
use rush_delivery_engine.Platform.{Uuid}
use rush_delivery_engine.Wire.{Object}

-- `outMsg`
pub record OutMsg : Type 0 where
  pub type_ : String
  pub payload : Object

-- The order that a broadcast is for, and what is sent.
abbrev pub Push : Type 0
Push = Uuid × OutMsg
