-- ===== src/Assignment/Consumer/Decoding.antt =====
-- What the assignment service reads in an `order.placed` message, and how it answers it.
use rush_delivery_engine.Prelude.{◌≡◌, some}
use rush_delivery_engine.Platform.{Env, IsCodec}
use rush_delivery_engine.Wire.{json}
use rush_delivery_engine.Order.Model.{OrderPlacedEvent}
use rush_delivery_engine.Order.Repository.{encode_placed}
use rush_delivery_engine.Assignment.Consumer.{decode_placed}

-- The assignment service reads back the `order.placed` event that the order service wrote, where UUIDs
-- and times read back as printed.
pub decode-encode :
    (env : Env) (codec : IsCodec env) (e : OrderPlacedEvent)
    → decode_placed env (json (encode_placed env e)) ≡ some e
unfolding decode_placed
decode-encode env codec e = simp (codec.uuid_back, codec.time_back)
