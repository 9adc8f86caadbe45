-- ===== src/Tests/Demo.antt =====
-- A platform whose calls all succeed, one whose calls all fail, and a small state of the services.
use rush_delivery_engine.Prelude.{
  ℕ, ◌+◌, ◌-◌, true, refl, ap, inl, inr, none, some, String, [], ◌∷◌, map, leb, ltb, arith,
}
use rush_delivery_engine.Platform.{FloatOps, GeoMember, Env, IsCodec}
use rush_delivery_engine.Wire.{str, json, Message}
use rush_delivery_engine.Geo.{IsSigned}
use rush_delivery_engine.Store.{World, OrderEvent, OutboxRow}
use rush_delivery_engine.Order.Model.{
  Order, placed, status_text, OrderPlacedEvent, PlaceOrderRequest,
}
use rush_delivery_engine.Order.Repository.{encode_placed}
use rush_delivery_engine.Order.Audit.{IsAudited}
use rush_delivery_engine.Outbox.Relay.NoLoss.{IsSound}
use rush_delivery_engine.Rider.Model.{Rider, available}
use rush_delivery_engine.Tests.Codec.{tally, untally, untally-tally}

abbrev pub floats : FloatOps
floats = record {
  of_int = λ n. n;
  to_int = λ n. n;
  as_int = some;
  neg = λ a. a;
  add = λ a b. a + b;
  sub = λ a b. (a - b) + (b - a);
  mul = λ a b. a + b;
  div = λ a b. a;
  le = leb;
  lt = ltb;
  pi = 3;
  sin = λ a. a;
  cos = λ a. a;
  sqrt = λ a. a;
  atan2 = λ a b. a + b;
  ceil = λ a. a;
}

pub floats-IsSigned : IsSigned floats
floats-IsSigned = record {
  sub_swap = λ a b. inr (omega arith);
  mul-neg = λ a b. refl;
  neg-mul = λ a b. refl;
  neg-neg = λ a. refl;
  neg-div = λ a b. refl;
  sin-neg = λ a. refl;
  mul_comm = λ a b. omega arith;
}

abbrev pub up_env : Env
up_env = record {
  fails = λ n. none;
  now = λ n. 1000 + n;
  gen_random_uuid = λ n. 100 + n;
  trace = ("traceparent", "00-1") ∷ [];
  start_span = λ t. t;
  extract = λ t u. u;
  uuid_text = tally;
  uuid_parse = λ s. some (untally s);
  time_text = tally;
  time_parse = λ s. some (untally s);
  numeric_10_2 = some;
  varchar = λ n s. some s;
  quote = λ s. s;
  geo_accepts = λ lng lat. true;
  geo_search = λ lng lat radius members. map (λ (m : GeoMember). m.name) members;
  float = floats;
}

abbrev pub down_env : Env
down_env = record up_env { fails = λ n. some "timeout" }

pub up_env-IsCodec : IsCodec up_env
up_env-IsCodec = record {
  uuid_back = λ u. ap some (untally-tally u);
  time_back = λ t. ap some (untally-tally t);
}

abbrev pub an_order : Order
an_order = record {
  id = 1;
  customer_id = 2;
  rider_id = none;
  restaurant_id = 3;
  status = placed;
  total_amount = 250;
  delivery_address = "12 Park Street";
  pickup_lat = 90;
  pickup_lng = 180;
  dropoff_lat = 90;
  dropoff_lng = 180;
  eta_minutes = none;
  created_at = 10;
  updated_at = 10;
}

abbrev pub a_request : PlaceOrderRequest
a_request = record {
  customer_id = 2;
  restaurant_id = 3;
  total_amount = 250;
  delivery_address = "12 Park Street";
  pickup_lat = 90;
  pickup_lng = 180;
  dropoff_lat = 90;
  dropoff_lng = 180;
}

abbrev pub a_rider : ℕ → String → Rider
a_rider id phone = record {
  id = id;
  name = "Asha";
  phone = phone;
  status = available;
  created_at = 5;
  updated_at = 5;
}

abbrev pub a_placed_event : OrderPlacedEvent
a_placed_event = record {
  order_id = 1;
  customer_id = 2;
  restaurant_id = 3;
  pickup_lat = 90;
  pickup_lng = 180;
  dropoff_lat = 90;
  dropoff_lng = 180;
  placed_at = 11;
}

abbrev pub a_row : OutboxRow
a_row = record {
  id = 0;
  aggregate_id = 1;
  topic = "order.placed";
  partition_key = tally 1;
  payload = encode_placed up_env a_placed_event;
  trace_context = none;
  created_at = 11;
  sent_at = none;
}

abbrev pub an_event : OrderEvent
an_event = record {
  order_id = 1;
  event_type = "order.placed";
  payload = ("status", str "PLACED") ∷ [];
  created_at = 10;
}

abbrev pub a_placed_message : Message
a_placed_message = record {
  topic = "order.placed";
  key = tally 1;
  value = json (encode_placed up_env a_placed_event);
  headers = [];
}

-- An order that waits for a rider, with its audit event and its outbox row, and two riders at hand.
abbrev pub a_world : World
a_world = record {
  db = record {
    orders = an_order ∷ [];
    riders = a_rider 7 "555-7" ∷ a_rider 8 "555-8" ∷ [];
    order_events = an_event ∷ [];
    outbox = a_row ∷ [];
  };
  geo =
      record { name = tally 7; latitude = 90; longitude = 180 }
      ∷ record { name = tally 8; latitude = 90; longitude = 180 }
      ∷ [];
  log = [];
  metrics = [];
  pushes = [];
  outbox_seq = 1;
  calls = 0;
}

pub a_world-IsAudited : IsAudited a_world.db
unfolding status_text
a_world-IsAudited = (refl, tt)

pub a_world-IsSound : IsSound a_world
a_world-IsSound = record {
  grows = (omega arith, tt);
  below = (omega arith, tt);
  backed = (inl refl, tt);
}
