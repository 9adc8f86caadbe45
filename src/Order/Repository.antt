-- ===== src/Order/Repository.antt =====
-- internal/order/repository.go. The SQL statements are functions on the tables of Store.antt, with the
-- constraints of migrations/002_create_orders.up.sql.
pub mod Atomicity
pub mod Growth
use Prim.Native.String.{◌++◌ as append}
use rush_delivery_engine.Prelude.{
  ℕ, Bool, true, false, Option, none, some, String, List, [], ◌∷◌, ◌++◌, ◌==◌, find, any,
  update_where, rows_affected, if◌then◌else◌,
}
use rush_delivery_engine.Platform.{Uuid, Float, Env}
use rush_delivery_engine.Wire.{Object, str, num}
use rush_delivery_engine.Kafka.Topics.{topic_order_placed, topic_order_status_updated}
use rush_delivery_engine.Store.Errors.{ok, err, constraint, order_not_found}
use rush_delivery_engine.Store.{
  OrderEvent, World, Action, pure, raise, wrapped, on_no_rows, row_or_none, ◌>>=◌, ◌>>◌,
}
use rush_delivery_engine.Store.Tx.{call, writing, reading, Ending, commit, transaction}
use rush_delivery_engine.Outbox.{write}
use rush_delivery_engine.Order.Model.{
  Status, placed, other, status_text, Order, PlaceOrderRequest, OrderPlacedEvent,
}

-- `orders_status_chk`
abbrev pub is_known : Status → Bool
is_known (other s) = false
is_known _ = true

abbrev pub has_id : Uuid → Order → Bool
has_id id o = o.id == id

abbrev pub new_order : Uuid → ℕ → PlaceOrderRequest → Order
new_order id now req = record {
  id = id;
  customer_id = req.customer_id;
  rider_id = none;
  restaurant_id = req.restaurant_id;
  status = placed;
  total_amount = req.total_amount;
  delivery_address = req.delivery_address;
  pickup_lat = req.pickup_lat;
  pickup_lng = req.pickup_lng;
  dropoff_lat = req.dropoff_lat;
  dropoff_lng = req.dropoff_lng;
  eta_minutes = none;
  created_at = now;
  updated_at = now;
}

store_order : Option Float → Order → Action Order
store_order none o w = (err (constraint "total_amount"), w)
store_order (some cents) o w =
    if any (has_id o.id) w.db.orders then (err (constraint "orders_pkey"), w) else (
      ok o,
      record w {
        db = record w.db { orders = w.db.orders ++ record o { total_amount = cents } ∷ [] };
      },
    )

-- `INSERT INTO orders … RETURNING id, created_at, updated_at`: the column keeps two decimals of the
-- amount, and the struct that is returned keeps them all.
insert_order : Env → PlaceOrderRequest → Action Order
unfolding call store_order
insert_order env req = call env λ w.
    store_order (env.numeric_10_2 req.total_amount)
      (new_order (env.gen_random_uuid w.calls) (env.now w.calls) req) w

-- `INSERT INTO order_events`
unfoldable pub insert_event : Env → Uuid → String → Object → Action (Unit {0})
unfolding call
insert_event env id event_type payload = call env (
    writing λ w. record w { db = record w.db { order_events = w.db.order_events ++ event w ∷ [] } })
  where
    event : World → OrderEvent
    event w = record {
      order_id = id;
      event_type = event_type;
      payload = payload;
      created_at = env.now w.calls;
    }

-- `UPDATE orders SET status = $1, updated_at = NOW() WHERE id = $2`
set_status : Env → Uuid → Status → Action ℕ
unfolding call
set_status env id to = call env λ w.
    let hit = rows_affected (has_id id) w.db.orders in
    if hit == 0
    then (ok 0, w)
    else if is_known to
    then (
      ok hit,
      record w {
        db = record w.db {
          orders =
              update_where (has_id id) (λ o. record o { status = to; updated_at = env.now w.calls })
                w.db.orders;
        };
      },
    )
    else (err (constraint "orders_status_chk"), w)

abbrev pub clock : Env → Action ℕ
clock env w = (ok (env.now w.calls), w)

abbrev pub placed_event : Order → ℕ → OrderPlacedEvent
placed_event o now = record {
  order_id = o.id;
  customer_id = o.customer_id;
  restaurant_id = o.restaurant_id;
  pickup_lat = o.pickup_lat;
  pickup_lng = o.pickup_lng;
  dropoff_lat = o.dropoff_lat;
  dropoff_lng = o.dropoff_lng;
  placed_at = now;
}

-- `json.Marshal` of an `OrderPlacedEvent`, by its tags.
abbrev pub encode_placed : Env → OrderPlacedEvent → Object
encode_placed env e =
    ("order_id", str (env.uuid_text e.order_id))
    ∷ ("customer_id", str (env.uuid_text e.customer_id))
    ∷ ("restaurant_id", str (env.uuid_text e.restaurant_id))
    ∷ ("pickup_lat", num e.pickup_lat)
    ∷ ("pickup_lng", num e.pickup_lng)
    ∷ ("dropoff_lat", num e.dropoff_lat)
    ∷ ("dropoff_lng", num e.dropoff_lng)
    ∷ ("placed_at", str (env.time_text e.placed_at))
    ∷ []

abbrev pub placed_payload : Env → Order → Object
placed_payload env o =
    ("status", str (status_text o.status))
    ∷ ("total_amount", num o.total_amount)
    ∷ ("restaurant_id", str (env.uuid_text o.restaurant_id))
    ∷ []

create_body : Env → PlaceOrderRequest → Action (Ending Order)
unfolding insert_order insert_event write
create_body env req = do
  o ← wrapped "insert order" (insert_order env req)
  wrapped "insert event" (insert_event env o.id "order.placed" (placed_payload env o))
  now ← clock env
  wrapped "write outbox" (
      write env o.id topic_order_placed (env.uuid_text o.id)
        (encode_placed env (placed_event o now)))
  pure (commit o)

unfoldable pub create : Env → PlaceOrderRequest → Action Order
unfolding create_body transaction
create env req = transaction env (create_body env req)

unfoldable pub get_by_id : Env → Uuid → Action Order
unfolding call
get_by_id env id =
    on_no_rows order_not_found (call env (λ w. row_or_none (find (has_id id) w.db.orders) w))

abbrev pub status_payload : Status → Object
status_payload to = ("status", str (status_text to)) ∷ []

abbrev pub encode_status : Env → Uuid → Status → ℕ → Object
encode_status env id to now =
    ("order_id", str (env.uuid_text id))
    ∷ ("status", str (status_text to))
    ∷ ("changed_at", str (env.time_text now))
    ∷ []

abbrev pub event_of_status : Status → String
event_of_status to = append "order.status." (status_text to)

abbrev or_not_found : ℕ → Action (Unit {0})
or_not_found hit = if hit == 0 then raise order_not_found else pure tt

update_status_body : Env → Uuid → Status → Action (Ending (Unit {0}))
unfolding set_status insert_event write
update_status_body env id to = do
  hit ← set_status env id to
  or_not_found hit
  insert_event env id (event_of_status to) (status_payload to)
  now ← clock env
  wrapped "write outbox"
      (write env id topic_order_status_updated (env.uuid_text id) (encode_status env id to now))
  pure (commit tt)

unfoldable pub update_status : Env → Uuid → Status → Action (Unit {0})
unfolding update_status_body transaction
update_status env id to = transaction env (update_status_body env id to)
