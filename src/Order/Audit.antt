-- ===== src/Order/Audit.antt =====
-- The audit log `order_events` against the statuses of the orders table.
pub mod Laws
use rush_delivery_engine.Prelude.{◌≡◌, Option, none, some, List, [], ◌∷◌, ◌==◌, All, if◌then◌else◌}
use rush_delivery_engine.Platform.{Uuid}
use rush_delivery_engine.Wire.{Value, str, get_field}
use rush_delivery_engine.Store.{OrderEvent, Db}
use rush_delivery_engine.Order.Model.{Order, status_text}

abbrev or_else : Option Value → Option Value → Option Value
or_else none earlier = earlier
or_else (some v) earlier = some v

-- The status of the order `id` after an event; some events, such as `order.assigned`, record none.
abbrev pub note : Uuid → Option Value → OrderEvent → Option Value
note id last e = if e.order_id == id then or_else (get_field "status" e.payload) last else last

abbrev pub replay : Uuid → Option Value → List OrderEvent → Option Value
replay id last [] = last
replay id last (e ∷ es) = replay id (note id last e) es

-- Replaying the audit log gives each order the status that it has.
abbrev pub IsAudited : Db → Type 0
IsAudited db =
    All (λ (o : Order). replay o.id none db.order_events ≡ some (str (status_text o.status)))
      db.orders
