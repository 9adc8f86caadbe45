-- ===== src/System/Life.antt =====
-- The life of an order under all services.
use rush_delivery_engine.Prelude.{◌≡◌, Option, none, some, List, find}
use rush_delivery_engine.Platform.{Uuid}
use rush_delivery_engine.Order.Model.{Status, Order}
use rush_delivery_engine.Order.StateMachine.Laws.{◌⟶*◌}
use rush_delivery_engine.Order.Repository.{has_id}

-- What became of the order with this id.
abbrev Found : Uuid → Status → List Order → Type 0
Found k from after = (o : Order) × (find (has_id k) after ≡ some o) × (from ⟶* o.status)

-- Every order is still there, further along.
abbrev Follows : List Order → List Order → Type 0
Follows before after =
    (k : Uuid) (o : Order) → find (has_id k) before ≡ some o → Found k o.status after

abbrev or_else : Order → Option Order → Order
or_else p none = p
or_else p (some q) = q
