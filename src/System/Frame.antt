-- ===== src/System/Frame.antt =====
-- The statements of the services that leave the orders alone.
use rush_delivery_engine.Prelude.{◌≡◌, refl, arith, Option, none, some, String}
use rush_delivery_engine.Platform.{Uuid, Env}
use rush_delivery_engine.Wire.{Body}
use rush_delivery_engine.Store.{World}
use rush_delivery_engine.Store.Tx.{call}
use rush_delivery_engine.Rider.Model.{Status, RegisterRequest}
use rush_delivery_engine.Rider.Repository as Repository
use rush_delivery_engine.Assignment.Service.{zrem}
use rush_delivery_engine.Kafka.Producer.{publish_raw}
use rush_delivery_engine.Notification.Model.{Push}
use rush_delivery_engine.Notification.Service.{broadcast}

module _ (env : Env) where
  pub create-orders :
      (req : RegisterRequest) (w : World) → (Repository.create env req w).1.db.orders ≡ w.db.orders
  unfolding Repository.create call
  create-orders req w = ground arith

  pub set_status-orders :
      (id : Uuid) (to : Status) (w : World)
      → (Repository.set_status env id to w).1.db.orders ≡ w.db.orders
  unfolding Repository.set_status Repository.write_status call
  set_status-orders id to w = ground arith

  pub zrem-orders : (name : String) (w : World) → (zrem env name w).1.db.orders ≡ w.db.orders
  unfolding zrem call
  zrem-orders name w = ground arith

  pub publish_raw-orders :
      (topic key : String) (body : Body) (w : World)
      → (publish_raw env topic key body w).1.db.orders ≡ w.db.orders
  unfolding publish_raw call
  publish_raw-orders topic key body w = ground arith

pub broadcast-orders : (push : Option Push) (w : World) → (broadcast push w).db.orders ≡ w.db.orders
broadcast-orders none w = refl
broadcast-orders (some p) w = refl
