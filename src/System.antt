-- ===== src/System.antt =====
-- The services together: what each transaction, statement or message of theirs does to the shared state,
-- in any order. A request is the sequence of its own steps, with those of other requests in between.
mod Frame
pub mod Delivery
pub mod Growth
pub mod Life
use rush_delivery_engine.Prelude.{ℕ, ◌≡◌, Option, some, String, Bool, List, [], ◌∷◌, Has, find}
use rush_delivery_engine.Platform.{Uuid, Float, Env}
use rush_delivery_engine.Wire.{Body}
use rush_delivery_engine.Store.{World, OutboxRow}
use rush_delivery_engine.Store.Tx.{tick}
use rush_delivery_engine.Kafka.Producer.{publish_raw}
use rush_delivery_engine.Order.Model.{Status, Order, PlaceOrderRequest}
use rush_delivery_engine.Order.Repository.{has_id}
use rush_delivery_engine.Order.Service.{place, transition_to}
use rush_delivery_engine.Rider.Model as RiderModel
use rush_delivery_engine.Rider.Repository as RiderRepository
use rush_delivery_engine.Rider.Service.{geoadd}
use rush_delivery_engine.Assignment.Service.{claim_rider, mark_cancelled, zrem}
use rush_delivery_engine.Eta.{set_eta}
use rush_delivery_engine.Notification.Model.{Push}
use rush_delivery_engine.Notification.Service.{broadcast}
use rush_delivery_engine.Outbox.Relay.{dispatch}

-- `past` are the states before this one, the latest first: the order that a transition writes was read in
-- any of them. `calls` stands for the queries and for the fetches and commits of the Kafka readers, which
-- change nothing else. Each step has an environment of its own: nothing is assumed of its failures, clock
-- and ids.
pub data Step (past : List World) (w : World) : World → Type 0 where
  places : (env : Env) (req : PlaceOrderRequest) → Step past w (place env req w).1
  transitions :
      (env : Env) (id : Uuid) (to : Status) (u : World) (o : Order)
      → Has u (w ∷ past)
      → find (has_id id) u.db.orders ≡ some o
      → Step past w (transition_to env id to o w).1
  claims :
      (env : Env) (order_id rider_id : Uuid) → Step past w (claim_rider env order_id rider_id w).1
  gives_up :
      (env : Env) (id : Uuid) (reason : String) → Step past w (mark_cancelled env id reason w).1
  registers :
      (env : Env) (req : RiderModel.RegisterRequest)
      → Step past w (RiderRepository.create env req w).1
  sets_status :
      (env : Env) (id : Uuid) (to : RiderModel.Status)
      → Step past w (RiderRepository.set_status env id to w).1
  enters_geo : (env : Env) (id : Uuid) (lat lng : Float) → Step past w (geoadd env id lat lng w).1
  leaves_geo : (env : Env) (name : String) → Step past w (zrem env name w).1
  estimates : (env : Env) (id : Uuid) (mins : ℕ) → Step past w (set_eta env id mins w).1
  publishes :
      (env : Env) (topic key : String) (body : Body)
      → Step past w (publish_raw env topic key body w).1
  tells : (push : Option Push) → Step past w (broadcast push w)
  relays : (env : Env) (locked : OutboxRow → Bool) → Step past w (dispatch env locked w).1
  calls : Step past w (tick w)

-- A run from the first state to the last, with the states on the way.
pub data Reach (w : World) : List World → World → Type 0 where
  start : Reach w [] w
  later : {past : List World} {u v : World} → Reach w past u → Step past u v → Reach w (u ∷ past) v
