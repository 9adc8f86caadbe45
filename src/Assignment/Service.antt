-- ===== src/Assignment/Service.antt =====
-- internal/assignment/service.go.
pub mod Growth
pub mod Claims
pub mod Cancellation
pub mod Outcome
pub mod Nearest
use rush_delivery_engine.Prelude.{
  ℕ, Bool, true, false, not, ◌&&◌, Option, none, some, String, List, [], ◌∷◌, ◌==◌, take, select,
  str_eq, update_where, rows_affected, if◌then◌else◌,
}
use rush_delivery_engine.Platform.{Uuid, Float, Env, GeoMember}
use rush_delivery_engine.Wire.{Object, str}
use rush_delivery_engine.Kafka.Topics.{topic_order_assigned, topic_order_status_updated}
use rush_delivery_engine.Store.Errors.{Result, ok, err, no_rider_available}
use rush_delivery_engine.Store.{
  World, Action, continue, pure, raise, wrapped, inc_event, ◌>>=◌, ◌>>◌,
}
use rush_delivery_engine.Store.Tx.{call, reading, writing, Ending, commit, abandon, transaction}
use rush_delivery_engine.Outbox.{write}
use rush_delivery_engine.Order.Model.{Status, placed, cancelled, Order}
use rush_delivery_engine.Order.Repository.{has_id, insert_event, clock}
use rush_delivery_engine.Rider.Model as RiderModel
use rush_delivery_engine.Rider.Model.{Rider, available, busy}
use rush_delivery_engine.Assignment.Model.{
  OrderAssignedEvent, encode_assigned, NoRiderEvent, encode_no_rider,
}

abbrev pub search_radius_km : ℕ
search_radius_km = 25

abbrev pub candidate_limit : ℕ
candidate_limit = 10

-- The members that are UUIDs; the others are skipped.
abbrev pub parse_names : Env → List String → List Uuid
parse_names env [] = []
parse_names env (name ∷ names) = elim (env.uuid_parse name) [
  | none ↦ parse_names env names
  | some id ↦ id ∷ parse_names env names
]

-- `GEOSEARCH … ASC COUNT limit`, parsed.
abbrev pub candidates : Env → Float → Float → ℕ → List GeoMember → List Uuid
candidates env lat lng limit geo =
    parse_names env (take limit (env.geo_search lng lat (env.float.of_int search_radius_km) geo))

unfoldable pub nearest_available_riders : Env → Float → Float → ℕ → Action (List Uuid)
unfolding call
nearest_available_riders env lat lng limit =
    call env (reading (λ w. candidates env lat lng limit w.geo))

abbrev pub is_available : RiderModel.Status → Bool
is_available available = true
is_available _ = false

-- `WHERE id = $1 AND status = 'AVAILABLE'`
abbrev pub is_claimable : Uuid → Rider → Bool
is_claimable id r = r.id == id && is_available r.status

-- `UPDATE riders SET status = 'BUSY', updated_at = NOW() WHERE id = $1 AND status = 'AVAILABLE'`
take_rider : Env → Uuid → Action ℕ
unfolding call
take_rider env id = call env λ w. (
  ok (rows_affected (is_claimable id) w.db.riders),
  record w {
    db = record w.db {
      riders =
          update_where (is_claimable id)
            (λ r. record r { status = busy; updated_at = env.now w.calls }) w.db.riders;
    };
  },
)

-- `UPDATE orders SET rider_id = $1, updated_at = NOW() WHERE id = $2`, whatever the order's status.
attach_rider : Env → Uuid → Uuid → Action (Unit {0})
unfolding call
attach_rider env order_id rider_id = call env (
    writing λ w. record w {
      db = record w.db {
        orders =
            update_where (has_id order_id)
              (λ o. record o { rider_id = some rider_id; updated_at = env.now w.calls })
              w.db.orders;
      };
    })

abbrev pub rider_payload : Env → Uuid → Object
rider_payload env rider_id = ("rider_id", str (env.uuid_text rider_id)) ∷ []

-- `claimRider` once the rider is taken.
record_claim : Env → Uuid → Uuid → Action (Ending Bool)
unfolding attach_rider insert_event write
record_claim env order_id rider_id = do
  attach_rider env order_id rider_id
  insert_event env order_id "order.assigned" (rider_payload env rider_id)
  now ← clock env
  wrapped "write outbox" (
      write env order_id topic_order_assigned (env.uuid_text order_id) (
        encode_assigned env
          (record { order_id = order_id; rider_id = rider_id; assigned_at = now })))
  pure (commit true)

after_take : Env → Uuid → Uuid → ℕ → Action (Ending Bool)
unfolding record_claim
after_take env order_id rider_id hit =
    if hit == 0 then pure (abandon false) else record_claim env order_id rider_id

claim_body : Env → Uuid → Uuid → Action (Ending Bool)
unfolding take_rider after_take
claim_body env order_id rider_id = do
  hit ← take_rider env rider_id
  after_take env order_id rider_id hit

unfoldable pub claim_rider : Env → Uuid → Uuid → Action Bool
unfolding claim_body transaction
claim_rider env order_id rider_id = transaction env (claim_body env order_id rider_id)

abbrev pub is_placed : Status → Bool
is_placed placed = true
is_placed _ = false

abbrev pub is_cancellable : Uuid → Order → Bool
is_cancellable id o = o.id == id && is_placed o.status

-- `UPDATE orders SET status='CANCELLED', updated_at=NOW() WHERE id=$1 AND status='PLACED'`
cancel_placed : Env → Uuid → Action ℕ
unfolding call
cancel_placed env id = call env λ w. (
  ok (rows_affected (is_cancellable id) w.db.orders),
  record w {
    db = record w.db {
      orders =
          update_where (is_cancellable id)
            (λ o. record o { status = cancelled; updated_at = env.now w.calls }) w.db.orders;
    };
  },
)

announce_cancel : Env → Uuid → String → Action (Ending (Unit {0}))
unfolding write
announce_cancel env id reason = do
  now ← clock env
  wrapped "write outbox" (
      write env id topic_order_status_updated (env.uuid_text id) (
        encode_no_rider env
          (record { order_id = id; status = "CANCELLED"; reason = reason; changed_at = now })))
  pure (commit tt)

cancelled_body : Env → Uuid → String → Action (Ending (Unit {0}))
unfolding cancel_placed announce_cancel
cancelled_body env id reason = do
  hit ← wrapped "update order cancelled" (cancel_placed env id)
  if hit == 0 then pure (commit tt) else announce_cancel env id reason

unfoldable pub mark_cancelled : Env → Uuid → String → Action (Unit {0})
unfolding cancelled_body transaction
mark_cancelled env id reason = transaction env (cancelled_body env id reason)

abbrev pub remove_member : String → List GeoMember → List GeoMember
remove_member name = select (λ m. not (str_eq m.name name))

-- An error that the program only logs.
abbrev pub ignoring : Action (Unit {0}) → Action (Unit {0})
ignoring m w = (ok tt, (m w).1)

-- `ZREM riders:geo name`
unfoldable pub zrem : Env → String → Action (Unit {0})
unfolding call
zrem env name = call env (writing λ w. record w { geo = remove_member name w.geo })

won : Env → Uuid → Action (Unit {0})
unfolding zrem
won env rider_id = do
  ignoring (zrem env (env.uuid_text rider_id))
  inc_event "order.assigned"
  pure tt

give_up : Env → Uuid → Action (Unit {0})
give_up env order_id = do
  mark_cancelled env order_id "no rider available"
  inc_event "order.assignment_failed"
  raise no_rider_available

-- A claim that fails or is lost goes on with the next candidate.
or_next : Result Bool → Action (Unit {0}) → Action (Unit {0}) → Action (Unit {0})
or_next (ok true) win next = win
or_next (ok false) win next = next
or_next (err e) win next = next

-- The loop of `Assign` over the candidates, and what follows it.
unfoldable pub try_candidates : Env → Uuid → List Uuid → Action (Unit {0})
unfolding won give_up or_next
try_candidates env order_id [] w = give_up env order_id w
try_candidates env order_id (rider_id ∷ rest) w =
    let (claimed, w') = claim_rider env order_id rider_id w in
    or_next claimed (won env rider_id) (try_candidates env order_id rest) w'

unfoldable pub assign : Env → Uuid → Float → Float → Action (Unit {0})
assign env order_id pickup_lat pickup_lng = do
  found ←
      wrapped "redis nearest" (nearest_available_riders env pickup_lat pickup_lng candidate_limit)
  try_candidates env order_id found
