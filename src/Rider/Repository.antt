-- ===== src/Rider/Repository.antt =====
-- internal/rider/repository.go, with the constraints of migrations/001_create_riders.up.sql.
pub mod Rows
pub mod Active
use rush_delivery_engine.Prelude.{
  ℕ, Bool, true, false, not, ◌&&◌, ◌||◌, Option, none, some, String, List, [], ◌∷◌, ◌++◌, ◌==◌,
  find, any, select, update_where, rows_affected, ltb, str_eq, if◌then◌else◌,
}
use rush_delivery_engine.Platform.{Uuid, Time, Env}
use rush_delivery_engine.Store.Errors.{Result, ok, err, constraint, rider_not_found}
use rush_delivery_engine.Store.{
  World, Action, pure, raise, wrapped, on_no_rows, row_or_none, ◌>>=◌, ◌>>◌,
}
use rush_delivery_engine.Store.Tx.{call}
use rush_delivery_engine.Order.Model as OrderModel
use rush_delivery_engine.Order.Model.{Order, delivered, cancelled}
use rush_delivery_engine.Rider.Model.{Status, offline, is_valid, Rider, RegisterRequest}

abbrev pub has_id : Uuid → Rider → Bool
has_id id r = r.id == id

-- The primary key and `phone … UNIQUE`.
abbrev pub clashes : Uuid → String → Rider → Bool
clashes id phone r = r.id == id || str_eq r.phone phone

abbrev pub new_rider : Uuid → Time → RegisterRequest → Rider
new_rider id now req = record {
  id = id;
  name = req.name;
  phone = req.phone;
  status = offline;
  created_at = now;
  updated_at = now;
}

store_rider : Option String → Option String → Rider → Action Rider
store_rider none phone r w = (err (constraint "name"), w)
store_rider (some name) none r w = (err (constraint "phone"), w)
store_rider (some name) (some phone) r w =
    if any (clashes r.id phone) w.db.riders then (err (constraint "riders_phone_key"), w) else (
      ok r,
      record w {
        db = record w.db { riders = w.db.riders ++ record r { name = name; phone = phone } ∷ [] };
      },
    )

-- `INSERT INTO riders … RETURNING id, created_at, updated_at`
unfoldable pub create : Env → RegisterRequest → Action Rider
unfolding call store_rider
create env req = wrapped "insert rider" (
    call env λ w.
      store_rider (env.varchar 100 req.name) (env.varchar 15 req.phone)
        (new_rider (env.gen_random_uuid w.calls) (env.now w.calls) req) w)

unfoldable pub get_by_id : Env → Uuid → Action Rider
unfolding call
get_by_id env id =
    on_no_rows rider_not_found (call env (λ w. row_or_none (find (has_id id) w.db.riders) w))

abbrev or_not_found : ℕ → Action (Unit {0})
or_not_found hit = if hit == 0 then raise rider_not_found else pure tt

-- `UPDATE riders SET status = $1, updated_at = NOW() WHERE id = $2`
unfoldable pub write_status : Env → Uuid → Status → Action ℕ
unfolding call is_valid
write_status env id to = call env λ w.
    let hit = rows_affected (has_id id) w.db.riders in
    if hit == 0
    then (ok 0, w)
    else if is_valid to
    then (
      ok hit,
      record w {
        db = record w.db {
          riders =
              update_where (has_id id) (λ r. record r { status = to; updated_at = env.now w.calls })
                w.db.riders;
        };
      },
    )
    else (err (constraint "riders_status_chk"), w)

unfoldable pub set_status : Env → Uuid → Status → Action (Unit {0})
unfolding write_status
set_status env id to = do hit ← write_status env id to; or_not_found hit

abbrev pub is_over : OrderModel.Status → Bool
is_over delivered = true
is_over cancelled = true
is_over _ = false

abbrev pub is_rider : Uuid → Option Uuid → Bool
is_rider id none = false
is_rider id (some r) = r == id

-- `rider_id = $1 AND status NOT IN ('DELIVERED', 'CANCELLED')`
abbrev pub is_active : Uuid → Order → Bool
is_active id o = is_rider id o.rider_id && not (is_over o.status)

abbrev pub later_of : Order → Option Order → Option Order
later_of o none = some o
later_of o (some p) = if ltb o.created_at p.created_at then some p else some o

-- `ORDER BY created_at DESC LIMIT 1`: of orders of the same time, the first.
abbrev pub latest : List Order → Option Order
latest [] = none
latest (o ∷ os) = later_of o (latest os)

unfoldable pub latest_active : Env → Uuid → Action Order
unfolding call
latest_active env id = call env (λ w. row_or_none (latest (select (is_active id) w.db.orders)) w)

unfoldable pub active_order : Env → Uuid → Action (Uuid × OrderModel.Status)
unfolding latest_active
active_order env id = on_no_rows rider_not_found do o ← latest_active env id; pure (o.id, o.status)
