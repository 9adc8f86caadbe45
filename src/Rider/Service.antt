-- ===== src/Rider/Service.antt =====
-- internal/rider/service.go.
pub mod Effects
use Prim.Native.String.{◌++◌ as append}
use rush_delivery_engine.Prelude.{
  ℕ, Bool, true, false, not, ◌||◌, Option, none, some, String, List, [], ◌∷◌, ◌++◌, str_eq,
  if◌then◌else◌,
}
use rush_delivery_engine.Platform.{Uuid, Float, Env, GeoMember}
use rush_delivery_engine.Store.Errors.{Result, ok, err, rider_invalid_request, call_failed, detail}
use rush_delivery_engine.Store.{World, Action, pure, raise, wrapped, lift, ◌>>=◌, ◌>>◌}
use rush_delivery_engine.Store.Tx.{call, writing}
use rush_delivery_engine.Order.Model as OrderModel
use rush_delivery_engine.Rider.Model.{
  Status, offline, available, busy, other, is_valid, Rider, RegisterRequest, SetStatusRequest,
}
use rush_delivery_engine.Rider.Repository.{create, get_by_id, set_status, active_order}
use rush_delivery_engine.Assignment.Service.{zrem, ignoring, remove_member}

unfoldable pub register : Env → RegisterRequest → Action Rider
register env req =
    if str_eq req.name "" || str_eq req.phone ""
    then raise (detail rider_invalid_request "name and phone required")
    else create env req

-- `GEOADD riders:geo lng lat name` replaces the member's position.
abbrev pub place_member : GeoMember → List GeoMember → List GeoMember
place_member m members = remove_member m.name members ++ m ∷ []

add_position : Env → Uuid → Float → Float → Action (Unit {0})
add_position env id lat lng w =
    if env.geo_accepts lng lat
    then (
      ok tt,
      record w {
        geo =
            place_member (record { name = env.uuid_text id; latitude = lat; longitude = lng })
              w.geo;
      },
    )
    else (err (call_failed "ERR invalid longitude,latitude pair"), w)

unfoldable pub geoadd : Env → Uuid → Float → Float → Action (Unit {0})
unfolding call add_position
geoadd env id lat lng = call env (add_position env id lat lng)

go_available : Env → Uuid → Option Float → Option Float → Action (Unit {0})
unfolding geoadd
go_available env id (some lat) (some lng) = wrapped "geoadd" (geoadd env id lat lng)
go_available env id none lng =
    raise (detail rider_invalid_request "lat/lng required when going AVAILABLE")
go_available env id (some lat) none =
    raise (detail rider_invalid_request "lat/lng required when going AVAILABLE")

-- The `switch` of `SetStatus`.
unfoldable pub sync_geo : Env → Uuid → SetStatusRequest → Status → Action (Unit {0})
unfolding go_available
sync_geo env id req available = go_available env id req.lat req.lng
sync_geo env id req offline = ignoring (zrem env (env.uuid_text id))
sync_geo env id req busy = ignoring (zrem env (env.uuid_text id))
sync_geo env id req (other s) = pure tt

unfoldable pub apply_status : Env → Uuid → SetStatusRequest → Action Rider
unfolding sync_geo
apply_status env id req = do
  set_status env id req.status
  sync_geo env id req req.status
  get_by_id env id

-- `%q` of the status.
abbrev unknown_text : Env → Status → String
unknown_text env (other s) = env.quote s
unknown_text env _ = ""

unfoldable pub change_status : Env → Uuid → SetStatusRequest → Action Rider
unfolding apply_status is_valid
change_status env id req =
    if is_valid req.status
    then apply_status env id req
    else raise
        (detail rider_invalid_request (append "unknown status " (unknown_text env req.status)))

unfoldable pub get_active_order : Env → Uuid → Action (Uuid × OrderModel.Status)
get_active_order env id = active_order env id
