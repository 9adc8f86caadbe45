-- ===== src/Tests/Riders.antt =====
-- The assignment and rider services at concrete inputs.
use rush_delivery_engine.Prelude.{
  some, ◌≡◌, ◌≢◌, ◌⊎◌, refl, true, false, none, any, find, rows_affected,
}
use rush_delivery_engine.Store.Errors.{Error, ok, err, root, rider_invalid_request, rider_not_found}
use rush_delivery_engine.Order.Model.{Order}
use rush_delivery_engine.Rider.Model.{Rider, available, busy, RegisterRequest, SetStatusRequest}
use rush_delivery_engine.Rider.Repository.{is_active, active_order}
use rush_delivery_engine.Rider.Repository.Active.{IsLatest, active_order-IsLatest}
use rush_delivery_engine.Rider.Repository.Rows.{Registered, Persisted}
use rush_delivery_engine.Rider.Handler.{patch_status, handle_request}
use rush_delivery_engine.Rider.Handler.Responses.{Effect, handle_request-Effect}
use rush_delivery_engine.Rider.Service.{register, change_status}
use rush_delivery_engine.Rider.Service.Effects.{register_all_or_nothing, available_without_position}
use rush_delivery_engine.Assignment.Service.{
  candidates, candidate_limit, is_claimable, claim_rider, assign,
}
use rush_delivery_engine.Assignment.Service.Claims.{Claimed, claim_all_or_nothing, claim_exclusive}
use rush_delivery_engine.Assignment.Service.Outcome.{Outcome, assign-Outcome}
use rush_delivery_engine.Assignment.Service.Nearest.{is_free, Settled, assign-Settled, claim_free}
use rush_delivery_engine.Assignment.Consumer.{handle}
use rush_delivery_engine.Assignment.Consumer.Decoding.{decode-encode}
use rush_delivery_engine.Assignment.Consumer.Delivery.{delivery_claims}
use rush_delivery_engine.Tests.Codec.{tally, untally}
use rush_delivery_engine.Tests.Demo.{
  up_env, up_env-IsCodec, a_placed_event, a_placed_message, a_world,
}

assign-Outcome_example :
    Outcome up_env 1
      (candidates up_env 90 180 candidate_limit a_world.geo)
      a_world.db
      (assign up_env 1 90 180 a_world)
assign-Outcome_example = assign-Outcome up_env 1 90 180 a_world

assign-Settled_example :
    Settled up_env
      (λ n. refl)
      1
      a_world
      (assign up_env 1 90 180 a_world)
      (find (is_free a_world) (candidates up_env 90 180 candidate_limit a_world.geo))
assign-Settled_example = assign-Settled up_env (λ n. refl) 1 90 180 a_world

claim_all_or_nothing_example :
    let r = claim_rider up_env 1 7 a_world in
    ((e : Error) × (r.0 ≡ err e) × (r.1.db ≡ a_world.db))
    ⊎ ((r.0 ≡ ok false)
        × (r.1.db ≡ a_world.db)
        × (rows_affected (is_claimable 7) a_world.db.riders ≡ 0))
    ⊎ ((r.0 ≡ ok true) × Claimed up_env 1 7 a_world.db r.1.db)
claim_all_or_nothing_example = claim_all_or_nothing up_env 1 7 a_world

claim_exclusive_example : (claim_rider up_env 2 7 (claim_rider up_env 1 7 a_world).1).0 ≢ ok true
claim_exclusive_example =
    claim_exclusive up_env up_env 7 1 2 a_world (claim_rider up_env 1 7 a_world).1
      (claim_free up_env (λ n. refl) 1 7 a_world refl) refl

delivery_claims_example :
    ((handle up_env a_placed_message a_world).0 ≡ ok tt)
    × Claimed up_env 1 7 a_world.db (handle up_env a_placed_message a_world).1.db
unfolding tally untally
delivery_claims_example =
    delivery_claims up_env (λ n. refl) a_placed_message a_placed_event a_world 7
      (decode-encode up_env up_env-IsCodec a_placed_event) refl

abbrev a_registration : RegisterRequest
a_registration = record { name = "Ravi"; phone = "555-9" }

register_all_or_nothing_example :
    let r = register up_env a_registration a_world in
    ((e : Error) × (r.0 ≡ err e) × (r.1.db ≡ a_world.db))
    ⊎ ((rider : Rider) × (r.0 ≡ ok rider) × Registered up_env a_registration a_world rider r.1)
register_all_or_nothing_example = register_all_or_nothing up_env a_registration a_world

abbrev going_busy : SetStatusRequest
going_busy = record { status = busy; lat = none; lng = none }

abbrev going_available : SetStatusRequest
going_available = record { status = available; lat = none; lng = none }

available_without_position_example :
    let r = change_status up_env 7 going_available a_world in
    ((e : Error) × (r.0 ≡ err e) × (root e ≡ rider_invalid_request))
    × Persisted 7 available a_world r.1
available_without_position_example =
    available_without_position up_env (λ n. refl) 7 going_available a_world refl refl refl

active_order-IsLatest_example :
    let r = active_order up_env 7 a_world in
    ((o : Order) × (r.0 ≡ ok (o.id, o.status)) × IsLatest 7 a_world.db.orders o)
    ⊎ ((r.0 ≡ err rider_not_found) × (any (is_active 7) a_world.db.orders ≡ false))
active_order-IsLatest_example = active_order-IsLatest 7 up_env a_world refl

handle_request-Effect_example :
    let rq = patch_status (tally 7) (some going_busy) in
    let r = handle_request up_env rq a_world in Effect up_env a_world r.1 rq r.0
handle_request-Effect_example =
    handle_request-Effect up_env a_world (patch_status (tally 7) (some going_busy))
