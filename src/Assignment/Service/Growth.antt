-- ===== src/Assignment/Service/Growth.antt =====
-- The assignment service only adds to the outbox.
use rush_delivery_engine.Prelude.{ℕ, Bool, ◌==◌, refl, arith, true, false, String, List, [], ◌∷◌}
use rush_delivery_engine.Platform.{Uuid, Float, Env}
use rush_delivery_engine.Store.Errors.{Error, Result, ok, err}
use rush_delivery_engine.Store.{Action, pure, raise}
use rush_delivery_engine.Store.Tx.{call, abandon}
use rush_delivery_engine.Order.Repository.Growth.{insert_event-Quiet, clock-Quiet}
use rush_delivery_engine.Order.Service.Growth.{inc_event-Quiet}
use rush_delivery_engine.Outbox.Relay.Growth.{
  Safe, Quiet, Quiet-Safe, pure-Safe, if-Safe, bind-Safe, wrapped-Safe, transaction-Safe,
  write-Safe, Grows-trans,
}
use rush_delivery_engine.Assignment.Service.{
  take_rider, attach_rider, record_claim, after_take, claim_body, claim_rider, cancel_placed,
  announce_cancel, cancelled_body, mark_cancelled, ignoring, zrem, won, give_up, or_next,
  try_candidates, nearest_available_riders, assign,
}

module _ (env : Env) where
  take_rider-Quiet : (id : Uuid) → Quiet (take_rider env id)
  unfolding take_rider call
  take_rider-Quiet id = record {
    rows = λ w. ground arith;
    log = λ w. ground arith;
    seq = λ w. ground arith;
  }

  attach_rider-Quiet : (order_id rider_id : Uuid) → Quiet (attach_rider env order_id rider_id)
  unfolding attach_rider call
  attach_rider-Quiet order_id rider_id = record {
    rows = λ w. ground arith;
    log = λ w. ground arith;
    seq = λ w. ground arith;
  }

  cancel_placed-Quiet : (id : Uuid) → Quiet (cancel_placed env id)
  unfolding cancel_placed call
  cancel_placed-Quiet id = record {
    rows = λ w. ground arith;
    log = λ w. ground arith;
    seq = λ w. ground arith;
  }

  zrem-Quiet : (name : String) → Quiet (ignoring (zrem env name))
  unfolding zrem call
  zrem-Quiet name = record {
    rows = λ w. ground arith;
    log = λ w. ground arith;
    seq = λ w. ground arith;
  }

  nearest-Quiet : (lat lng : Float) (limit : ℕ) → Quiet (nearest_available_riders env lat lng limit)
  unfolding nearest_available_riders call
  nearest-Quiet lat lng limit = record {
    rows = λ w. ground arith;
    log = λ w. ground arith;
    seq = λ w. ground arith;
  }

raise-Quiet : {A : Type 0} (e : Error) → Quiet (raise {A = A} e)
raise-Quiet e = record { rows = λ w. refl; log = λ w. refl; seq = λ w. refl }

ruleset steps = (
  bind-Safe, wrapped-Safe, pure-Safe, write-Safe, Quiet-Safe, insert_event-Quiet, clock-Quiet,
  inc_event-Quiet, raise-Quiet,
)

module _ (env : Env) where
  record_claim-Safe : (order_id rider_id : Uuid) → Safe (record_claim env order_id rider_id)
  unfolding record_claim
  record_claim-Safe order_id rider_id = search (steps, attach_rider-Quiet) depth 12

  after_take-Safe :
      (order_id rider_id : Uuid) (hit : ℕ) → Safe (after_take env order_id rider_id hit)
  unfolding after_take
  after_take-Safe order_id rider_id hit =
      if-Safe (hit == 0) (pure (abandon false)) (record_claim env order_id rider_id)
        (pure-Safe (abandon false)) (record_claim-Safe order_id rider_id)

  claim_body-Safe : (order_id rider_id : Uuid) → Safe (claim_body env order_id rider_id)
  unfolding claim_body
  claim_body-Safe order_id rider_id = search (steps, take_rider-Quiet, after_take-Safe) depth 12

  pub claim_rider-Safe : (order_id rider_id : Uuid) → Safe (claim_rider env order_id rider_id)
  unfolding claim_rider
  claim_rider-Safe order_id rider_id =
      transaction-Safe env (claim_body env order_id rider_id) (claim_body-Safe order_id rider_id)

  announce_cancel-Safe : (id : Uuid) (reason : String) → Safe (announce_cancel env id reason)
  unfolding announce_cancel
  announce_cancel-Safe id reason = search steps depth 12

  cancelled_body-Safe : (id : Uuid) (reason : String) → Safe (cancelled_body env id reason)
  unfolding cancelled_body
  cancelled_body-Safe id reason =
      search (steps, cancel_placed-Quiet, announce_cancel-Safe, if-Safe) depth 12

  pub mark_cancelled-Safe : (id : Uuid) (reason : String) → Safe (mark_cancelled env id reason)
  unfolding mark_cancelled
  mark_cancelled-Safe id reason =
      transaction-Safe env (cancelled_body env id reason) (cancelled_body-Safe id reason)

  won-Safe : (rider_id : Uuid) → Safe (won env rider_id)
  unfolding won
  won-Safe rider_id = search (steps, zrem-Quiet) depth 12

  give_up-Safe : (order_id : Uuid) → Safe (give_up env order_id)
  unfolding give_up
  give_up-Safe order_id = search (steps, mark_cancelled-Safe) depth 12

  or_next-Safe :
      (r : Result Bool) (win next : Action (Unit {0}))
      → Safe win
      → Safe next
      → Safe (or_next r win next)
  unfolding or_next
  or_next-Safe (ok true) win next hw hn = hw
  or_next-Safe (ok false) win next hw hn = hn
  or_next-Safe (err e) win next hw hn = hn

  try_candidates-Safe :
      (order_id : Uuid) (found : List Uuid) → Safe (try_candidates env order_id found)
  unfolding try_candidates
  try_candidates-Safe order_id [] = record { run = (give_up-Safe order_id).run }
  try_candidates-Safe order_id (rider_id ∷ rest) = record {
    run = λ w s.
        let (claimed, w') = claim_rider env order_id rider_id w in
        let g = (claim_rider-Safe order_id rider_id).run w s in
        let h =
          or_next-Safe claimed (won env rider_id) (try_candidates env order_id rest)
            (won-Safe rider_id) (try_candidates-Safe order_id rest) in
        Grows-trans w w'
          (or_next claimed (won env rider_id) (try_candidates env order_id rest) w').1 g
          (h.run w' g.sound);
  }

  pub assign-Safe : (order_id : Uuid) (lat lng : Float) → Safe (assign env order_id lat lng)
  unfolding assign
  assign-Safe order_id lat lng = search (steps, nearest-Quiet, try_candidates-Safe) depth 12
