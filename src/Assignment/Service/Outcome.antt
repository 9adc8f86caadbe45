-- ===== src/Assignment/Service/Outcome.antt =====
-- How `Assign` of internal/assignment/service.go ends.
use rush_delivery_engine.Prelude.{
  ◌≡◌, ◌≢◌, sym, ◌⊎◌, inl, inr, true, false, List, [], ◌∷◌, ◌==◌, arith, any, Option-cases, ==_refl,
}
use rush_delivery_engine.Platform.{Uuid, Float, Env}
use rush_delivery_engine.Store.Errors.{
  Error, Result, ok, err, no_rider_available, call_failed, wrap, Result-cases,
}
use rush_delivery_engine.Store.{Db, World}
use rush_delivery_engine.Store.Tx.{tick, call}
use rush_delivery_engine.Assignment.Service.{
  claim_rider, won, give_up, try_candidates, candidates, candidate_limit, nearest_available_riders,
  assign, or_next,
}
use rush_delivery_engine.Assignment.Service.Claims.{Claimed, won-Claimed, not_won_unchanged}
use rush_delivery_engine.Assignment.Service.Cancellation.{Cancelled, mark_cancelled_all_or_nothing}

-- How an assignment can end: a candidate is claimed for the order; an error leaves the tables as they
-- were; or no rider is found, and the order is cancelled if it was PLACED.
abbrev pub Outcome : Env → Uuid → List Uuid → Db → Result (Unit {0}) × World → Type 0
Outcome env order_id found before r =
    ((rider_id : Uuid) × (any (λ id. id == rider_id) found ≡ true)
      × (r.0 ≡ ok tt)
      × Claimed env order_id rider_id before r.1.db)
    ⊎ ((e : Error) × (r.0 ≡ err e) × (r.1.db ≡ before))
    ⊎ ((r.0 ≡ err no_rider_available) × Cancelled env order_id "no rider available" before r.1.db)

module _ (env : Env) (order_id : Uuid) where
  give_up-Outcome : (w : World) → Outcome env order_id [] w.db (give_up env order_id w)
  unfolding give_up
  give_up-Outcome w = elim (mark_cancelled_all_or_nothing env order_id "no rider available" w) [
    | inl (e, failed, tables) ↦ inr (inl (e, ground arith, ground arith))
    | inr (done, inl (tables, _)) ↦ inr (inl (no_rider_available, ground arith, ground arith))
    | inr (done, inr cancel) ↦ inr (inr (ground arith, rw done cancel))
  ]

  won_tables : (rider_id : Uuid) (w : World) → (won env rider_id w).1.db ≡ w.db
  unfolding won call
  won_tables rider_id w = ground arith

  won_result : (rider_id : Uuid) (w : World) → (won env rider_id w).0 ≡ ok tt
  unfolding won call
  won_result rider_id w = ground arith

  later :
      (rider_id : Uuid) (found : List Uuid) {before after : Db} (r : Result (Unit {0}) × World)
      → after ≡ before
      → Outcome env order_id found after r
      → Outcome env order_id (rider_id ∷ found) before r
  later rider_id found r same (inl (id, seen, done, claimed)) =
      inl (id, ground arith, done, rw (sym same) claimed)
  later rider_id found r same (inr other) = inr (rw (sym same) other)

  -- A claim that was not won leaves the rest to the next candidates.
  skip :
      (rider_id : Uuid) (found : List Uuid) (w : World)
      → (claim_rider env order_id rider_id w).0 ≢ ok true
      → let w' = (claim_rider env order_id rider_id w).1 in
        Outcome env order_id found w'.db (try_candidates env order_id found w')
        → Outcome env order_id (rider_id ∷ found) w.db (try_candidates env order_id found w')
  skip rider_id found w lost rest =
      later rider_id found
        (try_candidates env order_id found (claim_rider env order_id rider_id w).1)
        (not_won_unchanged env order_id rider_id w lost) rest

  try-Outcome :
      (found : List Uuid) (w : World)
      → Outcome env order_id found w.db (try_candidates env order_id found w)
  unfolding try_candidates or_next
  try-Outcome [] w = give_up-Outcome w
  try-Outcome (rider_id ∷ found) w = elim (Result-cases (claim_rider env order_id rider_id w).0) [
    | inl (true, e) ↦
        let w' = (claim_rider env order_id rider_id w).1 in
        rw e (
          inl (
            rider_id,
            ground (arith, ==_refl rider_id),
            won_result rider_id w',
            rw (won_tables rider_id w') (won-Claimed env order_id rider_id w e),
          ))
    | inl (false, e) ↦ rw e (
        skip rider_id found w (λ h. absurd (ground arith))
          (try-Outcome found (claim_rider env order_id rider_id w).1))
    | inr (x, e) ↦ rw e (
        skip rider_id found w (λ h. absurd (ground arith))
          (try-Outcome found (claim_rider env order_id rider_id w).1))
  ]

  -- However the calls fail, `Assign` ends in one of three ways: it claims one of the riders that the
  -- search found, and no other change of the tables is made; it returns an error and the tables are as
  -- they were; or it returns `ErrNoRiderAvailable` and the order, which was PLACED, is CANCELLED.
  pub assign-Outcome :
      (lat lng : Float) (w : World)
      → Outcome env order_id
          (candidates env lat lng candidate_limit w.geo)
          w.db
          (assign env order_id lat lng w)
  unfolding assign nearest_available_riders call
  assign-Outcome lat lng w = elim (Option-cases (env.fails w.calls)) [
    | inl up ↦ rw up (try-Outcome (candidates env lat lng candidate_limit w.geo) (tick w))
    | inr (s, down) ↦ inr (inl (wrap "redis nearest" (call_failed s), ground arith, ground arith))
  ]
