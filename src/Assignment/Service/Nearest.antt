-- ===== src/Assignment/Service/Nearest.antt =====
-- Which rider `Assign` of internal/assignment/service.go takes, where no call to a server fails.
use rush_delivery_engine.Prelude.{
  ℕ, Bool, ◌≡◌, ◌≢◌, refl, sym, ◌⊎◌, inl, inr, true, false, none, some, Option, List, [], ◌∷◌,
  arith, any, find, rows_affected, rows_affected_of_any, ap, String, Bool-cases, Zero-cases,
}
use rush_delivery_engine.Platform.{Uuid, Float, Env}
use rush_delivery_engine.Store.Errors.{Result, ok, err, no_rider_available}
use rush_delivery_engine.Store.{World}
use rush_delivery_engine.Store.Tx.{tick, call, commit}
use rush_delivery_engine.Store.Tx.Laws.{transaction-commit}
use rush_delivery_engine.Assignment.Service.{
  is_claimable, is_cancellable, claim_body, claim_rider, cancelled_body, mark_cancelled, won,
  give_up, try_candidates, candidates, candidate_limit, nearest_available_riders, assign,
  remove_member, or_next,
}
use rush_delivery_engine.Assignment.Service.Claims.{Claimed, won-Claimed, not_won_unchanged}
use rush_delivery_engine.Assignment.Service.Cancellation.{Cancelled, mark_cancelled_all_or_nothing}

-- The rider has a row that is AVAILABLE.
abbrev pub is_free : World → Uuid → Bool
is_free w id = any (is_claimable id) w.db.riders

module _ (env : Env) (up : (n : ℕ) → env.fails n ≡ none) (order_id : Uuid) where
  claim_body_free :
      (rider_id : Uuid) (w : World)
      → is_free w rider_id ≡ true
      → (claim_body env order_id rider_id w).0 ≡ ok (commit true)
  unfolding claim_body call
  claim_body_free rider_id w free = ground (
    arith,
    up w.calls,
    up (tick w).calls,
    up (tick (tick w)).calls,
    up (tick (tick (tick w))).calls,
    rows_affected_of_any (is_claimable rider_id) w.db.riders free,
  )

  pub claim_free :
      (rider_id : Uuid) (w : World)
      → is_free w rider_id ≡ true
      → (claim_rider env order_id rider_id w).0 ≡ ok true
  unfolding claim_rider
  claim_free rider_id w free =
      ap (λ r. r.0)
        (transaction-commit env up (claim_body env order_id rider_id) w true
          (claim_body_free rider_id (tick w) free))

  claim_geo : (rider_id : Uuid) (w : World) → (claim_rider env order_id rider_id w).1.geo ≡ w.geo
  unfolding claim_rider claim_body call
  claim_geo rider_id w = ground arith

  cancel_body_up :
      (reason : String) (w : World) → (cancelled_body env order_id reason w).0 ≡ ok (commit tt)
  unfolding cancelled_body call
  cancel_body_up reason w =
      elim (Zero-cases (rows_affected (is_cancellable order_id) w.db.orders)) [
        | inl missed ↦ ground (arith, up w.calls)
        | inr hit ↦ ground (arith, up w.calls, up (tick w).calls)
      ]

  cancel_up : (reason : String) (w : World) → (mark_cancelled env order_id reason w).0 ≡ ok tt
  unfolding mark_cancelled
  cancel_up reason w =
      ap (λ r. r.0)
        (transaction-commit env up (cancelled_body env order_id reason) w tt
          (cancel_body_up reason (tick w)))

  cancel_geo : (reason : String) (w : World) → (mark_cancelled env order_id reason w).1.geo ≡ w.geo
  unfolding mark_cancelled cancelled_body call
  cancel_geo reason w = ground arith

  -- What `Assign` settles on: the first candidate that is free is claimed and leaves the geo index; if
  -- there is none, nothing is claimed, and the order is cancelled if it was PLACED.
  abbrev pub Settled : World → Result (Unit {0}) × World → Option Uuid → Type 0
  Settled w r (some rider_id) =
      (r.0 ≡ ok tt)
      × Claimed env order_id rider_id w.db r.1.db
      × (r.1.geo ≡ remove_member (env.uuid_text rider_id) w.geo)
  Settled w r none =
      (r.0 ≡ err no_rider_available)
      × (r.1.geo ≡ w.geo)
      × (((r.1.db ≡ w.db) × (rows_affected (is_cancellable order_id) w.db.orders ≡ 0))
          ⊎ Cancelled env order_id "no rider available" w.db r.1.db)

  give_up-Settled : (w : World) → Settled w (give_up env order_id w) none
  unfolding give_up
  give_up-Settled w = elim (mark_cancelled_all_or_nothing env order_id "no rider available" w) [
    | inl (e, failed, _) ↦ absurd (ground (arith, cancel_up "no rider available" w))
    | inr (done, tables) ↦
        let same = cancel_geo "no rider available" w in (ground arith, ground arith, rw done tables)
  ]

  won_effect :
      (rider_id : Uuid) (w : World)
      → let r = won env rider_id w in
        (r.0 ≡ ok tt) × (r.1.db ≡ w.db) × (r.1.geo ≡ remove_member (env.uuid_text rider_id) w.geo)
  unfolding won call
  won_effect rider_id w =
      (ground (arith, up w.calls), ground (arith, up w.calls), ground (arith, up w.calls))

  resettle :
      (w v : World) (r : Result (Unit {0}) × World) (o : Option Uuid)
      → v.db ≡ w.db
      → v.geo ≡ w.geo
      → Settled v r o
      → Settled w r o
  resettle w v r none db geo h = rw (sym db, sym geo) h
  resettle w v r (some id) db geo h = rw (sym db, sym geo) h

  same_free :
      (w v : World) (found : List Uuid)
      → v.db ≡ w.db
      → find (is_free v) found ≡ find (is_free w) found
  same_free w v found db = rw db refl

  not_free_lost :
      (rider_id : Uuid) (w : World)
      → is_free w rider_id ≡ false
      → (claim_rider env order_id rider_id w).0 ≢ ok true
  not_free_lost rider_id w not_free h =
      let claimed = won-Claimed env order_id rider_id w h in absurd (ground (arith, claimed.free))

  next_after_loss :
      (next win : World → Result (Unit {0}) × World) (r : Result Bool)
      → r ≢ ok true
      → or_next r win next ≡ next
  unfolding or_next
  next_after_loss next win (ok true) h = absurd (h refl)
  next_after_loss next win (ok false) h = refl
  next_after_loss next win (err e) h = refl

  won-Settled :
      (rider_id : Uuid) (w : World)
      → is_free w rider_id ≡ true
      → Settled w (won env rider_id (claim_rider env order_id rider_id w).1) (some rider_id)
  won-Settled rider_id w free =
      let w' = (claim_rider env order_id rider_id w).1 in
      let (done, tables, geo) = won_effect rider_id w' in
      (
        done,
        rw tables (won-Claimed env order_id rider_id w (claim_free rider_id w free)),
        ground (arith, geo, claim_geo rider_id w),
      )

  try-Settled :
      (found : List Uuid) (w : World)
      → Settled w (try_candidates env order_id found w) (find (is_free w) found)
  unfolding try_candidates or_next
  try-Settled [] w = give_up-Settled w
  try-Settled (rider_id ∷ found) w = elim (Bool-cases (is_free w rider_id)) [
    | inl free ↦ rw (free, claim_free rider_id w free) (won-Settled rider_id w free)
    | inr taken ↦
        let lost = not_free_lost rider_id w taken in
        let w' = (claim_rider env order_id rider_id w).1 in
        let tables = not_won_unchanged env order_id rider_id w lost in
        rw (taken, next_after_loss (try_candidates env order_id found) (won env rider_id) _ lost)
          (resettle w w' (try_candidates env order_id found w') (find (is_free w) found) tables
            (claim_geo rider_id w) (rw (sym (same_free w w' found tables)) (try-Settled found w')))
  ]

  -- Where no call fails: if some candidate of the search has an AVAILABLE row, `Assign` succeeds, the
  -- first such candidate, from near to far, is claimed and is no longer in the geo index; if none has,
  -- it returns `ErrNoRiderAvailable`, and the order is cancelled unless no PLACED order has its id.
  pub assign-Settled :
      (lat lng : Float) (w : World)
      → Settled w
          (assign env order_id lat lng w)
          (find (is_free w) (candidates env lat lng candidate_limit w.geo))
  unfolding assign nearest_available_riders call
  assign-Settled lat lng w =
      rw (up w.calls) (try-Settled (candidates env lat lng candidate_limit w.geo) (tick w))
