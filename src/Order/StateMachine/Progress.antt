-- ===== src/Order/StateMachine/Progress.antt =====
-- An order's life moves on and ends: statuses have a rank, which each accepted transition raises.
use rush_delivery_engine.Prelude.{ℕ, suc, ◌+◌, ◌≤◌, ◌<◌, ◌≡◌, List, [], ◌∷◌, length, arith}
use rush_delivery_engine.Store.Errors.{ok}
use rush_delivery_engine.Order.Model.{
  Status, placed, accepted, preparing, picked_up, delivered, cancelled, other,
}
use rush_delivery_engine.Order.StateMachine.{validate_transition}
use rush_delivery_engine.Order.StateMachine.Laws.{
  ◌⟶◌, restaurant_accepts, food_is_prepared, rider_picks_up, rider_delivers, cancels_placed,
  cancels_accepted, cancels_preparing, cancels_picked_up, ◌⟶*◌, here, move_on,
  validate_transition_iff,
}

abbrev pub rank : Status → ℕ
rank placed = 0
rank accepted = 1
rank preparing = 2
rank picked_up = 3
rank delivered = 4
rank cancelled = 4
rank (other s) = 0

rank-le : (s : Status) → rank s ≤ 4
rank-le placed = omega arith
rank-le accepted = omega arith
rank-le preparing = omega arith
rank-le picked_up = omega arith
rank-le delivered = omega arith
rank-le cancelled = omega arith
rank-le (other s) = omega arith

rank-⟶ : {s t : Status} → s ⟶ t → rank s < rank t
rank-⟶ restaurant_accepts = omega arith
rank-⟶ food_is_prepared = omega arith
rank-⟶ rider_picks_up = omega arith
rank-⟶ rider_delivers = omega arith
rank-⟶ cancels_placed = omega arith
rank-⟶ cancels_accepted = omega arith
rank-⟶ cancels_preparing = omega arith
rank-⟶ cancels_picked_up = omega arith

-- The number of changes on the way.
abbrev pub changes : {s t : Status} → s ⟶* t → ℕ
changes here = 0
changes (move_on step rest) = suc (changes rest)

changes-rank : {s t : Status} (p : s ⟶* t) → rank s + changes p ≤ rank t
changes-rank here = omega arith
changes-rank (move_on step rest) = omega (arith, rank-⟶ step, changes-rank rest)

pub changes-le : {s t : Status} (p : s ⟶* t) → changes p ≤ 4
changes-le {s} {t} p = omega (arith, changes-rank p, rank-le t)

pub ⟶*-trans : {s t u : Status} → s ⟶* t → t ⟶* u → s ⟶* u
⟶*-trans here q = q
⟶*-trans (move_on step rest) q = move_on step (⟶*-trans rest q)

-- Each status is accepted after the one before it.
abbrev pub IsAccepted : Status → List Status → Type 0
IsAccepted from [] = Unit
IsAccepted from (to ∷ later) = (validate_transition from to ≡ ok tt) × IsAccepted to later

rank-IsAccepted :
    (from : Status) (tos : List Status) → IsAccepted from tos → rank from + length tos ≤ 4
rank-IsAccepted from [] h = omega (arith, rank-le from)
rank-IsAccepted from (to ∷ later) (one, rest) =
    omega (arith, rank-⟶ ((validate_transition_iff from to).0 one), rank-IsAccepted to later rest)

-- Whatever statuses are asked for in turn, at most four changes of one order are accepted.
pub accepted-length : (from : Status) (tos : List Status) → IsAccepted from tos → length tos ≤ 4
accepted-length from tos h = omega (arith, rank-IsAccepted from tos h)
