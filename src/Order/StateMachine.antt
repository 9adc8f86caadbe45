-- ===== src/Order/StateMachine.antt =====
-- internal/order/statemachine.go.
pub mod Laws
pub mod Progress
use rush_delivery_engine.Prelude.{
  Bool, true, false, Option, none, some, List, [], ◌∷◌, str_eq, any, if◌then◌else◌,
}
use rush_delivery_engine.Store.Errors.{Error, Result, ok, err, unknown_state, illegal_transition}
use rush_delivery_engine.Order.Model.{
  Status, placed, accepted, preparing, picked_up, delivered, cancelled, other, status_text,
}

-- `validTransitions`: the keys are statuses, and the value at a key is a set of statuses.
unfoldable pub valid_transitions : Status → Option (List Status)
valid_transitions placed = some (accepted ∷ cancelled ∷ [])
valid_transitions accepted = some (preparing ∷ cancelled ∷ [])
valid_transitions preparing = some (picked_up ∷ cancelled ∷ [])
valid_transitions picked_up = some (delivered ∷ cancelled ∷ [])
valid_transitions delivered = some []
valid_transitions cancelled = some []
valid_transitions (other s) = none

-- `==` on statuses.
unfoldable pub same_status : Status → Status → Bool
same_status placed placed = true
same_status accepted accepted = true
same_status preparing preparing = true
same_status picked_up picked_up = true
same_status delivered delivered = true
same_status cancelled cancelled = true
same_status (other s) (other t) = str_eq s t
same_status _ _ = false

check_allowed : Status → Status → Option (List Status) → Result (Unit {0})
unfolding same_status
check_allowed from to none = err (unknown_state from)
check_allowed from to (some allowed) =
    if any (same_status to) allowed then ok tt else err (illegal_transition from to)

unfoldable pub validate_transition : Status → Status → Result (Unit {0})
unfolding valid_transitions check_allowed
validate_transition from to = check_allowed from to (valid_transitions from)
