-- ===== src/Order/StateMachine/Laws.antt =====
-- What the state machine accepts, against the life of an order drawn as a relation.
use rush_delivery_engine.Prelude.{◌≡◌, ◌↔◌, refl, arith}
use rush_delivery_engine.Store.Errors.{ok}
use rush_delivery_engine.Order.Model.{
  Status, placed, accepted, preparing, picked_up, delivered, cancelled,
}
use rush_delivery_engine.Order.StateMachine.{validate_transition}

-- The happy path, and the cancellation of an order that is still under way.
infix 40 ◌⟶◌ ◌⟶*◌
pub data ◌⟶◌ : Status → Status → Type 0 where
  restaurant_accepts : placed ⟶ accepted
  food_is_prepared : accepted ⟶ preparing
  rider_picks_up : preparing ⟶ picked_up
  rider_delivers : picked_up ⟶ delivered
  cancels_placed : placed ⟶ cancelled
  cancels_accepted : accepted ⟶ cancelled
  cancels_preparing : preparing ⟶ cancelled
  cancels_picked_up : picked_up ⟶ cancelled

pub data ◌⟶*◌ : Status → Status → Type 0 where
  here : {s : Status} → s ⟶* s
  move_on : {s t u : Status} → s ⟶ t → t ⟶* u → s ⟶* u

ruleset edges = (
  restaurant_accepts, food_is_prepared, rider_picks_up, rider_delivers, cancels_placed,
  cancels_accepted, cancels_preparing, cancels_picked_up,
)

validate-⟶ : (from to : Status) → validate_transition from to ≡ ok tt → from ⟶ to
unfolding validate_transition
validate-⟶ from to h = grind (arith, edges)

⟶-validate : {from to : Status} → from ⟶ to → validate_transition from to ≡ ok tt
unfolding validate_transition
⟶-validate restaurant_accepts = refl
⟶-validate _ = refl

-- `validate_transition` accepts exactly the edges of the diagram.
pub validate_transition_iff :
    (from to : Status) → (validate_transition from to ≡ ok tt) ↔ (from ⟶ to)
validate_transition_iff from to = (validate-⟶ from to, ⟶-validate)
