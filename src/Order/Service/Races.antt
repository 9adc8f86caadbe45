-- ===== src/Order/Service/Races.antt =====
-- Two calls of `Transition` of internal/order/service.go for one order, interleaved: both read the order
-- before either writes it.
use rush_delivery_engine.Prelude.{
  ℕ, ◌≡◌, refl, true, none, some, List, [], ◌∷◌, any, find, update_where, inl, inr, arith,
}
use rush_delivery_engine.Platform.{Uuid, Env}
use rush_delivery_engine.Store.Errors.{ok, Result}
use rush_delivery_engine.Store.{World}
use rush_delivery_engine.Order.Model.{Status, Order}
use rush_delivery_engine.Order.StateMachine.{validate_transition}
use rush_delivery_engine.Order.StateMachine.Laws.{
  ◌⟶◌, restaurant_accepts, food_is_prepared, rider_picks_up, rider_delivers, cancels_placed,
  cancels_accepted, cancels_preparing, cancels_picked_up, validate_transition_iff,
}
use rush_delivery_engine.Order.Repository.{is_known, has_id}
use rush_delivery_engine.Order.Repository.Atomicity.{
  Updated, update_status_all_or_nothing, update_status_up,
}
use rush_delivery_engine.Order.Service.{transition_to}

module _ (env : Env) (id : Uuid) where
  -- After both have read the order `o`: the first writes `a`, then the second writes `b`.
  unfoldable pub race :
      Status → Status → Order → World → Result Order × Result Order × World × World
  unfolding transition_to
  race a b o w =
      let (first, between) = transition_to env id a o w in
      let (second, after) = transition_to env id b o between in (first, second, between, after)

  any_after_update :
      (to : Status) (now : ℕ) (os : List Order)
      → any (has_id id) os ≡ true
      → any
          (has_id id)
          (update_where (has_id id) (λ o. record o { status = to; updated_at = now }) os)
        ≡ true
  any_after_update to now [] h = h
  any_after_update to now (o ∷ os) h = ground (arith, any_after_update to now os)

  find-any :
      (os : List Order) (o : Order) → find (has_id id) os ≡ some o → any (has_id id) os ≡ true
  find-any [] o h = absurd (ground arith)
  find-any (p ∷ os) o h = ground (arith, find-any os o)

legal_known : (from to : Status) → validate_transition from to ≡ ok tt → is_known to ≡ true
legal_known from to h = edge_known ((validate_transition_iff from to).0 h)
  where
    edge_known : {s t : Status} → s ⟶ t → is_known t ≡ true
    edge_known restaurant_accepts = refl
    edge_known food_is_prepared = refl
    edge_known rider_picks_up = refl
    edge_known rider_delivers = refl
    edge_known cancels_placed = refl
    edge_known cancels_accepted = refl
    edge_known cancels_preparing = refl
    edge_known cancels_picked_up = refl

module _ (env : Env) (up : (n : ℕ) → env.fails n ≡ none) (id : Uuid) where
  stale_write :
      (to : Status) (o : Order) (w : World)
      → validate_transition o.status to ≡ ok tt
      → any (has_id id) w.db.orders ≡ true
      → let r = transition_to env id to o w in
        (r.0 ≡ ok (record o { status = to })) × Updated env id to w.db r.1.db
  unfolding transition_to
  stale_write to o w legal there =
      let done = update_status_up env up id to w (legal_known o.status to legal) there in
      elim (update_status_all_or_nothing env id to w) [
        | inl (e, failed, _) ↦ absurd (ground arith)
        | inr (_, updated) ↦ rw (legal, done) (refl, updated)
      ]

  -- Where no call fails and the order is the one that both read, two transitions that are legal
  -- from its status are both written, one over the other, and both succeed.
  pub race-Updated :
      (a b : Status) (o : Order) (w : World)
      → find (has_id id) w.db.orders ≡ some o
      → validate_transition o.status a ≡ ok tt
      → validate_transition o.status b ≡ ok tt
      → let (first, second, between, after) = race env id a b o w in
        (first ≡ ok (record o { status = a }))
        × (second ≡ ok (record o { status = b }))
        × Updated env id a w.db between.db
        × Updated env id b between.db after.db
  unfolding race
  race-Updated a b o w found legal_a legal_b =
      let between = (transition_to env id a o w).1 in
      let (won, one) = stale_write a o w legal_a (find-any env id w.db.orders o found) in
      let (lost, two) = stale_write b o between legal_b (
        rw one.orders (
          any_after_update env id a one.changed w.db.orders
            (find-any env id w.db.orders o found))) in
      (won, lost, one, two)
