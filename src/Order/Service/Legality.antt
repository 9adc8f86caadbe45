-- ===== src/Order/Service/Legality.antt =====
-- The service changes an order only along the state machine, and creates only valid orders.
use text.Mathlib.TextEquality.{eq_iff}
use rush_delivery_engine.Prelude.{
  ◌≡◌, ◌≢◌, ◌↔◌, refl, ◌⊎◌, inl, inr, true, false, some, arith, find,
}
use rush_delivery_engine.Platform.{Uuid, Env}
use rush_delivery_engine.Store.Errors.{Error, Result, ok, err, Result-cases}
use rush_delivery_engine.Store.{Db, World, continue}
use rush_delivery_engine.Order.Model.{Status, Order, PlaceOrderRequest}
use rush_delivery_engine.Order.StateMachine.Laws.{◌⟶◌, validate_transition_iff}
use rush_delivery_engine.Order.StateMachine.{validate_transition}
use rush_delivery_engine.Order.Repository.{has_id, get_by_id}
use rush_delivery_engine.Order.Repository.Atomicity.{
  Created, Updated, create_all_or_nothing, update_status_all_or_nothing,
}
use rush_delivery_engine.Order.Service.{
  valid_lat_lng, validate_place, place, transition_to, transition,
}

-- What the service asks of a request.
pub record IsPlaceable (env : Env) (r : PlaceOrderRequest) : Type 0 where
  pub customer : r.customer_id ≢ 0
  pub restaurant : r.restaurant_id ≢ 0
  pub amount : env.float.le r.total_amount (env.float.of_int 0) ≡ false
  pub address : r.delivery_address ≢ ""
  pub pickup : valid_lat_lng env r.pickup_lat r.pickup_lng ≡ true
  pub dropoff : valid_lat_lng env r.dropoff_lat r.dropoff_lng ≡ true

validate-IsPlaceable :
    (env : Env) (r : PlaceOrderRequest) → validate_place env r ≡ ok tt → IsPlaceable env r
unfolding validate_place
validate-IsPlaceable env r h = ground (arith, eq_iff r.delivery_address "")

IsPlaceable-validate :
    (env : Env) (r : PlaceOrderRequest) → IsPlaceable env r → validate_place env r ≡ ok tt
unfolding validate_place
IsPlaceable-validate env r h = ground (arith, eq_iff r.delivery_address "")

-- `validatePlace` accepts exactly the requests that are placeable.
pub validate_place_iff :
    (env : Env) (r : PlaceOrderRequest) → (validate_place env r ≡ ok tt) ↔ IsPlaceable env r
validate_place_iff env r = (validate-IsPlaceable env r, IsPlaceable-validate env r)

module _ (env : Env) (id : Uuid) where
  pub get_by_id-tables : (w : World) → (get_by_id env id w).1.db ≡ w.db
  unfolding get_by_id
  get_by_id-tables w = ground arith

  pub get_by_id-find :
      (w : World) {o : Order}
      → (get_by_id env id w).0 ≡ ok o
      → find (has_id id) w.db.orders ≡ some o
  unfolding get_by_id
  get_by_id-find w h = ground arith

  -- How `Transition` can end: with an error and the tables as they were, or with an order whose status
  -- went along an edge of the state machine, recorded by the repository's transaction.
  pub record Moved (to : Status) (before : Db) (o' : Order) (after : Db) : Type 0 where
    pub o : Order
    pub found : find (has_id id) before.orders ≡ some o
    pub edge : o.status ⟶ to
    pub returned : o' ≡ record o { status = to }
    pub updated : Updated env id to before after

  abbrev pub TransitionEnds : Status → Db → Result Order × World → Type 0
  TransitionEnds to before r =
      ((e : Error) × (r.0 ≡ err e) × (r.1.db ≡ before))
      ⊎ ((o' : Order) × (r.0 ≡ ok o') × Moved to before o' r.1.db)

  transition_to-ends :
      (to : Status) (o : Order) (w : World)
      → find (has_id id) w.db.orders ≡ some o
      → TransitionEnds to w.db (transition_to env id to o w)
  unfolding transition_to
  transition_to-ends to o w found = elim (Result-cases (validate_transition o.status to)) [
    | inr (e, refused) ↦ inl (e, ground arith, ground arith)
    | inl (_, allowed) ↦ elim (update_status_all_or_nothing env id to w) [
      | inl (e, failed, same) ↦ inl (e, ground arith, ground arith)
      | inr (done, updated) ↦ inr (
        record o { status = to },
        ground arith,
        record {
          o = o;
          found = found;
          edge = (validate_transition_iff o.status to).0 allowed;
          returned = refl;
          updated = rw (allowed, continue) (rw (done, continue) updated);
        },
      )
    ]
  ]

  -- Of an order that may have been read long ago.
  abbrev pub Written : Status → Order → Db → Db → Type 0
  Written to o before after = (o.status ⟶ to) × Updated env id to before after

  pub transition_to-Written :
      (to : Status) (o : Order) (w : World)
      → let v = (transition_to env id to o w).1 in (v.db ≡ w.db) ⊎ Written to o w.db v.db
  unfolding transition_to
  transition_to-Written to o w = elim (Result-cases (validate_transition o.status to)) [
    | inr (e, refused) ↦ inl (ground arith)
    | inl (_, allowed) ↦ elim (update_status_all_or_nothing env id to w) [
      | inl (e, failed, same) ↦ inl (ground arith)
      | inr (done, updated) ↦ inr (
        (validate_transition_iff o.status to).0 allowed,
        rw (allowed, continue) (rw (done, continue) updated),
      )
    ]
  ]

  -- `Transition` fails and leaves every table as it was, or moves the order with this id along an edge
  -- of the state machine, with its audit event and its outbox row, and returns it with the new status.
  pub transition_legal : (to : Status) (w : World) → TransitionEnds to w.db (transition env id to w)
  unfolding transition
  transition_legal to w = elim (Result-cases (get_by_id env id w).0) [
    | inr (e, failed) ↦ inl (e, ground arith, ground (arith, get_by_id-tables w))
    | inl (o, read) ↦
        rw (read, continue)
          (rw get_by_id-tables at (
            transition_to-ends to o (get_by_id env id w).1
              (rw get_by_id-tables (get_by_id-find w read))))
  ]

module _ (env : Env) (req : PlaceOrderRequest) where
  -- `Place` fails and leaves every table as it was, or the request is placeable and the order that it
  -- returns is created by the repository's transaction.
  pub place_legal :
      (w : World)
      → let r = place env req w in
        ((e : Error) × (r.0 ≡ err e) × (r.1.db ≡ w.db))
        ⊎ ((o : Order) × (r.0 ≡ ok o) × IsPlaceable env req × Created env req w.db o r.1.db)
  unfolding place
  place_legal w = elim (Result-cases (validate_place env req)) [
    | inr (e, refused) ↦ inl (e, ground arith, ground arith)
    | inl (_, valid) ↦ elim (create_all_or_nothing env req w) [
      | inl (e, failed, same) ↦ inl (e, ground arith, ground arith)
      | inr (o, done, created) ↦ inr (
        o,
        ground arith,
        validate-IsPlaceable env req valid,
        rw (valid, continue) (rw (done, continue) created),
      )
    ]
  ]
