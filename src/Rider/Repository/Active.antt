-- ===== src/Rider/Repository/Active.antt =====
-- The order that `ActiveOrder` of internal/rider/repository.go picks.
use rush_delivery_engine.Prelude.{
  ℕ, ◌≡◌, ◌≤◌, refl, ◌⊎◌, inl, inr, true, false, none, some, String, Option, List, [], ◌∷◌, arith,
  any, select, All, Has, Option-cases, Bool-cases, ltb,
}
use rush_delivery_engine.Platform.{Uuid, Env}
use rush_delivery_engine.Store.Errors.{ok, err, rider_not_found, call_failed}
use rush_delivery_engine.Store.{World}
use rush_delivery_engine.Store.Tx.{call}
use rush_delivery_engine.Order.Model.{Order}
use rush_delivery_engine.Rider.Repository.{is_active, later_of, latest, latest_active, active_order}

-- The order is one of the rider's active orders, and none of them was created after it.
pub record IsLatest (rider_id : Uuid) (orders : List Order) (o : Order) : Type 0 where
  pub there : Has o orders
  pub active : is_active rider_id o ≡ true
  pub newest : All (λ p. p.created_at ≤ o.created_at) (select (is_active rider_id) orders)

-- What the query returns.
abbrev pub Picked : Uuid → List Order → Option Order → Type 0
Picked rider_id orders none = any (is_active rider_id) orders ≡ false
Picked rider_id orders (some o) = IsLatest rider_id orders o

module _ (rider_id : Uuid) where
  older_still :
      (orders : List Order) (a b : ℕ)
      → a ≤ b
      → All (λ p. p.created_at ≤ a) orders
      → All (λ p. p.created_at ≤ b) orders
  older_still [] a b h all = tt
  older_still (o ∷ orders) a b h all = (omega (arith, all.0, h), older_still orders a b h all.1)

  none_selected :
      (orders : List Order)
      → any (is_active rider_id) orders ≡ false
      → select (is_active rider_id) orders ≡ []
  none_selected [] h = refl
  none_selected (o ∷ orders) h = ground (arith, none_selected orders)

  pick :
      (o : Order) (orders : List Order) (best : Option Order)
      → is_active rider_id o ≡ true
      → Picked rider_id orders best
      → Picked rider_id (o ∷ orders) (later_of o best)
  pick o orders none active h = record {
    there = inl refl;
    active = active;
    newest = rw (active, none_selected orders h) (omega arith, tt);
  }
  pick o orders (some p) active h = elim (Bool-cases (ltb o.created_at p.created_at)) [
    | inl before ↦ rw before (record {
      there = inr h.there;
      active = h.active;
      newest = rw active (ground arith, h.newest);
    })
    | inr not_before ↦ rw not_before (record {
      there = inl refl;
      active = active;
      newest = rw active (
        omega arith,
        older_still (select (is_active rider_id) orders) p.created_at o.created_at (ground arith)
            h.newest,
      );
    })
  ]

  pass :
      (o : Order) (orders : List Order) (best : Option Order)
      → is_active rider_id o ≡ false
      → Picked rider_id orders best
      → Picked rider_id (o ∷ orders) best
  pass o orders none passive h = ground arith
  pass o orders (some p) passive h = record {
    there = inr h.there;
    active = h.active;
    newest = rw passive h.newest;
  }

  pub latest-Picked :
      (orders : List Order) → Picked rider_id orders (latest (select (is_active rider_id) orders))
  latest-Picked [] = refl
  latest-Picked (o ∷ orders) = elim (Bool-cases (is_active rider_id o)) [
    | inl active ↦ rw active (pick o orders _ active (latest-Picked orders))
    | inr passive ↦ rw passive (pass o orders _ passive (latest-Picked orders))
  ]

  -- Where its call does not fail, `ActiveOrder` returns the id and status of a newest order of the rider
  -- that is neither DELIVERED nor CANCELLED, or `ErrNotFound` where the rider has no such order.
  pub active_order-IsLatest :
      (env : Env) (w : World)
      → env.fails w.calls ≡ none
      → let r = active_order env rider_id w in
        ((o : Order) × (r.0 ≡ ok (o.id, o.status)) × IsLatest rider_id w.db.orders o)
        ⊎ ((r.0 ≡ err rider_not_found) × (any (is_active rider_id) w.db.orders ≡ false))
  unfolding active_order latest_active call
  active_order-IsLatest env w up =
      let picked = latest-Picked w.db.orders in
      elim (Option-cases (latest (select (is_active rider_id) w.db.orders))) [
        | inl e ↦ inr (rw (up, e) refl, rw e at picked)
        | inr (o, e) ↦ inl (o, rw (up, e) refl, rw e at picked)
      ]

  pub active_order-tables : (env : Env) (w : World) → (active_order env rider_id w).1.db ≡ w.db
  unfolding active_order latest_active call
  active_order-tables env w = ground arith

  pub active_order-down :
      (env : Env) (w : World) (s : String)
      → env.fails w.calls ≡ some s
      → (active_order env rider_id w).0 ≡ err (call_failed s)
  unfolding active_order latest_active call
  active_order-down env w s down = rw down refl
