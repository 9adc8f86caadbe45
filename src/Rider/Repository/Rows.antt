-- ===== src/Rider/Repository/Rows.antt =====
-- What internal/rider/repository.go does to the rows of `riders`.
use rush_delivery_engine.Prelude.{
  ℕ, ◌≡◌, refl, ◌⊎◌, inl, inr, false, true, none, some, String, List, [], ◌∷◌, ◌++◌, arith, any,
  find, update_where, Option-cases, Bool-cases, rows_affected_of_any,
}
use rush_delivery_engine.Platform.{Uuid, Env}
use rush_delivery_engine.Store.Errors.{Error, ok, err, wrap, constraint, call_failed}
use rush_delivery_engine.Store.{World}
use rush_delivery_engine.Store.Tx.{call, tick}
use rush_delivery_engine.Rider.Model.{Status, is_valid, Rider, RegisterRequest}
use rush_delivery_engine.Rider.Repository.{
  has_id, clashes, new_rider, create, store_rider, get_by_id, set_status, write_status,
}

-- A new OFFLINE rider with the request's name and phone, whose phone and id no other row has.
pub record Registered (env : Env) (req : RegisterRequest) (w : World) (r : Rider) (v : World)
    : Type 0 where
  pub name : String
  pub phone : String
  pub kept_name : env.varchar 100 req.name ≡ some name
  pub kept_phone : env.varchar 15 req.phone ≡ some phone
  pub from_request : r ≡ new_rider r.id r.created_at req
  pub fresh : any (clashes r.id phone) w.db.riders ≡ false
  pub riders : v.db.riders ≡ w.db.riders ++ record r { name = name; phone = phone } ∷ []
  pub same_orders : v.db.orders ≡ w.db.orders
  pub same_geo : v.geo ≡ w.geo

-- The rows with the id have the status, and no other row changed.
abbrev pub Persisted : Uuid → Status → World → World → Type 0
Persisted id to w v =
    (changed : ℕ) × (v.db.riders
      ≡ update_where (has_id id) (λ r. record r { status = to; updated_at = changed }) w.db.riders)

module _ (env : Env) where
  pub insert_rider_all_or_nothing :
      (req : RegisterRequest) (w : World)
      → let r = create env req w in
        ((e : Error) × (r.0 ≡ err e) × (r.1.db ≡ w.db))
        ⊎ ((rider : Rider) × (r.0 ≡ ok rider) × Registered env req w rider r.1)
  unfolding create call store_rider
  insert_rider_all_or_nothing req w = elim (Option-cases (env.fails w.calls)) [
    | inr (s, down) ↦ inl (wrap "insert rider" (call_failed s), ground arith, ground arith)
    | inl up ↦ elim (Option-cases (env.varchar 100 req.name)) [
      | inl bad ↦ inl (wrap "insert rider" (constraint "name"), ground arith, ground arith)
      | inr (name, kept_name) ↦ elim (Option-cases (env.varchar 15 req.phone)) [
        | inl bad ↦ inl (wrap "insert rider" (constraint "phone"), ground arith, ground arith)
        | inr (phone, kept_phone) ↦
            let id = env.gen_random_uuid (tick w).calls in
            elim (Bool-cases (any (clashes id phone) w.db.riders)) [
              | inl clash ↦
                  inl (
                    wrap "insert rider" (constraint "riders_phone_key"),
                    ground arith,
                    ground arith,
                  )
              | inr fresh ↦ inr (
                new_rider id (env.now (tick w).calls) req,
                ground arith,
                record {
                  name = name;
                  phone = phone;
                  kept_name = kept_name;
                  kept_phone = kept_phone;
                  from_request = refl;
                  fresh = fresh;
                  riders = ground arith;
                  same_orders = ground arith;
                  same_geo = ground arith;
                },
              )
            ]
      ]
    ]
  ]

  pub set_status-Persisted :
      (id : Uuid) (to : Status) (w : World)
      → (set_status env id to w).0 ≡ ok tt
      → Persisted id to w (set_status env id to w).1
  unfolding set_status write_status call
  set_status-Persisted id to w h = (env.now (tick w).calls, ground arith)

  -- Where the call does not fail, a known status is set if the rider is there.
  pub set_status_up :
      (id : Uuid) (to : Status) (w : World)
      → env.fails w.calls ≡ none
      → is_valid to ≡ true
      → any (has_id id) w.db.riders ≡ true
      → (set_status env id to w).0 ≡ ok tt
  unfolding set_status write_status call
  set_status_up id to w up valid there =
      ground (arith, rows_affected_of_any (has_id id) w.db.riders there)

  pub get_by_id-found :
      (id : Uuid) (w : World) (r : Rider)
      → (get_by_id env id w).0 ≡ ok r
      → find (has_id id) w.db.riders ≡ some r
  unfolding get_by_id call
  get_by_id-found id w r h = ground arith

  pub get_by_id-tables : (id : Uuid) (w : World) → (get_by_id env id w).1.db ≡ w.db
  unfolding get_by_id call
  get_by_id-tables id w = ground arith

pub find_updated :
    (id now : ℕ) (to : Status) (riders : List Rider) (r : Rider)
    → find
        (has_id id)
        (update_where (has_id id) (λ r. record r { status = to; updated_at = now }) riders)
      ≡ some r
    → (r.id ≡ id) × (r.status ≡ to)
find_updated id now to [] r h = absurd (ground arith)
find_updated id now to (x ∷ riders) r h = (
  ground (arith, find_updated id now to riders r),
  ground (arith, find_updated id now to riders r),
)
