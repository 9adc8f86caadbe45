-- ===== src/Rider/Service/Effects.antt =====
-- What the methods of internal/rider/service.go do to the tables and the geo index.
use rush_delivery_engine.Prelude.{
  ℕ, ◌≡◌, refl, sym, ap, ◌∙◌, ◌⊎◌, inl, inr, true, none, arith, any, Bool-cases, ◌||◌, str_eq,
}
use rush_delivery_engine.Platform.{Uuid, Float, Env}
use rush_delivery_engine.Store.Errors.{
  Error, ok, err, rider_invalid_request, root, detail, Result-cases,
}
use rush_delivery_engine.Store.{World}
use rush_delivery_engine.Store.Tx.{call}
use rush_delivery_engine.Rider.Model.{
  Status, offline, available, busy, other, is_valid, Rider, RegisterRequest, SetStatusRequest,
}
use rush_delivery_engine.Rider.Repository.{has_id, set_status, write_status, get_by_id}
use rush_delivery_engine.Rider.Repository.Rows.{
  Registered, Persisted, insert_rider_all_or_nothing, set_status-Persisted, set_status_up,
  get_by_id-found, get_by_id-tables, find_updated,
}
use rush_delivery_engine.Rider.Service.{
  register, apply_status, change_status, sync_geo, go_available, geoadd, add_position,
}
use rush_delivery_engine.Assignment.Service.{zrem}

module _ (env : Env) where
  -- `Register` fails and leaves the tables as they were, or adds the one row of a new OFFLINE rider,
  -- whose phone and id no other row has, and returns the rider.
  pub register_all_or_nothing :
      (req : RegisterRequest) (w : World)
      → let r = register env req w in
        ((e : Error) × (r.0 ≡ err e) × (r.1.db ≡ w.db))
        ⊎ ((rider : Rider) × (r.0 ≡ ok rider) × Registered env req w rider r.1)
  unfolding register
  register_all_or_nothing req w = elim (Bool-cases (str_eq req.name "" || str_eq req.phone "")) [
    | inl missing ↦
        inl (detail rider_invalid_request "name and phone required", ground arith, ground arith)
    | inr given ↦ rw given (insert_rider_all_or_nothing env req w)
  ]

  pub sync_geo_tables :
      (id : Uuid) (req : SetStatusRequest) (to : Status) (w : World)
      → (sync_geo env id req to w).1.db ≡ w.db
  unfolding sync_geo go_available geoadd add_position call zrem
  sync_geo_tables id req available w = ground arith
  sync_geo_tables id req offline w = ground arith
  sync_geo_tables id req busy w = ground arith
  sync_geo_tables id req (other s) w = ground arith

  after_geo :
      (id : Uuid) (to : Status) (w v : World) (r : Rider)
      → Persisted id to w v
      → (get_by_id env id v).0 ≡ ok r
      → Persisted id to w (get_by_id env id v).1 × (r.id ≡ id) × (r.status ≡ to)
  after_geo id to w v r (now, kept) got =
      let tables = get_by_id-tables env id v in
      let found = get_by_id-found env id v r got in
      let (same_id, same_status) = find_updated id now to w.db.riders r (rw (sym kept) found) in
      ((now, rw tables kept), same_id, same_status)

  after_set :
      (id : Uuid) (req : SetStatusRequest) (w : World) (r : Rider)
      → (set_status env id req.status w).0 ≡ ok tt
      → (apply_status env id req w).0 ≡ ok r
      → Persisted id req.status w (apply_status env id req w).1
        × (r.id ≡ id)
        × (r.status ≡ req.status)
  unfolding apply_status
  after_set id req w r done h =
      let w' = (set_status env id req.status w).1 in
      let (now, kept) = set_status-Persisted env id req.status w done in
      let tables = sync_geo_tables id req req.status w' in
      elim (Result-cases (sync_geo env id req req.status w').0) [
        | inr (e, failed) ↦ absurd (ground arith)
        | inl (_, synced) ↦
            rw (done, synced)
              (after_geo id req.status w (sync_geo env id req req.status w').1 r
                (now, rw tables kept) (ground arith))
      ]

  -- A `SetStatus` that succeeds has set the status of the rider's row, changed no other row, and
  -- returns the rider with the status.
  pub change_status-Persisted :
      (id : Uuid) (req : SetStatusRequest) (w : World) (r : Rider)
      → (change_status env id req w).0 ≡ ok r
      → Persisted id req.status w (change_status env id req w).1
        × (r.id ≡ id)
        × (r.status ≡ req.status)
  unfolding change_status apply_status
  change_status-Persisted id req w r h = elim (Bool-cases (is_valid req.status)) [
    | inr bad ↦ absurd (ground arith)
    | inl good ↦ elim (Result-cases (set_status env id req.status w).0) [
      | inr (e, failed) ↦ absurd (ground arith)
      | inl (_, done) ↦ rw good (after_set id req w r done (rw good at h))
    ]
  ]

  set_status-refused :
      (id : Uuid) (to : Status) (w : World) (e : Error)
      → (set_status env id to w).0 ≡ err e
      → (set_status env id to w).1.db ≡ w.db
  unfolding set_status write_status call
  set_status-refused id to w e h = ground arith

  refused_tables :
      (id : Uuid) (req : SetStatusRequest) (w : World) (e : Error)
      → (set_status env id req.status w).0 ≡ err e
      → (apply_status env id req w).1.db ≡ (set_status env id req.status w).1.db
  unfolding apply_status
  refused_tables id req w e failed = rw failed refl

  applied_tables :
      (id : Uuid) (req : SetStatusRequest) (w : World)
      → (set_status env id req.status w).0 ≡ ok tt
      → (apply_status env id req w).1.db ≡ (set_status env id req.status w).1.db
  unfolding apply_status
  applied_tables id req w done =
      let w' = (set_status env id req.status w).1 in
      let tables = sync_geo_tables id req req.status w' in
      elim (Result-cases (sync_geo env id req req.status w').0) [
        | inl (_, synced) ↦
            rw (done, synced)
              (get_by_id-tables env id (sync_geo env id req req.status w').1 ∙ tables)
        | inr (e, failed) ↦ rw (done, failed) tables
      ]

  -- A `SetStatus` that fails has left the tables as they were, or has set the status all the same.
  pub change_status-refused :
      (id : Uuid) (req : SetStatusRequest) (w : World) (e : Error)
      → (change_status env id req w).0 ≡ err e
      → let v = (change_status env id req w).1 in (v.db ≡ w.db) ⊎ Persisted id req.status w v
  unfolding change_status
  change_status-refused id req w e h = elim (Bool-cases (is_valid req.status)) [
    | inr bad ↦ rw bad (inl refl)
    | inl good ↦ elim (Result-cases (set_status env id req.status w).0) [
      | inr (e', failed) ↦
          rw good
            (inl (refused_tables id req w e' failed ∙ set_status-refused id req.status w e' failed))
      | inl (_, done) ↦
          let (now, kept) = set_status-Persisted env id req.status w done in
          rw good (inr (now, ap (λ db. db.riders) (applied_tables id req w done) ∙ kept))
    ]
  ]

  -- Where no call fails, going AVAILABLE without a latitude is refused as an invalid request after
  -- the status is set: the row of the rider, who is there, is AVAILABLE all the same.
  pub available_without_position :
      (up : (n : ℕ) → env.fails n ≡ none) (id : Uuid) (req : SetStatusRequest) (w : World)
      → req.status ≡ available
      → req.lat ≡ none
      → any (has_id id) w.db.riders ≡ true
      → let r = change_status env id req w in
        ((e : Error) × (r.0 ≡ err e) × (root e ≡ rider_invalid_request))
        × Persisted id available w r.1
  unfolding change_status apply_status sync_geo go_available root is_valid
  available_without_position up id req w to lat there =
      let done = set_status_up env id available w (up w.calls) refl there in
      let kept = set_status-Persisted env id available w done in
      rw (to, done, lat)
        ((detail rider_invalid_request "lat/lng required when going AVAILABLE", refl, refl), kept)

  pub geoadd_kept :
      (id : Uuid) (lat lng : Float) (w : World)
      → let v = (geoadd env id lat lng w).1 in (v.log ≡ w.log) × (v.db ≡ w.db)
  unfolding geoadd add_position call
  geoadd_kept id lat lng w = (ground arith, ground arith)
