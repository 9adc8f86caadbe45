-- ===== src/Rider/Handler/Responses.antt =====
-- What the rider API answers and what it has done by then.
use rush_delivery_engine.Prelude.{
  ℕ, ◌≤◌, ◌≡◌, refl, sym, subst, ◌⊎◌, inl, inr, Option, none, some, String, arith, Bool-cases,
  Option-cases,
}
use rush_delivery_engine.Platform.{Uuid, Env}
use rush_delivery_engine.Store.Errors.{
  Error, err, call_failed, rider_not_found, root, error_text, Result-cases,
}
use rush_delivery_engine.Store.{World}
use rush_delivery_engine.Order.Model as OrderModel
use rush_delivery_engine.Rider.Model.{Rider, RegisterRequest, SetStatusRequest}
use rush_delivery_engine.Rider.Repository.{active_order}
use rush_delivery_engine.Rider.Repository.Rows.{Registered, Persisted}
use rush_delivery_engine.Rider.Repository.Active.{
  IsLatest, active_order-IsLatest, active_order-tables, active_order-down,
}
use rush_delivery_engine.Rider.Service.{register, change_status, get_active_order}
use rush_delivery_engine.Rider.Service.Effects.{
  register_all_or_nothing, change_status-Persisted, change_status-refused,
}
use rush_delivery_engine.Rider.Handler.{
  rider_reply, active_reply, error_reply, Response, Request, post, patch_status, get_order,
  handle_request, write_err, is_not_found, is_invalid_request, respond_register, respond_status,
  respond_active, status_with, with_id, handle_register, handle_set_status, handle_active_order,
}

-- An answer, and what the request did: it changed no table, though a status may be set by then; or it
-- registered a rider, set the status of one, or found the rider's order.
pub data Effect (env : Env) (w v : World) : Request → Response → Type 0 where
  refused :
      (rq : Request) (code : ℕ) (text : String)
      → 400 ≤ code
      → v.db ≡ w.db
      → Effect env w v rq (record { code = code; reply = error_reply text })
  refused_late :
      (param : String) (req : SetStatusRequest) (id : Uuid) (code : ℕ) (text : String)
      → 400 ≤ code
      → env.uuid_parse param ≡ some id
      → Persisted id req.status w v
      → Effect env w v
          (patch_status param (some req))
          (record { code = code; reply = error_reply text })
  registered :
      (req : RegisterRequest) (r : Rider)
      → Registered env req w r v
      → Effect env w v (post (some req)) (record { code = 201; reply = rider_reply r })
  status_set :
      (param : String) (req : SetStatusRequest) (id : Uuid) (r : Rider)
      → env.uuid_parse param ≡ some id
      → Persisted id req.status w v
      → (r.id ≡ id) × (r.status ≡ req.status)
      → Effect env w v
          (patch_status param (some req))
          (record { code = 200; reply = rider_reply r })
  order_found :
      (param : String) (id : Uuid) (o : OrderModel.Order)
      → env.uuid_parse param ≡ some id
      → IsLatest id w.db.orders o
      → v.db ≡ w.db
      → Effect env w v (get_order param) (record { code = 200; reply = active_reply o.id o.status })

-- The answer is an error.
abbrev IsRefusal : Response → Type 0
IsRefusal r = (code : ℕ) × (text : String) × (r ≡ write_err code text) × (400 ≤ code)

register-IsRefusal : (e : Error) → IsRefusal (respond_register (err e))
unfolding respond_register
register-IsRefusal e = elim (Bool-cases (is_invalid_request (root e))) [
  | inl hit ↦ (400, error_text e, rw hit refl, omega arith)
  | inr miss ↦ (500, "internal error", rw miss refl, omega arith)
]

status-IsRefusal : (e : Error) → IsRefusal (respond_status (err e))
unfolding respond_status
status-IsRefusal e = elim (Bool-cases (is_not_found (root e))) [
  | inl hit ↦ (404, "rider not found", rw hit refl, omega arith)
  | inr miss ↦ elim (Bool-cases (is_invalid_request (root e))) [
    | inl bad ↦ (400, error_text e, rw (miss, bad) refl, omega arith)
    | inr other ↦ (500, "internal error", rw (miss, other) refl, omega arith)
  ]
]

active-IsRefusal : (e : Error) → IsRefusal (respond_active (err e))
unfolding respond_active
active-IsRefusal e = elim (Bool-cases (is_not_found (root e))) [
  | inl hit ↦ (404, "no active order", rw hit refl, omega arith)
  | inr miss ↦ (500, "internal error", rw miss refl, omega arith)
]

module _ (env : Env) (w : World) where
  refusal-Effect :
      (v : World) (rq : Request) (r : Response) → IsRefusal r → v.db ≡ w.db → Effect env w v rq r
  refusal-Effect v rq r (code, text, same, high) kept =
      subst (Effect env w v rq) (sym same) (refused rq code text high kept)

  register-Effect :
      (body : Option RegisterRequest)
      → let r = handle_register env body w in Effect env w r.1 (post body) r.0
  unfolding handle_register respond_register
  register-Effect none = refused (post none) 400 "invalid json" (omega arith) refl
  register-Effect (some req) = elim (register_all_or_nothing env req w) [
    | inl (e, failed, kept) ↦
        refusal-Effect (register env req w).1 (post (some req))
          (respond_register (register env req w).0) (rw failed (register-IsRefusal e)) kept
    | inr (r, done, new) ↦ rw done (registered req r new)
  ]

  status_with-Effect :
      (param : String) (body : Option SetStatusRequest) (id : Uuid)
      → env.uuid_parse param ≡ some id
      → let r = status_with env body id w in Effect env w r.1 (patch_status param body) r.0
  unfolding status_with respond_status
  status_with-Effect param none id parsed =
      refused (patch_status param none) 400 "invalid json" (omega arith) refl
  status_with-Effect param (some req) id parsed =
      elim (Result-cases (change_status env id req w).0) [
        | inl (r, done) ↦
            let (kept, same_id, same_status) = change_status-Persisted env id req w r done in
            rw done (status_set param req id r parsed kept (same_id, same_status))
        | inr (e, failed) ↦ late e failed (change_status-refused env id req w e failed)
      ]
    where
      late :
          (e : Error)
          → (change_status env id req w).0 ≡ err e
          → ((change_status env id req w).1.db ≡ w.db)
            ⊎ Persisted id req.status w (change_status env id req w).1
          → Effect env w
              (change_status env id req w).1
              (patch_status param (some req))
              (respond_status (change_status env id req w).0)
      late e failed (inl kept) =
          refusal-Effect (change_status env id req w).1 (patch_status param (some req))
            (respond_status (change_status env id req w).0) (rw failed (status-IsRefusal e)) kept
      late e failed (inr set) =
          let (code, text, same, high) = status-IsRefusal e in
          rw (failed, same) (refused_late param req id code text high parsed set)

  active_with-Effect :
      (param : String) (id : Uuid)
      → env.uuid_parse param ≡ some id
      → let r = get_active_order env id w in Effect env w r.1 (get_order param) (respond_active r.0)
  unfolding get_active_order respond_active
  active_with-Effect param id parsed = elim (Option-cases (env.fails w.calls)) [
    | inr (s, down) ↦
        let failed = active_order-down id env w s down in
        refusal-Effect (active_order env id w).1 (get_order param)
          (respond_active (active_order env id w).0) (rw failed (active-IsRefusal (call_failed s)))
          (active_order-tables id env w)
    | inl up ↦ elim (active_order-IsLatest id env w up) [
      | inl (o, done, newest) ↦
          rw done (order_found param id o parsed newest (active_order-tables id env w))
      | inr (failed, none_there) ↦
          refusal-Effect (active_order env id w).1 (get_order param)
            (respond_active (active_order env id w).0)
            (rw failed (active-IsRefusal rider_not_found)) (active_order-tables id env w)
    ]
  ]

  named-Effect :
      (rq : Request) (parsed : Option Uuid) (f : Uuid → World → Response × World)
      → ((id : Uuid) → parsed ≡ some id → Effect env w (f id w).1 rq (f id w).0)
      → Effect env w (with_id parsed f w).1 rq (with_id parsed f w).0
  unfolding with_id
  named-Effect rq none f h = refused rq 400 "invalid id" (omega arith) refl
  named-Effect rq (some id) f h = h id refl

  -- Whatever the request to the rider API and whatever server calls fail: the answer is 201 with a rider
  -- who was registered, 200 with a rider whose status was set, 200 with a newest active order of the rider
  -- in the path, or an error of 400 and above; with an error no table changed, or the request was for a
  -- status and the rider's row has it all the same.
  pub handle_request-Effect :
      (rq : Request) → let r = handle_request env rq w in Effect env w r.1 rq r.0
  unfolding handle_request handle_set_status handle_active_order
  handle_request-Effect (post body) = register-Effect body
  handle_request-Effect (patch_status param body) =
      named-Effect (patch_status param body) (env.uuid_parse param) (status_with env body)
        (status_with-Effect param body)
  handle_request-Effect (get_order param) =
      named-Effect (get_order param) (env.uuid_parse param) _ (active_with-Effect param)
