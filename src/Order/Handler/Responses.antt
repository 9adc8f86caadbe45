-- ===== src/Order/Handler/Responses.antt =====
-- What a response says of the tables.
use rush_delivery_engine.Prelude.{
  ◌≡◌, refl, inl, inr, Option, none, some, String, List, [], ◌∷◌, arith, Bool-cases, find, str_eq,
  if◌then◌else◌,
}
use rush_delivery_engine.Platform.{Uuid, Env}
use rush_delivery_engine.Store.Errors.{root, error_text, Error, Result, ok, err, Result-cases}
use rush_delivery_engine.Store.{Db, World}
use rush_delivery_engine.Order.Model.{Status, Order, PlaceOrderRequest, parse_status}
use rush_delivery_engine.Order.Repository.{has_id, get_by_id}
use rush_delivery_engine.Order.Repository.Atomicity.{Created}
use rush_delivery_engine.Order.Audit.{IsAudited}
use rush_delivery_engine.Order.Audit.Laws.{Created-IsAudited, Updated-IsAudited}
use rush_delivery_engine.Order.Service.{get, transition, cancel}
use rush_delivery_engine.Order.Service.Legality.{
  Moved, get_by_id-tables, get_by_id-find, IsPlaceable, place_legal, transition_legal,
}
use rush_delivery_engine.Order.Handler.{
  is_invalid_request, is_not_found, Reply, order_reply, error_reply, Response, answer,
  respond_place, respond_get, respond_update, respond_cancel, with_id, update_with, handle_place,
  handle_get, handle_update_status, handle_cancel, Request, post, fetch, patch_cancel, patch_status,
  serve,
}

-- What one request of the order API did to the tables, by the answer to it.
pub data Effect (env : Env) (before : Db) : Reply → Db → Type 0 where
  refused :
      (text : String) {reply : Reply} {after : Db}
      → reply ≡ error_reply text
      → after ≡ before
      → Effect env before reply after
  fetched :
      (id : Uuid) {o : Order} {reply : Reply} {after : Db}
      → reply ≡ order_reply o
      → find (has_id id) before.orders ≡ some o
      → after ≡ before
      → Effect env before reply after
  created :
      {req : PlaceOrderRequest} {o : Order} {reply : Reply} {after : Db}
      → reply ≡ order_reply o
      → IsPlaceable env req
      → Created env req before o after
      → Effect env before reply after
  moved :
      {id : Uuid} {to : Status} {o : Order} {reply : Reply} {after : Db}
      → reply ≡ order_reply o
      → Moved env id to before o after
      → Effect env before reply after

-- A response function shows orders as they are, and errors as texts.
record IsPlain (respond : Result Order → Response) : Type 0 where
  shows : (o : Order) → (respond (ok o)).reply ≡ order_reply o
  text : Error → String
  tells : (e : Error) → (respond (err e)).reply ≡ error_reply (text e)

place-IsPlain : IsPlain respond_place
unfolding respond_place
place-IsPlain = record {
  shows = λ o. refl;
  text = λ e. if is_invalid_request (root e) then error_text e else "internal error";
  tells = λ e. ground arith;
}

get-IsPlain : IsPlain respond_get
unfolding respond_get
get-IsPlain = record {
  shows = λ o. refl;
  text = λ e. if is_not_found (root e) then "order not found" else "internal error";
  tells = λ e. ground arith;
}

update-IsPlain : IsPlain respond_update
unfolding respond_update
update-IsPlain = record {
  shows = λ o. refl;
  text = λ e. if is_not_found (root e) then "order not found" else error_text e;
  tells = λ e. ground arith;
}

cancel-IsPlain : IsPlain respond_cancel
unfolding respond_cancel
cancel-IsPlain = record {
  shows = λ o. refl;
  text = λ e. if is_not_found (root e) then "order not found" else error_text e;
  tells = λ e. ground arith;
}

module _ (env : Env) where
  abbrev Did : World → Response × World → Type 0
  Did w r = Effect env w.db r.0.reply r.1.db

  transition-Did :
      {respond : Result Order → Response} (p : IsPlain respond) (id : Uuid) (to : Status)
      (w : World)
      → Did w (answer respond (transition env id to) w)
  transition-Did p id to w = elim (transition_legal env id to w) [
    | inl (e, failed, same) ↦ refused (p.text e) (rw failed (p.tells e)) same
    | inr (o, done, move) ↦ moved (rw done (p.shows o)) move
  ]

  place-Did : (body : Option PlaceOrderRequest) (w : World) → Did w (handle_place env body w)
  unfolding handle_place
  place-Did none w = refused _ refl refl
  place-Did (some req) w = elim (place_legal env req w) [
    | inl (e, failed, same) ↦
        refused (place-IsPlain.text e) (rw failed (place-IsPlain.tells e)) same
    | inr (o, done, valid, new) ↦ created (rw done (place-IsPlain.shows o)) valid new
  ]

  get-Did :
      (id : Option Uuid) (w : World) → Did w (with_id id (λ i. answer respond_get (get env i)) w)
  unfolding with_id get
  get-Did none w = refused _ refl refl
  get-Did (some id) w = elim (Result-cases (get_by_id env id w).0) [
    | inl (o, read) ↦
        fetched id (rw read (get-IsPlain.shows o)) (get_by_id-find env id w read)
          (get_by_id-tables env id w)
    | inr (e, failed) ↦
        refused (get-IsPlain.text e) (rw failed (get-IsPlain.tells e)) (get_by_id-tables env id w)
  ]

  cancel-Did :
      (id : Option Uuid) (w : World)
      → Did w (with_id id (λ i. answer respond_cancel (cancel env i)) w)
  unfolding with_id cancel
  cancel-Did none w = refused _ refl refl
  cancel-Did (some id) w = transition-Did cancel-IsPlain id _ w

  update-Did :
      (body : Option String) (id : Option Uuid) (w : World)
      → Did w (with_id id (update_with env body) w)
  unfolding with_id update_with
  update-Did body none w = refused _ refl refl
  update-Did none (some id) w = refused _ refl refl
  update-Did (some text) (some id) w = elim (Bool-cases (str_eq text "")) [
    | inl empty ↦ rw empty (refused _ refl refl)
    | inr full ↦ rw full (transition-Did update-IsPlain id (parse_status text) w)
  ]

  -- Whatever the request, its body and the failures of the servers, one request of the order API answers
  -- with an error and changes no table, or answers with the order that it read and changes no table, or
  -- creates the order of a placeable request and answers with it, or moves one order along the state
  -- machine and answers with it.
  pub serve-Effect :
      (rq : Request) (w : World) → Effect env w.db (serve env rq w).0.reply (serve env rq w).1.db
  unfolding serve handle_get handle_cancel handle_update_status
  serve-Effect (post body) w = place-Did body w
  serve-Effect (fetch param) w = get-Did (env.uuid_parse param) w
  serve-Effect (patch_cancel param) w = cancel-Did (env.uuid_parse param) w
  serve-Effect (patch_status param body) w = update-Did body (env.uuid_parse param) w

  Effect-IsAudited :
      {before after : Db} {reply : Reply}
      → Effect env before reply after
      → IsAudited before
      → IsAudited after
  Effect-IsAudited (refused _ _ same) h = rw same h
  Effect-IsAudited (fetched _ _ _ same) h = rw same h
  Effect-IsAudited (created _ _ new) h = Created-IsAudited new h
  Effect-IsAudited (moved _ move) h = Updated-IsAudited move.updated h

  -- Requests one after the other.
  abbrev pub serve_all : List Request → World → World
  serve_all [] w = w
  serve_all (rq ∷ rqs) w = serve_all rqs (serve env rq w).1

  -- Through any requests to the order API, whatever fails, replaying the audit log gives each
  -- order the status that it has, if it did so before.
  pub serve_all-IsAudited :
      (rqs : List Request) (w : World) → IsAudited w.db → IsAudited (serve_all rqs w).db
  serve_all-IsAudited [] w h = h
  serve_all-IsAudited (rq ∷ rqs) w h =
      serve_all-IsAudited rqs (serve env rq w).1 (Effect-IsAudited (serve-Effect rq w) h)
