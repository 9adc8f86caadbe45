-- ===== src/Order/Repository/Growth.antt =====
-- The repository of the order service only adds to the outbox.
use rush_delivery_engine.Prelude.{ℕ, refl, arith, String}
use rush_delivery_engine.Platform.{Uuid, Env}
use rush_delivery_engine.Wire.{Object}
use rush_delivery_engine.Store.Tx.{call}
use rush_delivery_engine.Outbox.Relay.Growth.{
  Safe, Quiet, Quiet-Safe, pure-Safe, bind-Safe, wrapped-Safe, transaction-Safe, write-Safe,
}
use rush_delivery_engine.Order.Model.{Status, PlaceOrderRequest}
use rush_delivery_engine.Order.Repository.{
  insert_order, store_order, insert_event, set_status, or_not_found, clock, create_body, create,
  get_by_id, update_status_body, update_status,
}

module _ (env : Env) where
  insert_order-Quiet : (req : PlaceOrderRequest) → Quiet (insert_order env req)
  unfolding insert_order store_order call
  insert_order-Quiet req = record {
    rows = λ w. ground arith;
    log = λ w. ground arith;
    seq = λ w. ground arith;
  }

  pub insert_event-Quiet :
      (id : Uuid) (event_type : String) (payload : Object)
      → Quiet (insert_event env id event_type payload)
  unfolding insert_event call
  insert_event-Quiet id event_type payload = record {
    rows = λ w. ground arith;
    log = λ w. ground arith;
    seq = λ w. ground arith;
  }

  set_status-Quiet : (id : Uuid) (to : Status) → Quiet (set_status env id to)
  unfolding set_status call
  set_status-Quiet id to = record {
    rows = λ w. ground arith;
    log = λ w. ground arith;
    seq = λ w. ground arith;
  }

  pub get_by_id-Quiet : (id : Uuid) → Quiet (get_by_id env id)
  unfolding get_by_id call
  get_by_id-Quiet id = record {
    rows = λ w. ground arith;
    log = λ w. ground arith;
    seq = λ w. ground arith;
  }

  pub clock-Quiet : Quiet (clock env)
  clock-Quiet = record { rows = λ w. refl; log = λ w. refl; seq = λ w. refl }

module _ (env : Env) where
  create_body-Safe : (req : PlaceOrderRequest) → Safe (create_body env req)
  unfolding create_body
  create_body-Safe req =
      search
        (
          bind-Safe, wrapped-Safe, pure-Safe, write-Safe, Quiet-Safe, insert_order-Quiet,
          insert_event-Quiet, clock-Quiet,
        )
        depth 12

  pub create-Safe : (req : PlaceOrderRequest) → Safe (create env req)
  unfolding create
  create-Safe req = transaction-Safe env (create_body env req) (create_body-Safe req)

  or_not_found-Quiet : (hit : ℕ) → Quiet (or_not_found hit)
  or_not_found-Quiet hit = record {
    rows = λ w. ground arith;
    log = λ w. ground arith;
    seq = λ w. ground arith;
  }

  update_status_body-Safe : (id : Uuid) (to : Status) → Safe (update_status_body env id to)
  unfolding update_status_body
  update_status_body-Safe id to =
      search
        (
          bind-Safe, wrapped-Safe, pure-Safe, write-Safe, Quiet-Safe, set_status-Quiet,
          insert_event-Quiet, clock-Quiet, or_not_found-Quiet,
        )
        depth 14

  pub update_status-Safe : (id : Uuid) (to : Status) → Safe (update_status env id to)
  unfolding update_status
  update_status-Safe id to =
      transaction-Safe env (update_status_body env id to) (update_status_body-Safe id to)
