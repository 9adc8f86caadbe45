-- ===== src/Order/Repository/Atomicity.antt =====
-- The transactions of the order repository write a change of an order, its audit event and its outbox
-- row together, or nothing.
use rush_delivery_engine.Prelude.{
  ap, rows_affected_of_any, ℕ, ◌≡◌, refl, ◌⊎◌, inl, inr, true, false, none, some, [], ◌∷◌, ◌++◌,
  arith, any, any_of_rows_affected, update_where, Option-cases,
}
use rush_delivery_engine.Platform.{Uuid, Float, Env}
use rush_delivery_engine.Kafka.Topics.{topic_order_placed, topic_order_status_updated}
use rush_delivery_engine.Store.Errors.{Error, ok, err}
use rush_delivery_engine.Store.{OrderEvent, OutboxRow, Db, World}
use rush_delivery_engine.Store.Tx.{tick, call, commit, abandon}
use rush_delivery_engine.Store.Tx.Laws.{transaction-Ends, transaction-commit}
use rush_delivery_engine.Outbox.{new_row}
use rush_delivery_engine.Order.Model.{Status, Order, PlaceOrderRequest}
use rush_delivery_engine.Order.Repository.{
  is_known, has_id, new_order, placed_event, encode_placed, placed_payload, create_body, create,
  status_payload, encode_status, event_of_status, update_status_body, update_status,
}

-- One audit event and one unsent outbox row were added.
pub record Recorded (env : Env) (before after : Db) (id : Uuid) : Type 0 where
  pub event : OrderEvent
  pub row : OutboxRow
  pub events : after.order_events ≡ before.order_events ++ event ∷ []
  pub rows : after.outbox ≡ before.outbox ++ row ∷ []
  pub event_id : event.order_id ≡ id
  pub row_id : row.aggregate_id ≡ id
  pub row_key : row.partition_key ≡ env.uuid_text id
  pub unsent : row.sent_at ≡ none
  pub same_riders : after.riders ≡ before.riders

pub record Created (env : Env) (req : PlaceOrderRequest) (before : Db) (o : Order) (after : Db)
    : Type 0 where
  pub cents : Float
  pub now : ℕ
  pub recorded : Recorded env before after o.id
  pub rounded : env.numeric_10_2 req.total_amount ≡ some cents
  pub from_request : o ≡ new_order o.id o.created_at req
  pub fresh : any (has_id o.id) before.orders ≡ false
  pub orders : after.orders ≡ before.orders ++ record o { total_amount = cents } ∷ []
  pub topic : recorded.row.topic ≡ topic_order_placed
  pub payload : recorded.row.payload ≡ encode_placed env (placed_event o now)
  pub event_type : recorded.event.event_type ≡ "order.placed"
  pub event_payload : recorded.event.payload ≡ placed_payload env o

module _ (env : Env) (req : PlaceOrderRequest) where
  create_body-Created :
      (w : World) (o : Order)
      → (create_body env req w).0 ≡ ok (commit o)
      → Created env req w.db o (create_body env req w).1.db
  unfolding create_body call
  create_body-Created w o h = elim (Option-cases (env.numeric_10_2 req.total_amount)) [
    | inl e ↦ absurd (ground arith)
    | inr (cents, e) ↦ record {
      cents = cents;
      now = env.now third.calls;
      recorded = record {
        event = event;
        row = row;
        events = ground arith;
        rows = ground arith;
        event_id = refl;
        row_id = refl;
        row_key = refl;
        unsent = refl;
        same_riders = ground arith;
      };
      rounded = e;
      from_request = ground arith;
      fresh = ground arith;
      orders = ground arith;
      topic = refl;
      payload = refl;
      event_type = refl;
      event_payload = refl;
    }
  ]
    where
      third : World
      third = tick (tick w)

      event : OrderEvent
      event = record {
        order_id = o.id;
        event_type = "order.placed";
        payload = placed_payload env o;
        created_at = env.now third.calls;
      }

      row : OutboxRow
      row =
          new_row env (tick third) o.id topic_order_placed (env.uuid_text o.id)
            (encode_placed env (placed_event o (env.now third.calls)))

  create_body-ne-abandon : (w : World) (o : Order) → ¬ ((create_body env req w).0 ≡ ok (abandon o))
  unfolding create_body call
  create_body-ne-abandon w o h = ground arith

  -- `Create` either fails and leaves every table as it was, or returns the order that it inserted, with
  -- one audit event and one unsent outbox row that carries the order's `order.placed` event.
  pub create_all_or_nothing :
      (w : World)
      → let r = create env req w in
        ((e : Error) × (r.0 ≡ err e) × (r.1.db ≡ w.db))
        ⊎ ((o : Order) × (r.0 ≡ ok o) × Created env req w.db o r.1.db)
  unfolding create
  create_all_or_nothing w = elim (transaction-Ends env (create_body env req) w) [
    | inl failed ↦ inl failed
    | inr (inl (o, ended, _, _)) ↦ absurd (create_body-ne-abandon (tick w) o ended)
    | inr (inr (o, ended, returned, tables)) ↦
        inr (o, returned, rw tables (create_body-Created (tick w) o ended))
  ]

-- The order `id` has status `to`, and every other row is as it was.
pub record Updated (env : Env) (id : Uuid) (to : Status) (before after : Db) : Type 0 where
  pub now : ℕ
  pub changed : ℕ
  pub recorded : Recorded env before after id
  pub present : any (has_id id) before.orders ≡ true
  pub orders :
      after.orders
      ≡ update_where (has_id id) (λ o. record o { status = to; updated_at = changed }) before.orders
  pub topic : recorded.row.topic ≡ topic_order_status_updated
  pub payload : recorded.row.payload ≡ encode_status env id to now
  pub event_type : recorded.event.event_type ≡ event_of_status to
  pub event_payload : recorded.event.payload ≡ status_payload to

module _ (env : Env) (id : Uuid) (to : Status) where
  update_body-Updated :
      (w : World)
      → (update_status_body env id to w).0 ≡ ok (commit tt)
      → Updated env id to w.db (update_status_body env id to w).1.db
  unfolding update_status_body call
  update_body-Updated w h = record {
    now = env.now third.calls;
    changed = env.now (tick w).calls;
    recorded = record {
      event = event;
      row = row;
      events = ground arith;
      rows = ground arith;
      event_id = refl;
      row_id = refl;
      row_key = refl;
      unsent = refl;
      same_riders = ground arith;
    };
    present = any_of_rows_affected (has_id id) w.db.orders (ground arith);
    orders = ground arith;
    topic = refl;
    payload = refl;
    event_type = refl;
    event_payload = refl;
  }
    where
      third : World
      third = tick (tick w)

      event : OrderEvent
      event = record {
        order_id = id;
        event_type = event_of_status to;
        payload = status_payload to;
        created_at = env.now third.calls;
      }

      row : OutboxRow
      row =
          new_row env (tick third) id topic_order_status_updated (env.uuid_text id)
            (encode_status env id to (env.now third.calls))

  update_body-ne-abandon : (w : World) → ¬ ((update_status_body env id to w).0 ≡ ok (abandon tt))
  unfolding update_status_body call
  update_body-ne-abandon w h = ground arith

  -- `UpdateStatus` either fails and leaves every table as it was, or sets the status of the order with
  -- this id, which is there, and adds one audit event and one unsent outbox row for the change.
  pub update_status_all_or_nothing :
      (w : World)
      → let r = update_status env id to w in
        ((e : Error) × (r.0 ≡ err e) × (r.1.db ≡ w.db))
        ⊎ ((r.0 ≡ ok tt) × Updated env id to w.db r.1.db)
  unfolding update_status
  update_status_all_or_nothing w = elim (transaction-Ends env (update_status_body env id to) w) [
    | inl failed ↦ inl failed
    | inr (inl (_, ended, _, _)) ↦ absurd (update_body-ne-abandon (tick w) ended)
    | inr (inr (_, ended, returned, tables)) ↦
        inr (returned, rw tables (update_body-Updated (tick w) ended))
  ]

module _ (env : Env) (up : (n : ℕ) → env.fails n ≡ none) (id : Uuid) (to : Status) where
  update_body_up :
      (w : World)
      → is_known to ≡ true
      → any (has_id id) w.db.orders ≡ true
      → (update_status_body env id to w).0 ≡ ok (commit tt)
  unfolding update_status_body call
  update_body_up w known there = ground (
    arith,
    up w.calls,
    up (tick w).calls,
    up (tick (tick w)).calls,
    rows_affected_of_any (has_id id) w.db.orders there,
  )

  -- Where no call fails, a known status of an order that is there is written.
  pub update_status_up :
      (w : World)
      → is_known to ≡ true
      → any (has_id id) w.db.orders ≡ true
      → (update_status env id to w).0 ≡ ok tt
  unfolding update_status
  update_status_up w known there =
      ap (λ r. r.0)
        (transaction-commit env up (update_status_body env id to) w tt
          (update_body_up (tick w) known there))
