-- ===== src/Assignment/Service/Cancellation.antt =====
-- `markCancelled` of internal/assignment/service.go, whatever calls fail.
use rush_delivery_engine.Prelude.{
  ℕ, ◌≡◌, refl, ◌⊎◌, inl, inr, true, none, [], ◌∷◌, ◌++◌, arith, String, any, any_of_rows_affected,
  rows_affected, update_where, update_where-unaffected, Zero-cases,
}
use rush_delivery_engine.Platform.{Uuid, Env}
use rush_delivery_engine.Kafka.Topics.{topic_order_status_updated}
use rush_delivery_engine.Store.Errors.{Error, ok, err}
use rush_delivery_engine.Store.{OutboxRow, Db, World}
use rush_delivery_engine.Store.Tx.{tick, call, commit, abandon}
use rush_delivery_engine.Store.Tx.Laws.{transaction-Ends}
use rush_delivery_engine.Outbox.{new_row}
use rush_delivery_engine.Order.Model.{Order, cancelled}
use rush_delivery_engine.Assignment.Model.{encode_no_rider}
use rush_delivery_engine.Assignment.Service.{is_cancellable, cancelled_body, mark_cancelled}

-- The order is cancelled, with one unsent outbox row and no audit event.
pub record Cancelled (env : Env) (id : Uuid) (reason : String) (before after : Db) : Type 0 where
  pub changed : ℕ
  pub now : ℕ
  pub row : OutboxRow
  pub was_placed : any (is_cancellable id) before.orders ≡ true
  pub orders :
      after.orders
      ≡ update_where
          (is_cancellable id)
          (λ o. record o { status = cancelled; updated_at = changed })
          before.orders
  pub rows : after.outbox ≡ before.outbox ++ row ∷ []
  pub row_key : row.partition_key ≡ env.uuid_text id
  pub topic : row.topic ≡ topic_order_status_updated
  pub unsent : row.sent_at ≡ none
  pub payload :
      row.payload
      ≡ encode_no_rider env
          (record { order_id = id; status = "CANCELLED"; reason = reason; changed_at = now })
  pub same_events : after.order_events ≡ before.order_events
  pub same_riders : after.riders ≡ before.riders

module _ (env : Env) (id : Uuid) (reason : String) where
  cancelled_body-cases :
      (w : World)
      → (cancelled_body env id reason w).0 ≡ ok (commit tt)
      → (((cancelled_body env id reason w).1.db ≡ w.db)
          × (rows_affected (is_cancellable id) w.db.orders ≡ 0))
        ⊎ Cancelled env id reason w.db (cancelled_body env id reason w).1.db
  unfolding cancelled_body call
  cancelled_body-cases w h = elim (Zero-cases (rows_affected (is_cancellable id) w.db.orders)) [
    | inl none_hit ↦ inl (
      ground (
        arith,
        update_where-unaffected (is_cancellable id)
            (λ (o : Order). record o { status = cancelled; updated_at = env.now (tick w).calls })
            w.db.orders none_hit,
      ),
      none_hit,
    )
    | inr hit ↦ inr (record {
      changed = env.now (tick w).calls;
      now = env.now (tick w).calls;
      row = row;
      was_placed = any_of_rows_affected (is_cancellable id) w.db.orders hit;
      orders = ground arith;
      rows = ground arith;
      row_key = refl;
      topic = refl;
      unsent = refl;
      payload = refl;
      same_events = ground arith;
      same_riders = ground arith;
    })
  ]
    where
      row : OutboxRow
      row = new_row env (tick (tick w)) id topic_order_status_updated (env.uuid_text id) (
          encode_no_rider env (record {
            order_id = id;
            status = "CANCELLED";
            reason = reason;
            changed_at = env.now (tick w).calls;
          }))

  cancelled_body-ne-abandon : (w : World) → ¬ ((cancelled_body env id reason w).0 ≡ ok (abandon tt))
  unfolding cancelled_body call
  cancelled_body-ne-abandon w h = ground arith

  -- `markCancelled` fails, or finds no PLACED order with this id, and leaves the tables as they were; or
  -- it cancels the PLACED order and adds one unsent outbox row with the reason, and no audit event.
  pub mark_cancelled_all_or_nothing :
      (w : World)
      → let r = mark_cancelled env id reason w in
        ((e : Error) × (r.0 ≡ err e) × (r.1.db ≡ w.db))
        ⊎ ((r.0 ≡ ok tt)
            × (((r.1.db ≡ w.db) × (rows_affected (is_cancellable id) w.db.orders ≡ 0))
                ⊎ Cancelled env id reason w.db r.1.db))
  unfolding mark_cancelled
  mark_cancelled_all_or_nothing w = elim (transaction-Ends env (cancelled_body env id reason) w) [
    | inl failed ↦ inl failed
    | inr (inl (_, ended, _, _)) ↦ absurd (cancelled_body-ne-abandon (tick w) ended)
    | inr (inr (_, ended, returned, tables)) ↦
        inr (returned, rw tables (cancelled_body-cases (tick w) ended))
  ]
