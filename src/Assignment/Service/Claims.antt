-- ===== src/Assignment/Service/Claims.antt =====
-- `claimRider` of internal/assignment/service.go, whatever calls fail.
use rush_delivery_engine.Prelude.{
  ℕ, ◌≡◌, ◌≢◌, refl, ◌⊎◌, inl, inr, true, false, none, some, List, [], ◌∷◌, ◌++◌, arith, any,
  any_of_rows_affected, rows_affected, update_where,
}
use rush_delivery_engine.Platform.{Uuid, Env}
use rush_delivery_engine.Kafka.Topics.{topic_order_assigned}
use rush_delivery_engine.Store.Errors.{Error, ok, err}
use rush_delivery_engine.Store.{OrderEvent, OutboxRow, Db, World}
use rush_delivery_engine.Store.Tx.{tick, call, commit, abandon}
use rush_delivery_engine.Store.Tx.Laws.{transaction-Ends}
use rush_delivery_engine.Outbox.{new_row}
use rush_delivery_engine.Order.Repository.{has_id}
use rush_delivery_engine.Rider.Model.{Rider, busy}
use rush_delivery_engine.Assignment.Model.{encode_assigned}
use rush_delivery_engine.Assignment.Service.{is_claimable, rider_payload, claim_body, claim_rider}

-- The rider, who was free, is busy; the order has the rider; one audit event and one unsent outbox row
-- say so, and nothing else changed.
pub record Claimed (env : Env) (order_id rider_id : Uuid) (before after : Db) : Type 0 where
  pub taken : ℕ
  pub attached : ℕ
  pub now : ℕ
  pub event : OrderEvent
  pub row : OutboxRow
  pub free : any (is_claimable rider_id) before.riders ≡ true
  pub riders :
      after.riders
      ≡ update_where
          (is_claimable rider_id)
          (λ r. record r { status = busy; updated_at = taken })
          before.riders
  pub orders :
      after.orders
      ≡ update_where
          (has_id order_id)
          (λ o. record o { rider_id = some rider_id; updated_at = attached })
          before.orders
  pub events : after.order_events ≡ before.order_events ++ event ∷ []
  pub rows : after.outbox ≡ before.outbox ++ row ∷ []
  pub event_id : event.order_id ≡ order_id
  pub event_type : event.event_type ≡ "order.assigned"
  pub event_payload : event.payload ≡ rider_payload env rider_id
  pub row_key : row.partition_key ≡ env.uuid_text order_id
  pub topic : row.topic ≡ topic_order_assigned
  pub unsent : row.sent_at ≡ none
  pub payload :
      row.payload
      ≡ encode_assigned env (record { order_id = order_id; rider_id = rider_id; assigned_at = now })

module _ (env : Env) (order_id rider_id : Uuid) where
  claim_body-Claimed :
      (w : World)
      → (claim_body env order_id rider_id w).0 ≡ ok (commit true)
      → Claimed env order_id rider_id w.db (claim_body env order_id rider_id w).1.db
  unfolding claim_body call
  claim_body-Claimed w h = record {
    taken = env.now (tick w).calls;
    attached = env.now (tick (tick w)).calls;
    now = env.now third.calls;
    event = event;
    row = row;
    free = any_of_rows_affected (is_claimable rider_id) w.db.riders (ground arith);
    riders = ground arith;
    orders = ground arith;
    events = ground arith;
    rows = ground arith;
    event_id = refl;
    event_type = refl;
    event_payload = refl;
    row_key = refl;
    topic = refl;
    unsent = refl;
    payload = refl;
  }
    where
      third : World
      third = tick (tick (tick w))

      event : OrderEvent
      event = record {
        order_id = order_id;
        event_type = "order.assigned";
        payload = rider_payload env rider_id;
        created_at = env.now third.calls;
      }

      row : OutboxRow
      row = new_row env (tick third) order_id topic_order_assigned (env.uuid_text order_id) (
          encode_assigned env (record {
            order_id = order_id;
            rider_id = rider_id;
            assigned_at = env.now third.calls;
          }))

  claim_body-ne-lost : (w : World) → ¬ ((claim_body env order_id rider_id w).0 ≡ ok (commit false))
  unfolding claim_body call
  claim_body-ne-lost w h = ground arith

  claim_body-ne-kept : (w : World) → ¬ ((claim_body env order_id rider_id w).0 ≡ ok (abandon true))
  unfolding claim_body call
  claim_body-ne-kept w h = ground arith

  claim_body-lost :
      (w : World)
      → (claim_body env order_id rider_id w).0 ≡ ok (abandon false)
      → rows_affected (is_claimable rider_id) w.db.riders ≡ 0
  unfolding claim_body call
  claim_body-lost w h = ground arith

  -- `claimRider` fails and leaves the tables as they were; or reports a lost claim, the tables as they
  -- were and no row of the rider AVAILABLE; or reports that it won: then the rider was AVAILABLE and is
  -- BUSY, the order has the rider, and one audit event and one unsent outbox row say so.
  pub claim_all_or_nothing :
      (w : World)
      → let r = claim_rider env order_id rider_id w in
        ((e : Error) × (r.0 ≡ err e) × (r.1.db ≡ w.db))
        ⊎ ((r.0 ≡ ok false)
            × (r.1.db ≡ w.db)
            × (rows_affected (is_claimable rider_id) w.db.riders ≡ 0))
        ⊎ ((r.0 ≡ ok true) × Claimed env order_id rider_id w.db r.1.db)
  unfolding claim_rider
  claim_all_or_nothing w = elim (transaction-Ends env (claim_body env order_id rider_id) w) [
    | inl failed ↦ inl failed
    | inr (inl (true, ended, _, _)) ↦ absurd (claim_body-ne-kept (tick w) ended)
    | inr (inl (false, ended, returned, tables)) ↦
        inr (inl (returned, tables, claim_body-lost (tick w) ended))
    | inr (inr (false, ended, _, _)) ↦ absurd (claim_body-ne-lost (tick w) ended)
    | inr (inr (true, ended, returned, tables)) ↦
        inr (inr (returned, rw tables (claim_body-Claimed (tick w) ended)))
  ]

  pub won-Claimed :
      (w : World)
      → (claim_rider env order_id rider_id w).0 ≡ ok true
      → Claimed env order_id rider_id w.db (claim_rider env order_id rider_id w).1.db
  won-Claimed w h = elim (claim_all_or_nothing w) [
    | inl (e, failed, _) ↦ absurd (ground arith)
    | inr (inl (lost, _, _)) ↦ absurd (ground arith)
    | inr (inr (_, claimed)) ↦ claimed
  ]

  pub not_won_unchanged :
      (w : World)
      → (claim_rider env order_id rider_id w).0 ≢ ok true
      → (claim_rider env order_id rider_id w).1.db ≡ w.db
  not_won_unchanged w h = elim (claim_all_or_nothing w) [
    | inl (e, _, tables) ↦ tables
    | inr (inl (_, tables, _)) ↦ tables
    | inr (inr (won, _)) ↦ absurd (h won)
  ]

none_claimable :
    (id taken : ℕ) (riders : List Rider)
    → any (is_claimable id) (
        update_where (is_claimable id) (λ r. record r { status = busy; updated_at = taken }) riders)
      ≡ false
none_claimable id taken [] = refl
none_claimable id taken (r ∷ riders) = ground (arith, none_claimable id taken riders)

-- A rider is won once: after a claim that won the rider, in any state whose riders are as that
-- claim left them, no claim of the same rider for any order wins.
pub claim_exclusive :
    (env env' : Env) (rider_id order_id other_id : Uuid) (w v : World)
    → (claim_rider env order_id rider_id w).0 ≡ ok true
    → v.db.riders ≡ (claim_rider env order_id rider_id w).1.db.riders
    → (claim_rider env' other_id rider_id v).0 ≢ ok true
claim_exclusive env env' rider_id order_id other_id w v first same again =
    let one = won-Claimed env order_id rider_id w first in
    let two = won-Claimed env' other_id rider_id v again in
    absurd
      (ground (arith, two.free, same, one.riders, none_claimable rider_id one.taken w.db.riders))
