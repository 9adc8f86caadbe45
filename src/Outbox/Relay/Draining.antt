-- ===== src/Outbox/Relay/Draining.antt =====
-- A relay drains the outbox: where no server fails and nothing is locked, each tick takes a whole batch
-- off the queue.
use rush_delivery_engine.Prelude.{
  ℕ, zero, suc, ◌-◌, ◌*◌, ◌≤◌, ◌≡◌, ◌⊎◌, inl, inr, refl, ap, Bool, false, none, List, [], ◌∷◌,
  arith, length, select, replicate,
}
use rush_delivery_engine.Platform.{Env}
use rush_delivery_engine.Store.Errors.{ok}
use rush_delivery_engine.Store.{OutboxRow, World}
use rush_delivery_engine.Store.Tx.{tick, call, settle_call, commit, abandon}
use rush_delivery_engine.Store.Tx.Laws.{transaction-commit, transaction-abandon}
use rush_delivery_engine.Outbox.Relay.{
  batch_size, is_unsent, is_free, claim, publish_all, mark_sent, set_sent, dispatch_rows,
  dispatch_body, dispatch, run,
}
use rush_delivery_engine.Outbox.Relay.Claim.{ids_of, update_first}
use rush_delivery_engine.Outbox.Relay.Delivery.{
  published, publish_all-cons, Dispatched, failed, delivered, dispatch-Dispatched,
}
use rush_delivery_engine.Outbox.Relay.NoLoss.{IsSound, dispatch-IsSound}

-- The rows that wait for a dispatch.
abbrev pub waiting : World → ℕ
waiting w = length (select is_unsent w.db.outbox)

abbrev unlocked : OutboxRow → Bool
unlocked row = false

waiting-update_first :
    (now k : ℕ) (rows : List OutboxRow)
    → length (select is_unsent (update_first k (is_free unlocked) (set_sent now) rows))
      ≡ length (select is_unsent rows) - k
waiting-update_first now zero rows = omega arith
waiting-update_first now (suc k) [] = omega arith
waiting-update_first now (suc k) (row ∷ rows) =
    ground (arith, waiting-update_first now k rows, waiting-update_first now (suc k) rows)

module _ (env : Env) (up : (n : ℕ) → env.fails n ≡ none) where
  publish_all-ok :
      (rows : List OutboxRow) (w : World) → (publish_all env rows w).0 ≡ ok (ids_of rows)
  unfolding publish_all
  publish_all-ok [] w = refl
  publish_all-ok (row ∷ rows) w =
      rw (publish_all-cons env row rows w (up w.calls))
        (ground (arith, publish_all-ok rows (published env row w)))

  rows-ok :
      (batch : List OutboxRow) (w : World)
      → ((dispatch_rows env batch w).0 ≡ ok (commit tt))
        ⊎ ((dispatch_rows env batch w).0 ≡ ok (abandon tt))
  unfolding dispatch_rows mark_sent
  rows-ok [] w = inr refl
  rows-ok (row ∷ rows) w =
      inl
        (ground (arith, publish_all-ok (row ∷ rows) w, up (publish_all env (row ∷ rows) w).1.calls))

  body-ok :
      (locked : OutboxRow → Bool) (w : World)
      → ((dispatch_body env locked w).0 ≡ ok (commit tt))
        ⊎ ((dispatch_body env locked w).0 ≡ ok (abandon tt))
  unfolding dispatch_body call
  body-ok locked w =
      rw (up w.calls, settle_call) (rows-ok (claim batch_size locked w.db.outbox) (tick w))

  dispatch-ok : (locked : OutboxRow → Bool) (w : World) → (dispatch env locked w).0 ≡ ok tt
  unfolding dispatch
  dispatch-ok locked w = elim (body-ok locked (tick w)) [
    | inl h ↦ ap (λ r. r.0) (transaction-commit env up (dispatch_body env locked) w tt h)
    | inr h ↦ ap (λ r. r.0) (transaction-abandon env up (dispatch_body env locked) w tt h)
  ]

  waiting-dispatch :
      (w : World) → IsSound w → waiting (dispatch env unlocked w).1 ≡ waiting w - batch_size
  waiting-dispatch w s = go (dispatch-Dispatched env unlocked w 0 s.grows)
    where
      go :
          Dispatched env unlocked w (dispatch env unlocked w)
          → waiting (dispatch env unlocked w).1 ≡ waiting w - batch_size
      go (failed done rest e split left log db) = cc (dispatch-ok unlocked w)
      go (delivered now done log db) = rw db (waiting-update_first now batch_size w.db.outbox)

  -- Where no call fails and no row is locked: from a sound state with at most `k` batches of
  -- unsent rows, `k` ticks leave no row unsent.
  pub run-drains :
      (k : ℕ) (w : World)
      → IsSound w
      → waiting w ≤ k * batch_size
      → waiting (run env (replicate k (λ row. false)) w) ≡ 0
  unfolding run
  run-drains zero w s h = omega arith
  run-drains (suc k) w s h =
      run-drains k (dispatch env unlocked w).1 (dispatch-IsSound env unlocked w s)
        (omega (arith, waiting-dispatch w s))
