-- ===== src/Outbox/Relay/Sequence.antt =====
-- A dispatch draws no id from the sequence of the outbox.
use rush_delivery_engine.Prelude.{
  ◌≡◌, refl, ◌∙◌, inl, inr, Bool, List, [], ◌∷◌, arith, Option-cases,
}
use rush_delivery_engine.Platform.{Env}
use rush_delivery_engine.Store.{OutboxRow, World}
use rush_delivery_engine.Store.Tx.{tick, call, settle_call}
use rush_delivery_engine.Store.Tx.Laws.{transaction-SameOutside}
use rush_delivery_engine.Outbox.Relay.Delivery.{published, publish_all-cons}
use rush_delivery_engine.Outbox.Relay.{
  batch_size, claim, publish_all, mark_sent, dispatch_rows, dispatch_body, dispatch,
}

module _ (env : Env) where
  publish_all-seq :
      (rows : List OutboxRow) (w : World) → (publish_all env rows w).1.outbox_seq ≡ w.outbox_seq
  unfolding publish_all
  publish_all-seq [] w = refl
  publish_all-seq (row ∷ rows) w = elim (Option-cases (env.fails w.calls)) [
    | inl up ↦
        rw (publish_all-cons env row rows w up)
          (ground (arith, publish_all-seq rows (published env row w)))
    | inr (s, down) ↦ ground arith
  ]

  rows-seq :
      (batch : List OutboxRow) (w : World) → (dispatch_rows env batch w).1.outbox_seq ≡ w.outbox_seq
  unfolding dispatch_rows mark_sent
  rows-seq [] w = refl
  rows-seq (row ∷ rows) w = ground (arith, publish_all-seq (row ∷ rows) w)

  body-seq :
      (locked : OutboxRow → Bool) (w : World)
      → (dispatch_body env locked w).1.outbox_seq ≡ w.outbox_seq
  unfolding dispatch_body call
  body-seq locked w = elim (Option-cases (env.fails w.calls)) [
    | inl up ↦ rw (up, settle_call) (rows-seq (claim batch_size locked w.db.outbox) (tick w))
    | inr (s, down) ↦ ground arith
  ]

  pub dispatch-seq :
      (locked : OutboxRow → Bool) (w : World) → (dispatch env locked w).1.outbox_seq ≡ w.outbox_seq
  unfolding dispatch
  dispatch-seq locked w = elim (transaction-SameOutside env (dispatch_body env locked) w) [
    | inl (_, _, _, out) ↦ out.outbox_seq
    | inr out ↦ out.outbox_seq ∙ body-seq locked (tick w)
  ]
