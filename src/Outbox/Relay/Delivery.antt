-- ===== src/Outbox/Relay/Delivery.antt =====
-- What a dispatch does to the outbox and to the log of the broker.
use rush_delivery_engine.Prelude.{
  ℕ, ◌≡◌, refl, ap, sym, ◌∙◌, inl, inr, Bool, none, List, [], ◌∷◌, ◌++◌, map, arith, take, select,
  update_where, Option-cases, append_shift, append-nil,
}
use rush_delivery_engine.Platform.{Env}
use rush_delivery_engine.Store.Errors.{Error, Result, ok, err, call_failed, wrap}
use rush_delivery_engine.Store.{OutboxRow, World, continue, pure, wrapped, ◌>>◌}
use rush_delivery_engine.Store.Tx.{tick, settle_call, call, Ending, commit, abandon}
use rush_delivery_engine.Store.Tx.Laws.{Ends, transaction-Ends, transaction-SameOutside}
use rush_delivery_engine.Outbox.Relay.{
  batch_size, is_free, claim, message_of, publish_all, set_sent, is_in, mark_sent, dispatch_rows,
  dispatch_body, dispatch,
}
use rush_delivery_engine.Outbox.Relay.Claim.{
  From, ids_of, claim-eq-take, update_first, update_none, update_where-claimed,
}

-- The loop over a batch published all of it, or it stopped at an error with a first part published.
data Ships (env : Env) (rows : List OutboxRow) (w : World) (r : Result (List ℕ) × World)
    : Type 0 where
  all_of :
      r.0 ≡ ok (ids_of rows)
      → r.1.log ≡ w.log ++ map (message_of env) rows
      → r.1.db ≡ w.db
      → Ships env rows w r
  part_of :
      (done rest : List OutboxRow) (e : Error)
      → rows ≡ done ++ rest
      → r.0 ≡ err e
      → r.1.log ≡ w.log ++ map (message_of env) done
      → r.1.db ≡ w.db
      → Ships env rows w r

module _ (env : Env) where
  abbrev pub published : OutboxRow → World → World
  published row w = record (tick w) { log = w.log ++ message_of env row ∷ [] }

  abbrev pub and_id : ℕ → Result (List ℕ) × World → Result (List ℕ) × World
  and_id id (r, v) = continue r (λ ids. pure (id ∷ ids)) v

  pub publish_all-cons :
      (row : OutboxRow) (rows : List OutboxRow) (w : World)
      → env.fails w.calls ≡ none
      → publish_all env (row ∷ rows) w ≡ and_id row.id (publish_all env rows (published row w))
  unfolding publish_all
  publish_all-cons row rows w up = rw (up, settle_call)

  Ships-cons :
      (row : OutboxRow) (rows : List OutboxRow) (w : World) (r : Result (List ℕ) × World)
      → Ships env rows (published row w) r
      → Ships env (row ∷ rows) w (and_id row.id r)
  Ships-cons row rows w (r, v) (all_of done log db) =
      rw done
        (all_of refl (log ∙ append_shift w.log (map (message_of env) rows) (message_of env row)) db)
  Ships-cons row rows w (r, v) (part_of done rest e split failed log db) = rw failed (
      part_of (row ∷ done) rest e (rw split) refl
        (log ∙ append_shift w.log (map (message_of env) done) (message_of env row)) db)

  publish_all-Ships :
      (rows : List OutboxRow) (w : World) → Ships env rows w (publish_all env rows w)
  unfolding publish_all
  publish_all-Ships [] w = all_of refl (sym (append-nil w.log)) refl
  publish_all-Ships (row ∷ rows) w = elim (Option-cases (env.fails w.calls)) [
    | inl up ↦ rw (publish_all-cons row rows w up) (
        Ships-cons row rows w (publish_all env rows (published row w))
          (publish_all-Ships rows (published row w)))
    | inr (s, down) ↦
        part_of [] (row ∷ rows) (wrap "publish" (call_failed s)) refl (ground arith)
          (ground (arith, append-nil w.log)) (ground arith)
  ]

-- How the body of a dispatch over a batch can end.
data BodyEnds (env : Env) (batch : List OutboxRow) (v : World)
    (r : Result (Ending (Unit {0})) × World) : Type 0 where
  stopped :
      (done rest : List OutboxRow) (e : Error)
      → batch ≡ done ++ rest
      → r.0 ≡ err e
      → r.1.log ≡ v.log ++ map (message_of env) done
      → BodyEnds env batch v r
  idle : batch ≡ [] → r.0 ≡ ok (abandon tt) → r.1.log ≡ v.log → BodyEnds env batch v r
  sent :
      (now : ℕ)
      → r.0 ≡ ok (commit tt)
      → r.1.log ≡ v.log ++ map (message_of env) batch
      → r.1.db
        ≡ record v.db { outbox = update_where (is_in (ids_of batch)) (set_sent now) v.db.outbox }
      → BodyEnds env batch v r

module _ (env : Env) where
  mark-ends :
      (batch : List OutboxRow) (v : World) (r : Result (List ℕ) × World)
      → Ships env batch v r
      → BodyEnds env batch v
          (continue r.0 (λ ids. wrapped "mark sent" (mark_sent env ids) >> pure (commit tt)) r.1)
  unfolding mark_sent
  mark-ends batch v (r, u) (part_of done rest e split failed log db) =
      rw failed (stopped done rest e split refl log)
  mark-ends batch v (r, u) (all_of done log db) = rw done elim (Option-cases (env.fails u.calls)) [
    | inl up ↦ sent (env.now (tick u).calls) (ground arith) (ground arith) (ground arith)
    | inr (s, down) ↦
        stopped batch [] (wrap "mark sent" (call_failed s)) (sym (append-nil batch)) (ground arith)
          (ground arith)
  ]

  rows-ends :
      (batch : List OutboxRow) (v : World) → BodyEnds env batch v (dispatch_rows env batch v)
  unfolding dispatch_rows
  rows-ends [] v = idle refl refl refl
  rows-ends (row ∷ rows) v =
      mark-ends (row ∷ rows) v (publish_all env (row ∷ rows) v)
        (publish_all-Ships env (row ∷ rows) v)

  BodyEnds-tick :
      (batch : List OutboxRow) (v : World) (r : Result (Ending (Unit {0})) × World)
      → BodyEnds env batch (tick v) r
      → BodyEnds env batch v r
  BodyEnds-tick batch v r (stopped done rest e split failed log) =
      stopped done rest e split failed log
  BodyEnds-tick batch v r (idle none_left ended log) = idle none_left ended log
  BodyEnds-tick batch v r (sent now ended log db) = sent now ended log db

  body-ends :
      (locked : OutboxRow → Bool) (v : World)
      → BodyEnds env (claim batch_size locked v.db.outbox) v (dispatch_body env locked v)
  unfolding dispatch_body call
  body-ends locked v = elim (Option-cases (env.fails v.calls)) [
    | inl up ↦
        rw (up, settle_call)
          (BodyEnds-tick _ v _ (rows-ends (claim batch_size locked v.db.outbox) (tick v)))
    | inr (s, down) ↦
        stopped [] (claim batch_size locked v.db.outbox) (wrap "select unsent" (call_failed s)) refl
          (ground arith) (ground (arith, append-nil v.log))
  ]

  -- The first rows, `batch_size` at most, that are unsent and not locked.
  abbrev pub batch_of : (OutboxRow → Bool) → World → List OutboxRow
  batch_of locked w = take batch_size (select (is_free locked) w.db.outbox)

-- How a dispatch can end.
pub data Dispatched (env : Env) (locked : OutboxRow → Bool) (w : World)
    (r : Result (Unit {0}) × World) : Type 0 where
  failed :
      (done rest : List OutboxRow) (e : Error)
      → batch_of env locked w ≡ done ++ rest
      → r.0 ≡ err e
      → r.1.log ≡ w.log ++ map (message_of env) done
      → r.1.db ≡ w.db
      → Dispatched env locked w r
  delivered :
      (now : ℕ)
      → r.0 ≡ ok tt
      → r.1.log ≡ w.log ++ map (message_of env) (batch_of env locked w)
      → r.1.db ≡ record w.db {
        outbox = update_first batch_size (is_free locked) (set_sent now) w.db.outbox;
      }
      → Dispatched env locked w r

module _ (env : Env) (locked : OutboxRow → Bool) (w : World) where
  abbrev batch : List OutboxRow
  batch = batch_of env locked w

  abbrev marked : ℕ → List OutboxRow
  marked now = update_where (is_in (ids_of batch)) (set_sent now) w.db.outbox

  abbrev marked_first : ℕ → List OutboxRow
  marked_first now = update_first batch_size (is_free locked) (set_sent now) w.db.outbox

  module _ (same_marks : (now : ℕ) → marked now ≡ marked_first now) where
    nothing_marked : batch ≡ [] → w.db ≡ record w.db { outbox = marked_first 0 }
    nothing_marked e =
        ap (λ rows. record w.db { outbox = rows })
          (sym (update_none (is_free locked) (set_sent 0) w.db.outbox)
            ∙ ap (λ rows. update_where (is_in (ids_of rows)) (set_sent 0) w.db.outbox) (sym e)
            ∙ same_marks 0)

    assemble :
        (b : Result (Ending (Unit {0})) × World) (r : Result (Unit {0}) × World)
        → BodyEnds env batch w b
        → Ends w.db b r
        → r.1.log ≡ b.1.log
        → Dispatched env locked w r
    assemble b r (stopped done rest e split ended log) (inl (e', left, same)) out =
        failed done rest e' split left (out ∙ log) same
    assemble b r (stopped done rest e split ended log) (inr (inl (a, ended', _, _))) out = cc
    assemble b r (stopped done rest e split ended log) (inr (inr (a, ended', _, _))) out = cc
    assemble b r (idle empty ended log) (inl (e', left, same)) out =
        failed [] batch e' refl left (out ∙ log ∙ sym (append-nil w.log)) same
    assemble b r (idle empty ended log) (inr (inl (a, ended', done, same))) out =
        delivered 0 done
          (out
            ∙ log
            ∙ sym (append-nil w.log)
            ∙ ap (λ rows. w.log ++ map (message_of env) rows) (sym empty))
          (same ∙ nothing_marked empty)
    assemble b r (idle empty ended log) (inr (inr (a, ended', _, _))) out = cc
    assemble b r (sent now ended log db) (inl (e', left, same)) out =
        failed batch [] e' (sym (append-nil batch)) left (out ∙ log) same
    assemble b r (sent now ended log db) (inr (inl (a, ended', _, _))) out = cc
    assemble b r (sent now ended log db) (inr (inr (a, ended', done, tables))) out =
        delivered now done (out ∙ log)
          (tables ∙ db ∙ ap (λ rows. record w.db { outbox = rows }) (same_marks now))

  -- In a table whose ids grow, a dispatch publishes the first free rows in the order of their ids and
  -- marks exactly these, or it fails, with some first part of them published and no row marked.
  pub dispatch-Dispatched :
      (n : ℕ) → From n w.db.outbox → Dispatched env locked w (dispatch env locked w)
  unfolding dispatch
  dispatch-Dispatched n f = elim (transaction-SameOutside env (dispatch_body env locked) w) [
    | inl (e, left, same, out) ↦ failed [] batch e refl left (out.log ∙ sym (append-nil w.log)) same
    | inr out ↦
        assemble
          (λ now. update_where-claimed (is_free locked) (set_sent now) n batch_size w.db.outbox f)
          (dispatch_body env locked (tick w)) (dispatch env locked w)
          (BodyEnds-tick env batch w _ (
            rw (claim-eq-take n batch_size locked w.db.outbox f) at
              (body-ends env locked (tick w))))
          (transaction-Ends env (dispatch_body env locked) w) out.log
  ]
