-- ===== src/Outbox/Relay/Growth.antt =====
-- Actions under which the outbox and the Kafka log only grow and stay sound, whatever fails.
use rush_delivery_engine.Prelude.{
  ℕ, ◌≤◌, ◌<◌, ◌≡◌, refl, sym, ap, ◌∙◌, subst, inl, inr, Bool, true, false, if◌then◌else◌, String,
  List, [], ◌∷◌, ◌++◌, All, arith, append_assoc, append-nil, Option-cases,
}
use rush_delivery_engine.Platform.{Uuid, Env}
use rush_delivery_engine.Wire.{Object, Body, Message}
use rush_delivery_engine.Store.Errors as Errors
use rush_delivery_engine.Store.Errors.{Result, ok, err}
use rush_delivery_engine.Store.{OutboxRow, World, Action, continue, pure, wrapped, ◌>>=◌}
use rush_delivery_engine.Store.Tx.{tick, settle_call, call, Ending, transaction}
use rush_delivery_engine.Store.Tx.Laws.{transaction-Ends, transaction-SameOutside}
use rush_delivery_engine.Store.Keeps.{map_err-world}
use rush_delivery_engine.Kafka.Producer.{publish_raw, message}
use rush_delivery_engine.Outbox.{write}
use rush_delivery_engine.Outbox.Relay.{dispatch}
use rush_delivery_engine.Outbox.Relay.Claim.{From}
use rush_delivery_engine.Outbox.Relay.Sequence.{dispatch-seq}
use rush_delivery_engine.Outbox.Relay.Delivery.{Dispatched, failed, delivered, dispatch-Dispatched}
use rush_delivery_engine.Outbox.Relay.NoLoss.{
  IsSound, IsBacked, IsBacked-append, tick-IsSound, write-IsSound, write-Extends, Extends,
  Extends-refl, Extends-trans, dispatch-Extends, dispatch-IsSound,
}

pub record Grows (w v : World) : Type 0 where
  pub more : List Message
  pub sound : IsSound v
  pub rows : Extends w.db.outbox v.db.outbox
  pub log : v.log ≡ w.log ++ more
  pub seq : w.outbox_seq ≤ v.outbox_seq

pub record Safe {A : Type 0} (m : Action A) : Type 0 where
  pub run : (w : World) → IsSound w → Grows w (m w).1

-- It touches neither the outbox, nor its sequence, nor the log.
pub record Quiet {A : Type 0} (m : Action A) : Type 0 where
  pub rows : (w : World) → (m w).1.db.outbox ≡ w.db.outbox
  pub log : (w : World) → (m w).1.log ≡ w.log
  pub seq : (w : World) → (m w).1.outbox_seq ≡ w.outbox_seq

module _ (u v : World) (rows : v.db.outbox ≡ u.db.outbox) (log : v.log ≡ u.log)
    (seq : v.outbox_seq ≡ u.outbox_seq) where
  IsSound-same : IsSound u → IsSound v
  IsSound-same s = record {
    grows = subst (From 0) (sym rows) s.grows;
    below =
        subst (λ n. All (λ (row : OutboxRow). row.id < n) v.db.outbox) (sym seq)
          (subst (All (λ (row : OutboxRow). row.id < u.outbox_seq)) (sym rows) s.below);
    backed =
        subst (λ l. All (IsBacked l) v.db.outbox) (sym log)
          (subst (All (IsBacked u.log)) (sym rows) s.backed);
  }

  pub Grows-same : (w : World) → Grows w u → Grows w v
  Grows-same w g = record {
    more = g.more;
    sound = IsSound-same g.sound;
    rows = subst (Extends w.db.outbox) (sym rows) g.rows;
    log = log ∙ g.log;
    seq = omega (arith, g.seq, seq);
  }

pub Grows-refl : (w : World) → IsSound w → Grows w w
Grows-refl w s = record {
  more = [];
  sound = s;
  rows = Extends-refl w.db.outbox;
  log = sym (append-nil w.log);
  seq = omega arith;
}

pub Grows-trans : (u v w : World) → Grows u v → Grows v w → Grows u w
Grows-trans u v w g h = record {
  more = g.more ++ h.more;
  sound = h.sound;
  rows = Extends-trans u.db.outbox v.db.outbox w.db.outbox g.rows h.rows;
  log = h.log ∙ ap (λ l. l ++ h.more) g.log ∙ append_assoc u.log g.more h.more;
  seq = omega (arith, g.seq, h.seq);
}

below-le :
    (m n : ℕ) (rows : List OutboxRow)
    → m ≤ n
    → All (λ (row : OutboxRow). row.id < m) rows
    → All (λ (row : OutboxRow). row.id < n) rows
below-le m n [] h b = tt
below-le m n (row ∷ rows) h b = (omega (arith, b.0), below-le m n rows h b.1)

-- A rollback keeps the sequence and the log.
rolled_back :
    (w u v : World)
    → v.db.outbox ≡ w.db.outbox
    → v.log ≡ u.log
    → v.outbox_seq ≡ u.outbox_seq
    → IsSound w
    → Grows w u
    → Grows w v
rolled_back w u v rows log seq s g = record {
  more = g.more;
  sound = record {
    grows = subst (From 0) (sym rows) s.grows;
    below =
        subst (All (λ (row : OutboxRow). row.id < v.outbox_seq)) (sym rows)
          (below-le w.outbox_seq v.outbox_seq w.db.outbox (omega (arith, g.seq, seq)) s.below);
    backed =
        subst (λ l. All (IsBacked l) v.db.outbox) (sym (log ∙ g.log))
          (subst (All (IsBacked (w.log ++ g.more))) (sym rows)
            (IsBacked-append w.log g.more w.db.outbox s.backed));
  };
  rows = subst (Extends w.db.outbox) (sym rows) (Extends-refl w.db.outbox);
  log = log ∙ g.log;
  seq = omega (arith, g.seq, seq);
}

module _ {A : Type 0} where
  pub Quiet-Safe : (m : Action A) → Quiet m → Safe m
  Quiet-Safe m h = record {
    run = λ w s. Grows-same w (m w).1 (h.rows w) (h.log w) (h.seq w) w (Grows-refl w s);
  }

  pub pure-Safe : (a : A) → Safe (pure a)
  pure-Safe a = record { run = Grows-refl }

  pub if-Safe : (b : Bool) (m n : Action A) → Safe m → Safe n → Safe (if b then m else n)
  if-Safe true m n hm hn = hm
  if-Safe false m n hm hn = hn

  continue-Safe :
      {B : Type 0} (r : Result A) (f : A → Action B) → ((a : A) → Safe (f a)) → Safe (continue r f)
  continue-Safe (ok a) f h = record { run = (h a).run }
  continue-Safe (err e) f h = record { run = Grows-refl }

  pub bind-Safe :
      {B : Type 0} (m : Action A) (f : A → Action B)
      → Safe m
      → ((a : A) → Safe (f a))
      → Safe (m >>= f)
  bind-Safe m f hm hf = record {
    run = λ w s.
        let g = hm.run w s in
        Grows-trans w (m w).1 ((m >>= f) w).1 g ((continue-Safe (m w).0 f hf).run (m w).1 g.sound);
  }

  pub wrapped-Safe : (text : String) (m : Action A) → Safe m → Safe (wrapped text m)
  wrapped-Safe text m h = record {
    run = λ w s. subst (Grows w) (sym (map_err-world (Errors.wrap text) (m w))) (h.run w s);
  }

ticked : (w : World) → IsSound w → Grows w (tick w)
ticked w s = Grows-same w (tick w) refl refl refl w (Grows-refl w s)

module _ {A : Type 0} (env : Env) where
  called :
      (op : Action A) (w : World)
      → ((v : World) → IsSound v → Grows v (op v).1)
      → IsSound w
      → Grows w (call env op w).1
  unfolding call
  called op w h s = elim (Option-cases (env.fails w.calls)) [
    | inl up ↦
        rw (up, settle_call)
          (Grows-trans w (tick w) (op (tick w)).1 (ticked w s) (h (tick w) (tick-IsSound env w s)))
    | inr (_, down) ↦ rw (down, settle_call) (ticked w s)
  ]

  pub call-Safe : (op : Action A) → Safe op → Safe (call env op)
  call-Safe op h = record { run = λ w s. called op w h.run s }

  in_transaction :
      (body : Action (Ending A)) (w : World)
      → IsSound w
      → Grows w (body (tick w)).1
      → Grows w (transaction env body w).1
  in_transaction body w s after_body = elim (transaction-SameOutside env body w) [
    | inl (_, _, same, out) ↦
        Grows-same w _ (ap (λ db. db.outbox) same) out.log out.outbox_seq w (Grows-refl w s)
    | inr out ↦ elim (transaction-Ends env body w) [
      | inl (_, _, same) ↦
          rolled_back w _ _ (ap (λ db. db.outbox) same) out.log out.outbox_seq s after_body
      | inr (inl (_, _, _, same)) ↦
          rolled_back w _ _ (ap (λ db. db.outbox) same) out.log out.outbox_seq s after_body
      | inr (inr (_, _, _, left)) ↦
          Grows-same _ _ (ap (λ db. db.outbox) left) out.log out.outbox_seq w after_body
    ]
  ]

  -- A transaction is safe if its body is.
  pub transaction-Safe : (body : Action (Ending A)) → Safe body → Safe (transaction env body)
  transaction-Safe body h = record {
    run = λ w s.
        let t = ticked w s in
        in_transaction body w s
          (Grows-trans w (tick w) (body (tick w)).1 t (h.run (tick w) t.sound));
  }

module _ (env : Env) (id : Uuid) (topic key : String) (payload : Object) where
  written : (w : World) → IsSound w → Grows w (write env id topic key payload w).1
  unfolding write call
  written w s = record {
    more = [];
    sound = write-IsSound env id topic key payload w s;
    rows = write-Extends env id topic key payload w;
    log = same_log ∙ sym (append-nil w.log);
    seq = grown;
  }
    where
      same_log : (write env id topic key payload w).1.log ≡ w.log
      same_log = ground arith

      grown : w.outbox_seq ≤ (write env id topic key payload w).1.outbox_seq
      grown = ground arith

  pub write-Safe : Safe (write env id topic key payload)
  write-Safe = record { run = written }

pub publish-Safe :
    (env : Env) (topic key : String) (body : Body) → Safe (publish_raw env topic key body)
unfolding publish_raw
publish-Safe env topic key body =
    call-Safe env (λ w. (ok tt, record w { log = w.log ++ message env topic key body ∷ [] }))
      (record { run = logged })
  where
    logged :
        (w : World)
        → IsSound w
        → Grows w (record w { log = w.log ++ message env topic key body ∷ [] })
    logged w s = record {
      more = message env topic key body ∷ [];
      sound = record {
        grows = s.grows;
        below = s.below;
        backed = IsBacked-append w.log (message env topic key body ∷ []) w.db.outbox s.backed;
      };
      rows = Extends-refl w.db.outbox;
      log = refl;
      seq = omega arith;
    }

module _ (env : Env) (locked : OutboxRow → Bool) (w : World) where
  pub dispatch-Grows : IsSound w → Grows w (dispatch env locked w).1
  dispatch-Grows s =
      let (more, log) = logged (dispatch-Dispatched env locked w 0 s.grows) in
      record {
        more = more;
        sound = dispatch-IsSound env locked w s;
        rows = dispatch-Extends env locked w s;
        log = log;
        seq = omega (arith, dispatch-seq env locked w);
      }
    where
      logged :
          Dispatched env locked w (dispatch env locked w)
          → (more : List Message) × ((dispatch env locked w).1.log ≡ w.log ++ more)
      logged (failed done rest e split left log db) = (_, log)
      logged (delivered now done log db) = (_, log)
