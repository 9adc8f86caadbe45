-- ===== src/Outbox/Relay/NoLoss.antt =====
-- The soundness of the outbox, what it is to lose no row, and that a write and a dispatch keep both.
use rush_delivery_engine.Prelude.{
  ℕ, zero, suc, ◌+◌, ◌<◌, ◌≡◌, refl, ◌⊎◌, inl, inr, Bool, none, String, List, [], ◌∷◌, ◌++◌, map,
  arith, take, select, Bool-cases, Option-cases, All, All-append, append_shift,
}
use rush_delivery_engine.Platform.{Uuid, Env}
use rush_delivery_engine.Wire.{Object, json, Message}
use rush_delivery_engine.Kafka.Producer.{message}
use rush_delivery_engine.Store.Errors.{Result}
use rush_delivery_engine.Store.{OutboxRow, World}
use rush_delivery_engine.Outbox.Relay.Sequence.{dispatch-seq}
use rush_delivery_engine.Store.Tx.{tick, settle_call}
use rush_delivery_engine.Outbox.{new_row, add_row, write}
use rush_delivery_engine.Outbox.Relay.{batch_size, is_free, message_of, set_sent, dispatch}
use rush_delivery_engine.Outbox.Relay.Claim.{From, From-append, update_first}
use rush_delivery_engine.Outbox.Relay.Delivery.{Dispatched, failed, delivered, dispatch-Dispatched}

-- The message is the event of the row.
abbrev pub Carries : OutboxRow → Message → Type 0
Carries row m = (m.topic ≡ row.topic) × (m.key ≡ row.partition_key) × (m.value ≡ json row.payload)

abbrev pub IsLogged : OutboxRow → List Message → Type 0
IsLogged row [] = ⊥
IsLogged row (m ∷ log) = Carries row m ⊎ IsLogged row log

abbrev pub IsBacked : List Message → OutboxRow → Type 0
IsBacked log row = (row.sent_at ≡ none) ⊎ IsLogged row log

-- The ids grow along the table and stay below the sequence, and every row that is marked as sent is in
-- the log.
pub record IsSound (w : World) : Type 0 where
  pub grows : From 0 w.db.outbox
  pub below : All (λ (row : OutboxRow). row.id < w.outbox_seq) w.db.outbox
  pub backed : All (IsBacked w.log) w.db.outbox

IsLogged-append_left :
    (row : OutboxRow) (log more : List Message) → IsLogged row log → IsLogged row (log ++ more)
IsLogged-append_left row (m ∷ log) more (inl here) = inl here
IsLogged-append_left row (m ∷ log) more (inr later) = inr (IsLogged-append_left row log more later)
IsLogged-append_left row [] more none_there = absurd none_there

IsLogged-append_right :
    (row : OutboxRow) (log more : List Message) → IsLogged row more → IsLogged row (log ++ more)
IsLogged-append_right row [] more there = there
IsLogged-append_right row (m ∷ log) more there = inr (IsLogged-append_right row log more there)

pub IsBacked-append :
    (log more : List Message) (rows : List OutboxRow)
    → All (IsBacked log) rows
    → All (IsBacked (log ++ more)) rows
IsBacked-append log more [] h = tt
IsBacked-append log more (row ∷ rows) h = (keep h.0, IsBacked-append log more rows h.1)
  where
    keep : IsBacked log row → IsBacked (log ++ more) row
    keep (inl unsent) = inl unsent
    keep (inr logged) = inr (IsLogged-append_left row log more logged)

module _ (p : OutboxRow → Bool) (now : ℕ) where
  From-update_first :
      (n k : ℕ) (rows : List OutboxRow)
      → From n rows
      → From n (update_first k p (set_sent now) rows)
  From-update_first n zero rows f = f
  From-update_first n (suc k) [] f = f
  From-update_first n (suc k) (row ∷ rows) f = ground (
    arith,
    From-update_first (suc row.id) k rows f.1,
    From-update_first (suc row.id) (suc k) rows f.1,
  )

  below-update_first :
      (n k : ℕ) (rows : List OutboxRow)
      → All (λ (row : OutboxRow). row.id < n) rows
      → All (λ (row : OutboxRow). row.id < n) (update_first k p (set_sent now) rows)
  below-update_first n zero rows f = f
  below-update_first n (suc k) [] f = f
  below-update_first n (suc k) (row ∷ rows) f =
      ground (arith, below-update_first n k rows f.1, below-update_first n (suc k) rows f.1)

  IsBacked-update_first :
      (log : List Message) (k : ℕ) (rows : List OutboxRow)
      → All (IsBacked log) rows
      → All (λ row. IsLogged row log) (take k (select p rows))
      → All (IsBacked log) (update_first k p (set_sent now) rows)
  IsBacked-update_first log zero rows h logged = h
  IsBacked-update_first log (suc k) [] h logged = tt
  IsBacked-update_first log (suc k) (row ∷ rows) h logged = elim (Bool-cases (p row)) [
    | inl hit ↦
        let both : IsLogged row log × All (λ r. IsLogged r log) (take k (select p rows)) =
          rw hit at logged in
        rw hit (inr both.0, IsBacked-update_first log k rows h.1 both.1)
    | inr miss ↦ rw miss (h.0, IsBacked-update_first log (suc k) rows h.1 (rw miss at logged))
  ]

below-suc :
    (n : ℕ) (rows : List OutboxRow)
    → All (λ (row : OutboxRow). row.id < n) rows
    → All (λ (row : OutboxRow). row.id < n + 1) rows
below-suc n [] h = tt
below-suc n (row ∷ rows) h = (omega arith, below-suc n rows h.1)

module _ (env : Env) where
  -- A published row is in the log.
  IsLogged-All :
      (log : List Message) (rows : List OutboxRow)
      → All (λ row. IsLogged row (log ++ map (message_of env) rows)) rows
  unfolding message
  IsLogged-All log [] = tt
  IsLogged-All log (row ∷ rows) = (
    IsLogged-append_right row log (map (message_of env) (row ∷ rows)) (inl (refl, refl, refl)),
    rw append_shift at (IsLogged-All (log ++ message_of env row ∷ []) rows),
  )

  ended-IsSound :
      (locked : OutboxRow → Bool) (w : World) (r : Result (Unit {0}) × World)
      → IsSound w
      → r.1.outbox_seq ≡ w.outbox_seq
      → Dispatched env locked w r
      → IsSound r.1
  ended-IsSound locked w r s seq (failed done rest e split left log db) = record {
    grows = rw db s.grows;
    below = rw (db, seq) s.below;
    backed = rw (db, log) (IsBacked-append w.log (map (message_of env) done) w.db.outbox s.backed);
  }
  ended-IsSound locked w r s seq (delivered now done log db) = record {
    grows = rw db (From-update_first p now 0 batch_size w.db.outbox s.grows);
    below = rw (db, seq) (below-update_first p now w.outbox_seq batch_size w.db.outbox s.below);
    backed =
        rw (db, log)
          (IsBacked-update_first p now (w.log ++ more) batch_size w.db.outbox
            (IsBacked-append w.log more w.db.outbox s.backed) (IsLogged-All w.log batch));
  }
    where
      p : OutboxRow → Bool
      p = is_free locked

      batch : List OutboxRow
      batch = take batch_size (select p w.db.outbox)

      more : List Message
      more = map (message_of env) batch

  pub dispatch-IsSound :
      (locked : OutboxRow → Bool) (w : World) → IsSound w → IsSound (dispatch env locked w).1
  dispatch-IsSound locked w s =
      ended-IsSound locked w (dispatch env locked w) s (dispatch-seq env locked w)
        (dispatch-Dispatched env locked w 0 s.grows)

  added-IsSound :
      (row : OutboxRow) (w : World)
      → row.id ≡ w.outbox_seq
      → row.sent_at ≡ none
      → IsSound w
      → IsSound (add_row row w)
  added-IsSound row w drawn unsent s = record {
    grows = From-append 0 w.db.outbox row (omega arith) (rw drawn s.below) s.grows;
    below =
        All-append (λ (r : OutboxRow). r.id < w.outbox_seq + 1) w.db.outbox (row ∷ [])
          (below-suc w.outbox_seq w.db.outbox s.below) (omega arith, tt);
    backed = All-append (IsBacked w.log) w.db.outbox (row ∷ []) s.backed (inl unsent, tt);
  }

  pub tick-IsSound : (w : World) → IsSound w → IsSound (tick w)
  tick-IsSound w s = record { grows = s.grows; below = s.below; backed = s.backed }

  pub write-IsSound :
      (id : Uuid) (topic key : String) (payload : Object) (w : World)
      → IsSound w
      → IsSound (write env id topic key payload w).1
  unfolding write
  write-IsSound id topic key payload w s = elim (Option-cases (env.fails w.calls)) [
    | inl up ↦
        rw (up, settle_call)
          (added-IsSound (new_row env (tick w) id topic key payload) (tick w) refl refl
            (tick-IsSound w s))
    | inr (_, down) ↦ rw (down, settle_call) (tick-IsSound w s)
  ]

-- The rows of the first table are those at the head of the second, but for the mark.
abbrev pub Extends : List OutboxRow → List OutboxRow → Type 0
Extends [] later = Unit {0}
Extends (row ∷ rows) [] = ⊥
Extends (row ∷ rows) (r ∷ later) = (r ≡ record row { sent_at = r.sent_at }) × Extends rows later

pub Extends-refl : (rows : List OutboxRow) → Extends rows rows
Extends-refl [] = tt
Extends-refl (row ∷ rows) = (refl, Extends-refl rows)

pub Extends-trans : (a b c : List OutboxRow) → Extends a b → Extends b c → Extends a c
Extends-trans [] b c h k = tt
Extends-trans (x ∷ a) [] c h k = absurd h
Extends-trans (x ∷ a) (y ∷ b) [] h k = absurd k
Extends-trans (x ∷ a) (y ∷ b) (z ∷ c) h k = (ground arith, Extends-trans a b c h.1 k.1)

pub Extends-append : (rows : List OutboxRow) (row : OutboxRow) → Extends rows (rows ++ row ∷ [])
Extends-append [] row = tt
Extends-append (r ∷ rows) row = (refl, Extends-append rows row)

Extends-update_first :
    (p : OutboxRow → Bool) (now k : ℕ) (rows : List OutboxRow)
    → Extends rows (update_first k p (set_sent now) rows)
Extends-update_first p now zero rows = Extends-refl rows
Extends-update_first p now (suc k) [] = tt
Extends-update_first p now (suc k) (row ∷ rows) =
    ground (arith, Extends-update_first p now k rows, Extends-update_first p now (suc k) rows)

pub write-Extends :
    (env : Env) (id : Uuid) (topic key : String) (payload : Object) (w : World)
    → Extends w.db.outbox (write env id topic key payload w).1.db.outbox
unfolding write
write-Extends env id topic key payload w = elim (Option-cases (env.fails w.calls)) [
  | inl up ↦
      rw (up, settle_call) (Extends-append w.db.outbox (new_row env (tick w) id topic key payload))
  | inr (_, down) ↦ rw (down, settle_call) (Extends-refl w.db.outbox)
]

pub dispatch-Extends :
    (env : Env) (locked : OutboxRow → Bool) (w : World)
    → IsSound w
    → Extends w.db.outbox (dispatch env locked w).1.db.outbox
dispatch-Extends env locked w s = dispatched (dispatch-Dispatched env locked w 0 s.grows)
  where
    dispatched :
        Dispatched env locked w (dispatch env locked w)
        → Extends w.db.outbox (dispatch env locked w).1.db.outbox
    dispatched (failed done rest e split left log db) = rw db (Extends-refl w.db.outbox)
    dispatched (delivered now done log db) =
        rw db (Extends-update_first (is_free locked) now batch_size w.db.outbox)
