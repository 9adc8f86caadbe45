-- ===== src/Store.antt =====
-- The state that the services share: the Postgres tables (migrations/), the Redis geo index, the Kafka
-- log, the counters of business events, and what was sent to customers; and an action on it that may
-- fail.
pub mod Errors
pub mod Keeps
pub mod Tx
use rush_delivery_engine.Prelude.{ℕ, Option, none, some, String, List, [], ◌∷◌, ◌++◌}
use rush_delivery_engine.Platform.{Uuid, Time, Trace, GeoMember}
use rush_delivery_engine.Wire.{Object, Message}
use rush_delivery_engine.Order.Model.{Order}
use rush_delivery_engine.Rider.Model.{Rider}
use rush_delivery_engine.Notification.Model.{Push}
use Errors.{Result, ok, err}

-- migrations/003_create_order_events.up.sql
pub record OrderEvent : Type 0 where
  pub order_id : Uuid
  pub event_type : String
  pub payload : Object
  pub created_at : Time

-- migrations/004_create_outbox.up.sql and 005_outbox_trace_context.up.sql
pub record OutboxRow : Type 0 where
  pub id : ℕ
  pub aggregate_id : Uuid
  pub topic : String
  pub partition_key : String
  pub payload : Object
  pub trace_context : Option Trace
  pub created_at : Time
  pub sent_at : Option Time

-- The tables, each in the order in which its rows were inserted.
pub record Db : Type 0 where
  pub orders : List Order
  pub riders : List Rider
  pub order_events : List OrderEvent
  pub outbox : List OutboxRow

-- `pushes` are the broadcasts, in their order. `calls` counts the calls to servers so far. `outbox_seq` is the sequence behind `outbox.id`, which a
-- rollback does not turn back.
pub record World : Type 0 where
  pub db : Db
  pub geo : List GeoMember
  pub log : List Message
  pub metrics : List String
  pub pushes : List Push
  pub outbox_seq : ℕ
  pub calls : ℕ

abbrev pub Action : Type 0 → Type 0
Action A = World → Result A × World

abbrev pub continue : {A B : Type 0} → Result A → (A → Action B) → Action B
continue (ok a) f w = f a w
continue (err e) f w = (err e, w)

infixl 5 ◌>>=◌ ◌>>◌
abbrev pub ◌>>=◌ : {A B : Type 0} → Action A → (A → Action B) → Action B
◌>>=◌ m f w = let (r, w') = m w in continue r f w'

abbrev pub ◌>>◌ : {A B : Type 0} → Action A → Action B → Action B
m >> n = m >>= λ _. n

abbrev pub pure : {A : Type 0} → A → Action A
pure a w = (ok a, w)

abbrev pub raise : {A : Type 0} → Errors.Error → Action A
raise e w = (err e, w)

-- `if err != nil { return …, f(err) }`
abbrev pub map_err :
    {A : Type 0} → (Errors.Error → Errors.Error) → Result A × World → Result A × World
map_err f (ok a, w) = (ok a, w)
map_err f (err e, w) = (err (f e), w)

abbrev pub wrapped : {A : Type 0} → String → Action A → Action A
wrapped text m w = map_err (Errors.wrap text) (m w)

-- `if errors.Is(err, pgx.ErrNoRows) { return nil, instead }`
abbrev instead_of_no_rows : Errors.Error → Errors.Error → Errors.Error
instead_of_no_rows instead Errors.no_rows = instead
instead_of_no_rows instead e = e

abbrev pub on_no_rows : {A : Type 0} → Errors.Error → Action A → Action A
on_no_rows instead m w = map_err (instead_of_no_rows instead) (m w)

-- `QueryRow(…).Scan(…)`
abbrev pub row_or_none : {A : Type 0} → Option A → Action A
row_or_none none w = (err Errors.no_rows, w)
row_or_none (some a) w = (ok a, w)

-- A check that has no effect.
abbrev pub lift : {A : Type 0} → Result A → Action A
lift r w = (r, w)

-- `metrics.IncEvent`
abbrev pub inc_event : String → Action (Unit {0})
inc_event event w = (ok tt, record w { metrics = w.metrics ++ event ∷ [] })
