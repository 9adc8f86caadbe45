-- ===== src/Platform.antt =====
-- What the services stand on and do not implement: 64-bit floats, UUIDs, the clock, trace contexts,
-- and the calls to Postgres, Redis and Kafka, each of which may fail.
use rush_delivery_engine.Prelude.{ℕ, Bool, ◌≡◌, Option, some, String, List}

-- A `uuid.UUID`, read as the number that its 16 bytes write; `uuid.Nil` is 0.
abbrev pub Uuid : Type 0
Uuid = ℕ

-- A `float64`, by its 64 bits; 0 is the bits of 0.0.
abbrev pub Float : Type 0
Float = ℕ

-- A `time.Time`, in nanoseconds after the zero time of Go.
abbrev pub Time : Type 0
Time = ℕ

-- A trace context, as the carrier map that a propagator fills.
abbrev pub Trace : Type 0
Trace = List (String × String)

-- The float operations of Go that the program uses. `of_int` is the value of an integer constant or of
-- an `int`, `to_int` the conversion to `int`, and `as_int` the `int` that a JSON number is, if it is one.
pub record FloatOps : Type 0 where
  pub of_int : ℕ → Float
  pub to_int : Float → ℕ
  pub as_int : Float → Option ℕ
  pub neg : Float → Float
  pub add : Float → Float → Float
  pub sub : Float → Float → Float
  pub mul : Float → Float → Float
  pub div : Float → Float → Float
  pub le : Float → Float → Bool
  pub lt : Float → Float → Bool
  pub pi : Float
  pub sin : Float → Float
  pub cos : Float → Float
  pub sqrt : Float → Float
  pub atan2 : Float → Float → Float
  pub ceil : Float → Float

-- A member of the sorted set `riders:geo` of Redis.
pub record GeoMember : Type 0 where
  pub name : String
  pub latitude : Float
  pub longitude : Float

-- A context and the servers behind it. The calls to the servers are numbered: `fails n` is the error
-- of the n-th call, if it fails, and `now n` is the clock about that call. `geo_search lng lat radius`
-- gives the names of the members within the radius, from near to far, and `numeric_10_2` and `varchar n`
-- the value that a column NUMERIC(10,2) or VARCHAR(n) keeps. `quote` is the verb %q of fmt,
-- and `geo_accepts lng lat` tells the positions that GEOADD takes.
pub record Env : Type 0 where
  pub fails : ℕ → Option String
  pub now : ℕ → Time
  pub gen_random_uuid : ℕ → Uuid
  pub trace : Trace
  pub start_span : Trace → Trace
  pub extract : Trace → Trace → Trace
  pub uuid_text : Uuid → String
  pub uuid_parse : String → Option Uuid
  pub time_text : Time → String
  pub time_parse : String → Option Time
  pub numeric_10_2 : Float → Option Float
  pub varchar : ℕ → String → Option String
  pub quote : String → String
  pub geo_accepts : Float → Float → Bool
  pub geo_search : Float → Float → Float → List GeoMember → List String
  pub float : FloatOps

-- What `uuid.Parse`, and the RFC 3339 form of a time, promise: a printed value reads back.
pub record IsCodec (env : Env) : Type 0 where
  pub uuid_back : (u : Uuid) → env.uuid_parse (env.uuid_text u) ≡ some u
  pub time_back : (t : Time) → env.time_parse (env.time_text t) ≡ some t
