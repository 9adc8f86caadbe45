-- ===== src/Startup/Process.antt =====
-- A process that starts: the resources that it opens and closes, the goroutines that it starts, and the
-- topics of the Kafka cluster. The libraries behind the clients are the record `Host`.
pub mod Open
pub mod Workers
pub mod Success
use rush_delivery_engine.Prelude.{ℕ, ◌+◌, Bool, Option, none, some, String, List, [], ◌∷◌}
use rush_delivery_engine.RateLimit.{SlidingWindow}
use rush_delivery_engine.Auth.{Signer}
use rush_delivery_engine.Kafka.Consumer.{Handler}
use rush_delivery_engine.Store.Errors.{Error, call_failed, Result, ok, err}

-- A value of the configuration.
pub data Setting : Type 0 where
  text : String → Setting
  number : ℕ → Setting
  flag : Bool → Setting
  texts : List String → Setting

abbrev pub Settings : Type 0
Settings = List (String × Setting)

-- What `ReadInConfig` and `Unmarshal` of viper report.
pub data ReadError : Type 0 where
  config_file_not_found : String → ReadError
  other_error : String → ReadError

-- The part of a Kafka partition that the program reads, and what it asks of a new topic.
pub record Partition : Type 0 where
  pub topic : String

pub record TopicConfig : Type 0 where
  pub topic : String
  pub num_partitions : ℕ
  pub replication_factor : ℕ

pub record PoolConfig : Type 0 where
  pub dsn : String
  pub max_conns : ℕ
  pub min_conns : ℕ
  pub max_conn_lifetime_minutes : ℕ
  pub max_conn_idle_minutes : ℕ

pub record RedisOptions : Type 0 where
  pub addr : String
  pub password : String
  pub db : ℕ

pub record ReaderConfig : Type 0 where
  pub brokers : List String
  pub topic : String
  pub group_id : String

-- What the program opens and has to close. `signals` is the context of `signal.NotifyContext`, `exporter`
-- the OTLP client of a tracer provider, and `reader` a Kafka consumer.
pub data Resource : Type 0 where
  signals : Resource
  exporter : String → Resource
  tracer : String → String → Resource
  pool : PoolConfig → Resource
  redis_client : RedisOptions → Resource
  broker_conn : String → Resource
  writer : List String → Resource
  reader : ReaderConfig → Resource

-- A route of a service: its method (none stands for any) and pattern, and whether it is in the group with the authentication.
pub record Route : Type 0 where
  pub method : String
  pub path : String
  pub authenticated : Bool

-- An HTTP server: the order service has a limiter and signs tokens.
pub record Server : Type 0 where
  pub addr : String
  pub routes : List Route
  pub limiter : Option SlidingWindow
  pub signer : Option Signer

-- What `run` sets going: the relay, a consumer with its handler, an HTTP server.
pub data Worker : Type 0 where
  relaying : Worker
  consuming : ReaderConfig → Handler → Worker
  serving : Server → Worker

pub data Event : Type 0 where
  opened : Resource → Event
  closed : Resource → Event
  started : Worker → Event

-- The latest event is the first.
pub record Process : Type 0 where
  pub partitions : List Partition
  pub events : List Event
  pub calls : ℕ

-- How a server stops.
pub data Ending : Type 0 where
  signalled : Ending
  listen_failed : String → Ending

-- `fails n` is the error of the n-th call to a server. `viper_get defaults path key` is the value that
-- viper finds for a key, given the defaults and the file, `create` what a successful `CreateTopics` makes
-- of the partitions, and `create_partly` what one that reports an error has made of them.
pub record Host : Type 0 where
  pub fails : ℕ → Option String
  pub getenv : String → String
  pub read_in_config : String → Option ReadError
  pub viper_get : Settings → String → String → Option Setting
  pub decode_text : Option Setting → Option String
  pub decode_number : Option Setting → Option ℕ
  pub decode_flag : Option Setting → Option Bool
  pub decode_texts : Option Setting → Option (List String)
  pub unmarshal_error : String
  pub parse_dsn : String → Option String
  pub controller : List Partition → String × ℕ
  pub create : List TopicConfig → List Partition → List Partition
  pub create_partly : List TopicConfig → List Partition → List Partition
  pub ending : Ending

abbrev pub Boot : Type 0 → Type 0
Boot A = Process → Result A × Process

abbrev pub continue : {A B : Type 0} → Result A → (A → Boot B) → Boot B
continue (ok a) f p = f a p
continue (err e) f p = (err e, p)

infixl 5 ◌>>=◌ ◌>>◌
abbrev pub ◌>>=◌ : {A B : Type 0} → Boot A → (A → Boot B) → Boot B
◌>>=◌ m f p = let (r, p') = m p in continue r f p'

abbrev pub ◌>>◌ : {A B : Type 0} → Boot A → Boot B → Boot B
m >> n = m >>= λ _. n

abbrev pub pure : {A : Type 0} → A → Boot A
pure a p = (ok a, p)

abbrev pub raise : {A : Type 0} → Error → Boot A
raise e p = (err e, p)

abbrev pub map_err : {A : Type 0} → (Error → Error) → Result A → Result A
map_err f (ok a) = ok a
map_err f (err e) = err (f e)

-- `if err != nil { return …, fmt.Errorf("text: %w", err) }`
abbrev pub wrapped : {A : Type 0} → String → Boot A → Boot A
wrapped s m p = let (r, p') = m p in (map_err (Error.wrap s) r, p')

abbrev pub note : Event → Process → Process
note e p = record p { events = e ∷ p.events }

abbrev pub tick : Process → Process
tick p = record p { calls = p.calls + 1 }

abbrev settle : {A : Type 0} → Option String → Boot A → Boot A
settle none op = op
settle (some s) op = raise (call_failed s)

-- One call to a server: it fails and does nothing, or `op` happens.
unfoldable pub call : {A : Type 0} → Host → Boot A → Boot A
call host op p = settle (host.fails p.calls) op (tick p)

abbrev pub opening : Resource → Boot Resource
opening r p = (ok r, note (opened r) p)

abbrev pub starting : Worker → Boot (Unit {0})
starting k p = (ok tt, note (started k) p)

-- `defer r.Close()`, and the rest of the function.
unfoldable pub deferring : {A : Type 0} → Resource → Boot A → Boot A
deferring r body p = let (res, p') = body p in (res, note (closed r) p')

unfoldable pub open_all : List Resource → Process → Process
open_all [] p = p
open_all (r ∷ rs) p = open_all rs (note (opened r) p)

unfoldable pub close_all : List Resource → Process → Process
close_all [] p = p
close_all (r ∷ rs) p = close_all rs (note (closed r) p)

-- One deferred function that closes several, the first of the list first, and the rest of the function.
unfoldable pub deferring_all : {A : Type 0} → List Resource → Boot A → Boot A
unfolding close_all
deferring_all rs body p = let (res, p') = body p in (res, close_all rs p')
