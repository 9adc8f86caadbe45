-- ===== src/Kafka/Consumer.antt =====
-- pkg/kafka/consumer.go. A topic has one partition (admin.go), whose messages are those of the log with
-- its name; a reader is the one member of its group.
pub mod Offsets
use rush_delivery_engine.Prelude.{
  ℕ, zero, suc, ◌+◌, Bool, Option, none, some, String, List, select, nth, str_eq,
}
use rush_delivery_engine.Platform.{Env}
use rush_delivery_engine.Wire.{Message}
use rush_delivery_engine.Store.Errors.{Result, ok, err}
use rush_delivery_engine.Store.{World, Action}
use rush_delivery_engine.Store.Tx.{call, reading, writing}

-- What `Run` calls for a message, in the context that it makes for the message.
abbrev pub Handler : Type 0
Handler = Env → Message → Action (Unit {0})

-- `next` is the offset that the reader fetches next, `committed` the one that Kafka keeps for the
-- group, from which a new reader starts.
pub record Reader : Type 0 where
  pub next : ℕ
  pub committed : ℕ

abbrev pub messages : String → World → List Message
messages topic w = select (λ m. str_eq m.topic topic) w.log

abbrev pub message_env : Env → Message → Env
message_env env msg = record env { trace = env.start_span (env.extract env.trace msg.headers) }

abbrev pub skip_past : Reader → Reader
skip_past r = record r { next = r.next + 1 }

-- `CommitMessages`: a failure is logged.
note_commit : Result (Unit {0}) → Reader → Reader
note_commit (ok _) r = record { next = r.next + 1; committed = r.next + 1 }
note_commit (err e) r = skip_past r

-- The loop's body after the handler.
after_handler : Env → Result (Unit {0}) → Reader → World → Reader × World
unfolding note_commit call
after_handler env (err e) r w = (skip_past r, w)
after_handler env (ok _) r w =
    let (committed, w') = call env (writing (λ v. v)) w in (note_commit committed r, w')

-- The loop's body after the fetch; where there is no message, the fetch waits for one.
after_fetch : Env → Handler → Result (Option Message) → Reader → World → Reader × World
unfolding after_handler
after_fetch env h (err e) r w = (r, w)
after_fetch env h (ok none) r w = (r, w)
after_fetch env h (ok (some msg)) r w =
    let (handled, w') = h (message_env env msg) msg w in after_handler env handled r w'

-- One round of the loop of `Run`.
unfoldable pub poll : Env → String → Handler → Reader × World → Reader × World
unfolding after_fetch call
poll env topic h (r, w) =
    let (fetched, w') = call env (reading (λ v. nth (messages topic v) r.next)) w in
    after_fetch env h fetched r w'

-- `Run` until its context is cancelled, after as many rounds.
unfoldable pub run : Env → String → Handler → ℕ → Reader × World → Reader × World
unfolding poll
run env topic h zero s = s
run env topic h (suc n) s = run env topic h n (poll env topic h s)

-- The reader of the next process of the group.
abbrev pub restart : Reader → Reader
restart r = record { next = r.committed; committed = r.committed }
