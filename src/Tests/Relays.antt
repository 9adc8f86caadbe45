-- ===== src/Tests/Relays.antt =====
-- The outbox relay, the Kafka consumer and the trace headers at concrete inputs.
use rush_delivery_engine.Prelude.{
  true, ◌++◌, take, drop, ◌+◌, min, false, ◌≡◌, refl, [], ◌∷◌, length, str_eq, arith, if◌then◌else◌,
}
use rush_delivery_engine.Store.Errors.{Error, ok, err, no_rows}
use rush_delivery_engine.Store.{World}
use rush_delivery_engine.Outbox.Relay.{dispatch}
use rush_delivery_engine.Outbox.Relay.Delivery.{Dispatched, dispatch-Dispatched}
use rush_delivery_engine.Kafka.Consumer.{message_env, Handler, messages, run, restart}
use rush_delivery_engine.Kafka.Consumer.Offsets.{
  at, committed_after, run-accepted, run-delivers, error_passed_over,
}
use rush_delivery_engine.Wire.{Message}
use rush_delivery_engine.Tests.Codec.{tally}
use rush_delivery_engine.Tests.Demo.{up_env, a_placed_message, a_world}

dispatch-Dispatched_example :
    Dispatched up_env (λ row. false) a_world (dispatch up_env (λ row. false) a_world)
dispatch-Dispatched_example = dispatch-Dispatched up_env (λ row. false) a_world 0 (omega arith, tt)

abbrev two_messages : World
two_messages = record a_world {
  log = a_placed_message ∷ record a_placed_message { key = "second" } ∷ [];
}

abbrev quiet_handler : Handler
quiet_handler env msg w = (ok tt, w)

-- Handles the messages of the key "second" only.
abbrev picky_handler : Handler
picky_handler env msg w = (if str_eq msg.key "second" then ok tt else err no_rows, w)

run-delivers_example :
    (run up_env "order.placed" quiet_handler 5 (at 0, two_messages)).0
    ≡ at (min (0 + 5) (length (messages "order.placed" two_messages)))
run-delivers_example =
    run-delivers up_env "order.placed" quiet_handler (λ n. refl) (λ e m w. refl) 5 0 two_messages
      (λ e m v. refl) (omega arith)

error_passed_over_example :
    restart (run up_env "order.placed" picky_handler 2 (at 0, two_messages)).0
    ≡ record { next = 0 + 2; committed = 0 + 2 }
unfolding tally
error_passed_over_example =
    error_passed_over up_env "order.placed" picky_handler (λ n. refl) (λ e m w. refl) (at 0)
      two_messages a_placed_message (record a_placed_message { key = "second" }) no_rows refl refl
      refl (λ v. refl)

picky_handler-ok :
    (m : Message) (v : World)
    → str_eq m.key "second" ≡ true
    → (picky_handler (message_env up_env m) m v).0 ≡ ok tt
picky_handler-ok m v hit = ground arith

picky_handler-err :
    (m : Message) (v : World)
    → str_eq m.key "second" ≡ false
    → (e : Error) × ((picky_handler (message_env up_env m) m v).0 ≡ err e)
picky_handler-err m v miss = (no_rows, ground arith)

-- The second message is accepted, the first one is not.
abbrev three_messages : World
three_messages = record a_world { log = two_messages.log ++ a_placed_message ∷ [] }

run-accepted_example :
    (run up_env "order.placed" picky_handler 3 (at 0, three_messages)).0 ≡ record {
      next = min (0 + 3) (length (messages "order.placed" three_messages));
      committed =
          committed_after
            (λ m. str_eq m.key "second")
            0
            0
            (take 3 (drop 0 (messages "order.placed" three_messages)));
    }
run-accepted_example =
    run-accepted up_env "order.placed" picky_handler (λ n. refl) (λ e m w. refl)
      (λ m. str_eq m.key "second") picky_handler-ok picky_handler-err 3 0 0 three_messages
      (omega arith)
