-- ===== src/Tests/Journeys.antt =====
-- The services together at concrete inputs.
use rush_delivery_engine.Prelude.{
  ℕ, ◌≤◌, ◌≡◌, refl, false, some, List, [], ◌∷◌, ◌++◌, All, Has, length, inl, inr, arith,
}
use rush_delivery_engine.Wire.{Message}
use rush_delivery_engine.Store.{World}
use rush_delivery_engine.Store.Errors.{ok}
use rush_delivery_engine.Kafka.Topics.{topic_order_placed, topic_order_assigned}
use rush_delivery_engine.Kafka.Producer.{message}
use rush_delivery_engine.Kafka.Consumer.{messages}
use rush_delivery_engine.Order.Model.{Order, placed, accepted, preparing}
use rush_delivery_engine.Order.StateMachine.{validate_transition}
use rush_delivery_engine.Order.StateMachine.Progress.{accepted-length}
use rush_delivery_engine.Order.Repository.{placed_event}
use rush_delivery_engine.Order.Service.{place, validate_place, transition_to}
use rush_delivery_engine.Order.Repository.{new_order, create}
use rush_delivery_engine.Assignment.Service.{
  assign, nearest_available_riders, try_candidates, claim_rider, mark_cancelled,
}
use rush_delivery_engine.Outbox.Relay.{batch_size}
use rush_delivery_engine.Outbox.Relay as Relay
use rush_delivery_engine.Outbox.Relay.NoLoss.{Carries, Extends, IsBacked}
use rush_delivery_engine.Outbox.Relay.Draining.{waiting}
use rush_delivery_engine.Outbox.Relay.Arrival.{run-logs}
use rush_delivery_engine.Assignment.Consumer.{decode_placed, handle}
use rush_delivery_engine.Assignment.Consumer.Decoding.{decode-encode}
use rush_delivery_engine.System.{Reach, start, later, transitions, claims, gives_up, relays}
use rush_delivery_engine.System.Growth.{no_event_lost}
use rush_delivery_engine.System.Delivery.{
  relayed, notified, told, placed_order_arrives, assignment_told,
}
use rush_delivery_engine.Tests.Codec.{tally, untally}
use rush_delivery_engine.Tests.Demo.{
  up_env, down_env, up_env-IsCodec, an_order, a_request, a_row, a_placed_event, a_placed_message,
  a_world, a_world-IsSound,
}

abbrev asked : World
asked = (handle up_env a_placed_message a_world).1

-- A transition has read the order; the order gets its rider, a dispatch fails, the assignment of a
-- second message gives the order up, another dispatch succeeds, and the transition writes.
abbrev claimed : World
claimed = (claim_rider up_env 1 7 a_world).1

abbrev relayed_once : World
relayed_once = (Relay.dispatch down_env (λ row. false) claimed).1

abbrev given_up : World
given_up = (mark_cancelled up_env 1 "no rider available" relayed_once).1

abbrev relayed_twice : World
relayed_twice = (Relay.dispatch up_env (λ row. false) given_up).1

abbrev sent : World
sent = (transition_to up_env 1 accepted an_order relayed_twice).1

sending : Reach a_world (relayed_twice ∷ given_up ∷ relayed_once ∷ claimed ∷ a_world ∷ []) sent
sending =
    later
      (later
        (later (later (later start (claims up_env 1 7)) (relays down_env (λ row. false)))
          (gives_up up_env 1 "no rider available"))
        (relays up_env (λ row. false)))
      (transitions up_env 1 accepted a_world an_order (inr (inr (inr (inr (inl refl))))) refl)

no_event_lost_example :
    Extends a_world.db.outbox sent.db.outbox
    × All (IsBacked sent.log) sent.db.outbox
    × ((more : List Message) × (sent.log ≡ a_world.log ++ more))
no_event_lost_example = no_event_lost a_world-IsSound sending

accepted-length_example : length (accepted ∷ preparing ∷ []) ≤ 4
unfolding validate_transition
accepted-length_example = accepted-length placed (accepted ∷ preparing ∷ []) (refl, (refl, tt))

run-logs_example :
    (m : Message) × Has m (messages "order.placed" (relayed up_env 1 a_world)) × Carries a_row m
run-logs_example =
    run-logs up_env (λ n. refl) 1 a_world a_row a_world-IsSound (omega arith) (inl refl)

abbrev placing : World
placing = (place up_env a_request a_world).1

abbrev the_order : Order
the_order = new_order 102 1002 a_request

placed_it : (place up_env a_request a_world).0 ≡ ok the_order
unfolding place validate_place create
placed_it = refl

placed_waiting : waiting (place up_env a_request a_world).1 ≡ 2
unfolding place validate_place create
placed_waiting = refl

waits : waiting asked ≡ 2
unfolding handle decode_placed assign nearest_available_riders try_candidates claim_rider untally
    tally
waits = refl

notices : length (messages topic_order_assigned (relayed up_env 1 asked)) ≡ 1
unfolding handle decode_placed assign nearest_available_riders try_candidates claim_rider untally
    tally Relay.run Relay.dispatch Relay.claim Relay.sort_by_id Relay.publish_all Relay.mark_sent
    message
notices = refl

placed_order_arrives_example :
    (m : Message) × (now : ℕ) × Has m
      (messages topic_order_placed (relayed up_env 1 (place up_env a_request a_world).1))
    × (decode_placed up_env m.value ≡ some (placed_event the_order now))
placed_order_arrives_example =
    placed_order_arrives up_env (λ n. refl) up_env-IsCodec a_request a_world the_order 1
      a_world-IsSound placed_it (omega (arith, placed_waiting))

assignment_told_example :
    (now : ℕ) × Has
      (told up_env (record { order_id = 1; rider_id = 7; assigned_at = now }))
      (notified up_env 1 (relayed up_env 1 asked)).pushes
unfolding tally untally
assignment_told_example =
    assignment_told up_env (λ n. refl) up_env-IsCodec a_placed_message a_placed_event 7 a_world 1 1
      a_world-IsSound (decode-encode up_env up_env-IsCodec a_placed_event) refl
      (omega (arith, waits)) (omega (arith, notices))
