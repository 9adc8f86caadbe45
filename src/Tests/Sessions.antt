-- ===== src/Tests/Sessions.antt =====
-- The customers' sessions, the notification consumers and the metrics at concrete inputs.
use rush_delivery_engine.Prelude.{
  ◌+◌, ◌≡◌, refl, true, false, none, List, [], ◌∷◌, ◌++◌, length, drop, take,
}
use rush_delivery_engine.Store.{World}
use rush_delivery_engine.Kafka.Topics.{topic_order_assigned}
use rush_delivery_engine.Kafka.Consumer.{messages, run}
use rush_delivery_engine.Kafka.Consumer.Offsets.{at}
use rush_delivery_engine.Notification.Hub.{Event, opened, closed, after}
use rush_delivery_engine.Notification.Handler.{read_loop, session, subscribe, order}
use rush_delivery_engine.Notification.Handler.Sessions.{
  both_done, left, right, Sessions, no_session, one_more, hub_left_empty,
}
use rush_delivery_engine.Notification.Consumer.{order_assigned_handler, decode_assigned}
use rush_delivery_engine.Notification.Service.{on_assigned}
use rush_delivery_engine.Notification.Service.Reaching.{pushed, run-pushed}
use rush_delivery_engine.Metrics.{write_header, write_body, Labels, Registry, Served, serve_all}
use rush_delivery_engine.Metrics.Counting.{value, requests_with, serve_all-counts}
use rush_delivery_engine.Assignment.Model.{encode_assigned}
use rush_delivery_engine.Wire.{json}
use rush_delivery_engine.System.Delivery.{on_assigned-log}
use rush_delivery_engine.Tests.Codec.{tally, untally}
use rush_delivery_engine.Tests.Demo.{up_env, a_world}

-- Two customers of order 1, whose sessions overlap, and a request without an order id.
abbrev overlapping : List Event
overlapping = closed 1 4 ∷ closed 1 5 ∷ opened 1 5 ∷ opened 1 4 ∷ []

overlapping-Sessions : Sessions up_env overlapping
unfolding order subscribe session read_loop untally tally
overlapping-Sessions =
    one_more (tally 1) none 4 (true ∷ false ∷ []) refl refl (left (right (right (left both_done))))
      (one_more (tally 1) none 5 (false ∷ []) refl refl (left (left both_done)) no_session)

hub_left_empty_example : after overlapping 1 ≡ none
hub_left_empty_example = hub_left_empty up_env 1 overlapping overlapping-Sessions

abbrev assignments : World
assignments = record a_world {
  log =
      record {
        topic = "order.assigned";
        key = tally 1;
        value =
            json (encode_assigned up_env (record { order_id = 1; rider_id = 7; assigned_at = 12 }));
        headers = [];
      }
      ∷ [];
}

run-pushed_example :
    (run up_env topic_order_assigned on_assigned 3 (at 0, assignments)).1.pushes
    ≡ assignments.pushes
      ++ pushed
          (order_assigned_handler up_env)
          (take 3 (drop 0 (messages topic_order_assigned assignments)))
unfolding on_assigned order_assigned_handler decode_assigned
run-pushed_example =
    run-pushed up_env (λ n. refl) topic_order_assigned on_assigned (order_assigned_handler up_env)
      on_assigned-log (λ m v. refl) 3 0 assignments

abbrev some_served : List Served
some_served =
    record {
      method = "POST";
      writes = write_header 201 ∷ write_body "{}" ∷ [];
      pattern_ = "/api/v1/orders";
      elapsed = 12;
    }
    ∷ record { method = "GET"; writes = []; pattern_ = ""; elapsed = 3 }
    ∷ []

abbrev created_labels : Labels
created_labels = record {
  service = "order-service";
  method = "POST";
  route = "/api/v1/orders";
  status = "201";
}

abbrev no_counters : Registry
no_counters = record { requests_total = []; durations = [] }

serve_all-counts_example :
    let after = serve_all "order-service" some_served no_counters in
    (value created_labels after.requests_total
      ≡ value created_labels no_counters.requests_total
        + requests_with "order-service" created_labels some_served)
    × (length after.durations ≡ length no_counters.durations + length some_served)
serve_all-counts_example =
    serve_all-counts "order-service" created_labels some_served no_counters (refl, (tt, tt))
