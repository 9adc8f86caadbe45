-- ===== src/Tests/Pushing.antt =====
-- Locations, arrival times, the customers' connections and the rate limiter at concrete inputs.
use rush_delivery_engine.Prelude.{◌≡◌, some, none, [], ◌∷◌, List, Option}
use rush_delivery_engine.Wire.{num}
use rush_delivery_engine.Store.{World}
use rush_delivery_engine.Order.Model.{Order}
use rush_delivery_engine.Location.{RiderLocationUpdatedEvent, IncomingMessage, rider}
use rush_delivery_engine.Location.Acks.{acks, replies_of, PublishesFor, rider-acks}
use rush_delivery_engine.Notification.Hub.{Event, opened, closed, contains, recipients, after}
use rush_delivery_engine.Notification.Hub.Subscriptions.{is_open, recipients-is_open}
use rush_delivery_engine.RateLimit.{SlidingWindow, Redis}
use rush_delivery_engine.RateLimit.Window as Window
use rush_delivery_engine.Tests.Codec.{tally, untally}
use rush_delivery_engine.Tests.Demo.{up_env, an_order, a_world}

abbrev a_location : RiderLocationUpdatedEvent
a_location = record { rider_id = 7; lat = 90; lng = 180; timestamp = 20 }

-- The rider 7 has the order.
abbrev riding : World
riding = record a_world {
  db = record a_world.db { orders = record an_order { rider_id = some 7 } ∷ [] };
}

abbrev some_frames : List (Option IncomingMessage)
some_frames =
    some (record { type_ = "location_update"; payload = ("lat", num 90) ∷ ("lng", num 180) ∷ [] })
    ∷ some (record { type_ = "location_update"; payload = ("lat", num 90) ∷ [] })
    ∷ some (record { type_ = "hello"; payload = [] })
    ∷ none
    ∷ []

rider-acks_example :
    let (s, v) = rider up_env (tally 7) none some_frames a_world in
    PublishesFor up_env (some 7) some_frames (acks (replies_of s)) a_world v
unfolding tally untally
rider-acks_example = rider-acks up_env (tally 7) none some_frames a_world

abbrev some_events : List Event
some_events = closed 1 4 ∷ opened 2 5 ∷ opened 1 5 ∷ opened 1 4 ∷ []

recipients-is_open_example : contains 5 (recipients 1 (after some_events)) ≡ is_open 1 5 some_events
recipients-is_open_example = recipients-is_open 1 5 some_events

-- Two requests in 60 units of time.
abbrev a_limiter : SlidingWindow
a_limiter = record { limit = 2; window = 60; prefix = "rl" }

abbrev a_redis : Redis
a_redis key = Window.after (λ t. t) a_limiter (150 ∷ 145 ∷ 20 ∷ [])
