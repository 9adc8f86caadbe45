-- ===== src/Order/Service/Growth.antt =====
-- The order API only adds to the outbox.
use rush_delivery_engine.Prelude.{refl, String}
use rush_delivery_engine.Platform.{Uuid, Env}
use rush_delivery_engine.Store.Errors.{Result}
use rush_delivery_engine.Store.{lift, inc_event}
use rush_delivery_engine.Outbox.Relay.Growth.{Safe, Quiet, Quiet-Safe, pure-Safe, bind-Safe}
use rush_delivery_engine.Order.Model.{Status, Order, PlaceOrderRequest}
use rush_delivery_engine.Order.Repository.Growth.{create-Safe, update_status-Safe}
use rush_delivery_engine.Order.Service.{place, transition_to}

pub lift-Quiet : {A : Type 0} (r : Result A) → Quiet (lift r)
lift-Quiet r = record { rows = λ w. refl; log = λ w. refl; seq = λ w. refl }

pub inc_event-Quiet : (event : String) → Quiet (inc_event event)
inc_event-Quiet event = record { rows = λ w. refl; log = λ w. refl; seq = λ w. refl }

module _ (env : Env) where
  pub place-Safe : (req : PlaceOrderRequest) → Safe (place env req)
  unfolding place
  place-Safe req =
      search (bind-Safe, pure-Safe, Quiet-Safe, lift-Quiet, inc_event-Quiet, create-Safe) depth 12

  pub transition_to-Safe : (id : Uuid) (to : Status) (o : Order) → Safe (transition_to env id to o)
  unfolding transition_to
  transition_to-Safe id to o =
      search (bind-Safe, pure-Safe, Quiet-Safe, lift-Quiet, inc_event-Quiet, update_status-Safe)
        depth 12
