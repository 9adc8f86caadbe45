-- ===== src/Tests/Orders.antt =====
-- The order service at concrete inputs.
use rush_delivery_engine.Prelude.{◌≡◌, ◌↔◌, refl, some, none, [], ◌∷◌, List}
use rush_delivery_engine.Store.Errors.{ok}
use rush_delivery_engine.Order.Model.{cancelled, placed, accepted}
use rush_delivery_engine.Order.StateMachine.{validate_transition}
use rush_delivery_engine.Order.StateMachine.Laws.{◌⟶◌, validate_transition_iff}
use rush_delivery_engine.Order.Repository.Atomicity.{Updated}
use rush_delivery_engine.Order.Service.{transition}
use rush_delivery_engine.Order.Service.Legality.{TransitionEnds, transition_legal}
use rush_delivery_engine.Order.Service.Races.{race, race-Updated}
use rush_delivery_engine.Order.Audit.{IsAudited}
use rush_delivery_engine.Order.Handler.{Request, post, fetch, patch_cancel, patch_status, serve}
use rush_delivery_engine.Order.Handler.Responses.{
  Effect, serve-Effect, serve_all, serve_all-IsAudited,
}
use rush_delivery_engine.Tests.Codec.{tally}
use rush_delivery_engine.Tests.Demo.{an_order, up_env, a_request, a_world, a_world-IsAudited}

abbrev some_requests : List Request
some_requests =
    post (some a_request)
    ∷ patch_status (tally 1) (some "ACCEPTED")
    ∷ fetch (tally 1)
    ∷ patch_cancel (tally 1)
    ∷ post none
    ∷ []

serve-Effect_example :
    Effect up_env a_world.db
      (serve up_env (post (some a_request)) a_world).0.reply
      (serve up_env (post (some a_request)) a_world).1.db
serve-Effect_example = serve-Effect up_env (post (some a_request)) a_world

serve_all-IsAudited_example : IsAudited (serve_all up_env some_requests a_world).db
serve_all-IsAudited_example = serve_all-IsAudited up_env some_requests a_world a_world-IsAudited

transition_legal_example :
    TransitionEnds up_env 1 accepted a_world.db (transition up_env 1 accepted a_world)
transition_legal_example = transition_legal up_env 1 accepted a_world

validate_transition_iff_example :
    (validate_transition placed accepted ≡ ok tt) ↔ (placed ⟶ accepted)
validate_transition_iff_example = validate_transition_iff placed accepted

race-Updated_example :
    let (first, second, between, after) = race up_env 1 cancelled accepted an_order a_world in
    (first ≡ ok (record an_order { status = cancelled }))
    × (second ≡ ok (record an_order { status = accepted }))
    × Updated up_env 1 cancelled a_world.db between.db
    × Updated up_env 1 accepted between.db after.db
unfolding validate_transition
race-Updated_example =
    race-Updated up_env (λ n. refl) 1 cancelled accepted an_order a_world refl refl refl
