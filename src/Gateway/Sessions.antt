-- ===== src/Gateway/Sessions.antt =====
-- A customer who logs in through the router and then uses the order API with the token.
use rush_delivery_engine.Prelude.{ℕ, ◌≡◌, ◌⊎◌, String}
use rush_delivery_engine.Store.{World}
use rush_delivery_engine.Gateway.{Answer, throttled}

-- The request was throttled and changed nothing, or it got `next`.
abbrev pub Passed : World → Answer × World → Answer × World → Type 0
Passed w next r =
    ((limit remaining retry : ℕ) × (r ≡ (throttled limit remaining retry, w))) ⊎ (r ≡ next)
