-- ===== src/Eta/Growth.antt =====
-- The ETA service touches no row of the outbox.
use rush_delivery_engine.Prelude.{arith, ℕ}
use rush_delivery_engine.Platform.{Uuid, Env}
use rush_delivery_engine.Store.Tx.{call}
use rush_delivery_engine.Outbox.Relay.Growth.{Quiet}
use rush_delivery_engine.Eta.{set_eta}

module _ (env : Env) where
  pub set_eta-Quiet : (id : Uuid) (mins : ℕ) → Quiet (set_eta env id mins)
  unfolding set_eta call
  set_eta-Quiet id mins = record {
    rows = λ w. ground arith;
    log = λ w. ground arith;
    seq = λ w. ground arith;
  }
