-- ===== src/System/Growth.antt =====
-- The outbox and the Kafka log under all services: no event is lost.
use rush_delivery_engine.Prelude.{
  ◌≡◌, refl, inl, inr, Option, none, some, String, List, ◌++◌, All, arith, Option-cases,
}
use rush_delivery_engine.Platform.{Uuid, Float, Env}
use rush_delivery_engine.Wire.{Message}
use rush_delivery_engine.Store.{World}
use rush_delivery_engine.Store.Tx.{tick, call}
use rush_delivery_engine.Rider.Model.{Status, RegisterRequest}
use rush_delivery_engine.Rider.Repository as Repository
use rush_delivery_engine.Rider.Service.{geoadd}
use rush_delivery_engine.Order.Service.Growth.{place-Safe, transition_to-Safe}
use rush_delivery_engine.Assignment.Service.Growth.{
  assign-Safe, claim_rider-Safe, mark_cancelled-Safe,
}
use rush_delivery_engine.Assignment.Service.{zrem}
use rush_delivery_engine.Assignment.Consumer as Assignment
use rush_delivery_engine.Eta.{set_eta}
use rush_delivery_engine.Eta.Growth.{set_eta-Quiet}
use rush_delivery_engine.Notification.Model.{Push}
use rush_delivery_engine.Notification.Service.{broadcast}
use rush_delivery_engine.Outbox.Relay.NoLoss.{IsSound, IsBacked, Extends}
use rush_delivery_engine.Outbox.Relay.Growth.{
  Grows, Grows-same, Quiet, Quiet-Safe, publish-Safe, dispatch-Grows, Grows-trans, Grows-refl,
}
use rush_delivery_engine.System.{
  Step, places, transitions, claims, gives_up, registers, sets_status, enters_geo, leaves_geo,
  estimates, publishes, tells, relays, calls, Reach, start, later,
}

module _ (env : Env) where
  pub assigns-Grows :
      (msg : Message) (w : World) → IsSound w → Grows w (Assignment.handle env msg w).1
  unfolding Assignment.handle Assignment.handle_event
  assigns-Grows msg w s = elim (Option-cases (Assignment.decode_placed env msg.value)) [
    | inl bad ↦ rw bad (Grows-refl w s)
    | inr (evt, read) ↦
        rw read ((assign-Safe env evt.order_id evt.pickup_lat evt.pickup_lng).run w s)
  ]

  same-Grows :
      (v w : World)
      → v.db.outbox ≡ w.db.outbox
      → v.log ≡ w.log
      → v.outbox_seq ≡ w.outbox_seq
      → IsSound w
      → Grows w v
  same-Grows v w rows log seq s = Grows-same w v rows log seq w (Grows-refl w s)

  create-Quiet : (req : RegisterRequest) → Quiet (Repository.create env req)
  unfolding Repository.create call
  create-Quiet req = record {
    rows = λ w. ground arith;
    log = λ w. ground arith;
    seq = λ w. ground arith;
  }

  set_status-Quiet : (id : Uuid) (to : Status) → Quiet (Repository.set_status env id to)
  unfolding Repository.set_status Repository.write_status call
  set_status-Quiet id to = record {
    rows = λ w. ground arith;
    log = λ w. ground arith;
    seq = λ w. ground arith;
  }

  geoadd-Quiet : (id : Uuid) (lat lng : Float) → Quiet (geoadd env id lat lng)
  unfolding geoadd call
  geoadd-Quiet id lat lng = record {
    rows = λ w. ground arith;
    log = λ w. ground arith;
    seq = λ w. ground arith;
  }

  zrem-Quiet : (name : String) → Quiet (zrem env name)
  unfolding zrem call
  zrem-Quiet name = record {
    rows = λ w. ground arith;
    log = λ w. ground arith;
    seq = λ w. ground arith;
  }

broadcast-Grows : (push : Option Push) (w : World) → IsSound w → Grows w (broadcast push w)
broadcast-Grows none w s = Grows-refl w s
broadcast-Grows (some p) w s = Grows-same w (broadcast (some p) w) refl refl refl w (Grows-refl w s)

Step-Grows : {past : List World} {w v : World} → Step past w v → IsSound w → Grows w v
Step-Grows {past} {w} (places env req) s = (place-Safe env req).run w s
Step-Grows {past} {w} (transitions env id to u o before read) s =
    (transition_to-Safe env id to o).run w s
Step-Grows {past} {w} (claims env order_id rider_id) s =
    (claim_rider-Safe env order_id rider_id).run w s
Step-Grows {past} {w} (gives_up env id reason) s = (mark_cancelled-Safe env id reason).run w s
Step-Grows {past} {w} (registers env req) s =
    (Quiet-Safe (Repository.create env req) (create-Quiet env req)).run w s
Step-Grows {past} {w} (sets_status env id to) s =
    (Quiet-Safe (Repository.set_status env id to) (set_status-Quiet env id to)).run w s
Step-Grows {past} {w} (enters_geo env id lat lng) s =
    (Quiet-Safe (geoadd env id lat lng) (geoadd-Quiet env id lat lng)).run w s
Step-Grows {past} {w} (leaves_geo env name) s =
    (Quiet-Safe (zrem env name) (zrem-Quiet env name)).run w s
Step-Grows {past} {w} (estimates env id mins) s =
    (Quiet-Safe (set_eta env id mins) (set_eta-Quiet env id mins)).run w s
Step-Grows {past} {w} (publishes env topic key body) s = (publish-Safe env topic key body).run w s
Step-Grows {past} {w} (tells push) s = broadcast-Grows push w s
Step-Grows {past} {w} (relays env locked) s = dispatch-Grows env locked w s
Step-Grows {past} {w} calls s = Grows-same w (tick w) refl refl refl w (Grows-refl w s)

Reach-Grows : {w : World} {past : List World} {v : World} → Reach w past v → IsSound w → Grows w v
Reach-Grows {w} start s = Grows-refl w s
Reach-Grows {w} (later {past} {u} {v} r st) s =
    let g = Reach-Grows r s in Grows-trans w u v g (Step-Grows st g.sound)

-- From a sound state, whatever transactions, statements and messages of the services follow each other, in
-- any order and with any failures: no row of the outbox disappears or changes but for its sent time, every
-- row that is marked as sent is in the Kafka log, and no message of the log disappears.
pub no_event_lost :
    {past : List World} {w v : World}
    → IsSound w
    → Reach w past v
    → Extends w.db.outbox v.db.outbox
      × All (IsBacked v.log) v.db.outbox
      × ((more : List Message) × (v.log ≡ w.log ++ more))
no_event_lost s r = let g = Reach-Grows r s in (g.rows, g.sound.backed, (g.more, g.log))
