-- ===== src/Order/Audit/Laws.antt =====
-- The order service keeps the audit log in step with the orders table.
use rush_delivery_engine.Prelude.{
  ℕ, ◌≡◌, refl, ap, false, Option, none, some, List, [], ◌∷◌, ◌++◌, arith, All, any, update_where,
  All-append,
}
use rush_delivery_engine.Platform.{Uuid, Env}
use rush_delivery_engine.Wire.{Value, str, get_field}
use rush_delivery_engine.Store.{OrderEvent, Db}
use rush_delivery_engine.Order.Model.{Status, Order, PlaceOrderRequest, status_text}
use rush_delivery_engine.Order.Repository.{has_id}
use rush_delivery_engine.Order.Repository.Atomicity.{Created, Updated}
use rush_delivery_engine.Order.Audit.{note, replay, IsAudited}

replay-append :
    (id : Uuid) (es : List OrderEvent) (last : Option Value) (e : OrderEvent)
    → replay id last (es ++ e ∷ []) ≡ note id (replay id last es) e
replay-append id [] last e = refl
replay-append id (x ∷ es) last e = replay-append id es (note id last x) e

-- What the log says of an order is what its row says.
abbrev Agrees : List OrderEvent → Order → Type 0
Agrees es o = replay o.id none es ≡ some (str (status_text o.status))

module _ (id : Uuid) (es : List OrderEvent) (e : OrderEvent) (same : e.order_id ≡ id) where
  Agrees-others :
      (os : List Order)
      → any (has_id id) os ≡ false
      → All (Agrees es) os
      → All (Agrees (es ++ e ∷ [])) os
  Agrees-others [] absent h = tt
  Agrees-others (o ∷ os) absent h =
      (ground (arith, replay-append o.id es none e), Agrees-others os (ground arith) h.1)

  Agrees-update :
      (to : Status) (now : ℕ) (os : List Order)
      → get_field "status" e.payload ≡ some (str (status_text to))
      → All (Agrees es) os
      → All
          (Agrees (es ++ e ∷ []))
          (update_where (has_id id) (λ o. record o { status = to; updated_at = now }) os)
  Agrees-update to now [] said h = tt
  Agrees-update to now (o ∷ os) said h =
      (ground (arith, replay-append o.id es none e), Agrees-update to now os said h.1)

module _ {env : Env} where
  pub Created-IsAudited :
      {req : PlaceOrderRequest} {before after : Db} {o : Order}
      → Created env req before o after
      → IsAudited before
      → IsAudited after
  Created-IsAudited {before = before} {o = o} c h =
      rw (c.orders, c.recorded.events)
        (All-append (Agrees (es ++ e ∷ [])) before.orders _
          (Agrees-others o.id es e c.recorded.event_id before.orders c.fresh h)
          (ground (arith, replay-append o.id es none e), tt))
    where
      es : List OrderEvent
      es = before.order_events

      e : OrderEvent
      e = c.recorded.event

  pub Updated-IsAudited :
      {id : Uuid} {to : Status} {before after : Db}
      → Updated env id to before after
      → IsAudited before
      → IsAudited after
  Updated-IsAudited {id} {to} {before = before} u h =
      rw (u.orders, u.recorded.events)
        (Agrees-update id before.order_events u.recorded.event u.recorded.event_id to u.changed
          before.orders (ap (get_field "status") u.event_payload) h)
