-- ===== src/Eta/Updates.antt =====
-- What a location event makes of the rider's order: internal/eta/service.go.
use rush_delivery_engine.Prelude.{
  ℕ, ◌≡◌, ◌⊎◌, inl, inr, some, List, [], ◌∷◌, ◌++◌, arith, update_where, Option-cases,
}
use rush_delivery_engine.Platform.{Uuid, Env, IsCodec}
use rush_delivery_engine.Wire.{json, Message}
use rush_delivery_engine.Kafka.Topics.{topic_eta_updated}
use rush_delivery_engine.Kafka.Producer.{message}
use rush_delivery_engine.Store.{World}
use rush_delivery_engine.Store.Tx.{call, tick}
use rush_delivery_engine.Order.Model.{Order}
use rush_delivery_engine.Order.Repository.{has_id}
use rush_delivery_engine.Location.{RiderLocationUpdatedEvent, encode_location}
use rush_delivery_engine.Eta.{minutes_to, encode_eta, set_eta, decode_location}

-- The order has the minutes as its ETA, and one event says so.
pub record Announced (env : Env) (evt : RiderLocationUpdatedEvent) (o : Order) (before : List Order)
    (published : List Message) (v : World) : Type 0 where
  pub changed : ℕ
  pub now : ℕ
  pub orders :
      v.db.orders
      ≡ update_where
          (has_id o.id)
          (λ p. record p { eta_minutes = some (minutes_to env.float evt o); updated_at = changed })
          before
  pub log :
      v.log
      ≡ published
        ++ message env topic_eta_updated (env.uuid_text o.id) (
            json (
              encode_eta env (record {
                order_id = o.id;
                rider_id = evt.rider_id;
                eta_minutes = minutes_to env.float evt o;
                computed_at = now;
              })))
          ∷ []

-- The ETA service reads back the event that the location service published, where UUIDs and times read
-- back as printed.
pub decode_location-encode :
    (env : Env) (codec : IsCodec env) (e : RiderLocationUpdatedEvent)
    → decode_location env (json (encode_location env e)) ≡ some e
unfolding decode_location
decode_location-encode env codec e = simp (codec.uuid_back, codec.time_back)

-- The orders that the update leaves: as they were, or one with new minutes.
abbrev pub Estimated : List Order → List Order → Type 0
Estimated before after =
    (after ≡ before)
    ⊎ ((id : Uuid) × (mins : ℕ) × (changed : ℕ) × (after
          ≡ update_where (has_id id)
              (λ p. record p { eta_minutes = some mins; updated_at = changed }) before))

module _ (env : Env) where
  pub set_eta-Estimated :
      (id : Uuid) (mins : ℕ) (w : World) → Estimated w.db.orders (set_eta env id mins w).1.db.orders
  unfolding set_eta call
  set_eta-Estimated id mins w = elim (Option-cases (env.fails w.calls)) [
    | inr (s, down) ↦ inl (ground arith)
    | inl up ↦ inr (id, mins, env.now (tick w).calls, ground arith)
  ]
