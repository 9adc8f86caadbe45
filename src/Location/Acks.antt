-- ===== src/Location/Acks.antt =====
-- What an acknowledgement of internal/location/handler.go stands for.
use rush_delivery_engine.Prelude.{
  ℕ, ◌+◌, ◌≤◌, ◌≡◌, true, Has, refl, sym, ap, ◌∙◌, subst, All, All-append, append-nil, append_assoc,
  String, ◌⊎◌, inl, inr, Option, none, some, List, [], ◌∷◌, ◌++◌, arith, length, length-append,
  Option-cases, Bool-cases, str_eq,
}
use rush_delivery_engine.Platform.{Uuid, Float, Time, Env}
use rush_delivery_engine.Wire.{json, get_field, Message}
use rush_delivery_engine.Kafka.Topics.{topic_rider_location_update}
use rush_delivery_engine.Kafka.Producer.{publish, publish_raw, message}
use rush_delivery_engine.Store.Errors.{Error, ok, err, call_failed, Result-cases}
use rush_delivery_engine.Store.{World}
use rush_delivery_engine.Store.Tx.{call, settle_call}
use rush_delivery_engine.Rider.Service.{geoadd}
use rush_delivery_engine.Rider.Service.Effects.{geoadd_kept}
use rush_delivery_engine.Location.{
  Reply, ack, ws_error, IncomingMessage, encode_location, update_location, update_from, receive,
  acknowledge, rider_loop, timestamp_of, as_float, Session, bad_request, upgrade_failed, closed,
  with_conn, with_id, rider,
}

-- The acknowledgements among the replies.
abbrev pub acks : List Reply → ℕ
acks [] = 0
acks (ack ∷ replies) = 1 + acks replies
acks (ws_error text ∷ replies) = acks replies

-- The event that a frame of the rider asks for: its coordinates, at its own timestamp or at a reading of
-- the clock.
pub record IsReport (env : Env) (rider_id : Uuid) (frames : List (Option IncomingMessage))
    (m : Message) : Type 0 where
  pub frame : IncomingMessage
  pub arrived : Has (some frame) frames
  pub asks : str_eq frame.type_ "location_update" ≡ true
  pub lat : Float
  pub lng : Float
  pub lat_sent : as_float (get_field "lat" frame.payload) ≡ some lat
  pub lng_sent : as_float (get_field "lng" frame.payload) ≡ some lng
  pub calls : ℕ
  pub event :
      m
      ≡ message env topic_rider_location_update (env.uuid_text rider_id) (
          json (
            encode_location env (record {
              rider_id = rider_id;
              lat = lat;
              lng = lng;
              timestamp = timestamp_of env (env.now calls) (get_field "timestamp" frame.payload);
            })))

-- From one state to the other, `n` events or more were published, each of them asked for by one of the
-- frames of the rider, and no table changed.
pub record Publishes (env : Env) (rider_id : Uuid) (frames : List (Option IncomingMessage)) (n : ℕ)
    (w v : World) : Type 0 where
  pub more : List Message
  pub log : v.log ≡ w.log ++ more
  pub count : n ≤ length more
  pub reports : All (IsReport env rider_id frames) more
  pub db : v.db ≡ w.db

module _ (env : Env) (rider_id : Uuid) where
  -- `UpdateLocation` fails, and nothing is published; or it publishes one event, and the rider has been
  -- put in the geo index.
  pub update_location-ends :
      (lat lng : Float) (ts : Time) (w : World)
      → let r = update_location env rider_id lat lng ts w in
        ((e : Error) × (r.0 ≡ err e) × (r.1.log ≡ w.log) × (r.1.db ≡ w.db))
        ⊎ ((r.0 ≡ ok tt)
            × (r.1.log
                ≡ w.log
                  ++ message env topic_rider_location_update (env.uuid_text rider_id) (
                      json (
                        encode_location env
                          (record { rider_id = rider_id; lat = lat; lng = lng; timestamp = ts })))
                    ∷ [])
            × (r.1.db ≡ w.db))
  unfolding update_location publish publish_raw call
  update_location-ends lat lng ts w =
      let (same_log, same_db) = geoadd_kept env rider_id lat lng w in
      let w' = (geoadd env rider_id lat lng w).1 in
      elim (Result-cases (geoadd env rider_id lat lng w).0) [
        | inr (e, failed) ↦ inl (e, ground arith, ground arith, ground arith)
        | inl (_, added) ↦ elim (Option-cases (env.fails w'.calls)) [
          | inr (s, down) ↦ inl (call_failed s, ground arith, ground arith, ground arith)
          | inl up ↦ inr (ground arith, rw (added, up, settle_call, same_log) refl, ground arith)
        ]
      ]

module _ (env : Env) (rider_id : Uuid) (frames : List (Option IncomingMessage)) where
  none_published : (w : World) → Publishes env rider_id frames 0 w w
  none_published w = record {
    more = [];
    log = sym (append-nil w.log);
    count = omega arith;
    reports = tt;
    db = refl;
  }

  both_published :
      (k n : ℕ) (u v w : World)
      → Publishes env rider_id frames k u v
      → Publishes env rider_id frames n v w
      → Publishes env rider_id frames (k + n) u w
  both_published k n u v w g h = record {
    more = g.more ++ h.more;
    log = h.log ∙ ap (λ log. log ++ h.more) g.log ∙ append_assoc u.log g.more h.more;
    count = omega (arith, length-append g.more h.more, g.count, h.count);
    reports = All-append _ g.more h.more g.reports h.reports;
    db = h.db ∙ g.db;
  }

  reported :
      (frame : IncomingMessage) (lat lng : Option Float) (w : World)
      → Has (some frame) frames
      → str_eq frame.type_ "location_update" ≡ true
      → as_float (get_field "lat" frame.payload) ≡ lat
      → as_float (get_field "lng" frame.payload) ≡ lng
      → let (reply, v) = update_from env rider_id frame.payload lat lng w in
        Publishes env rider_id frames (acks (reply ∷ [])) w v
  unfolding update_from acknowledge
  reported frame none lng w arrived asks sent_lat sent_lng = none_published w
  reported frame (some lat) none w arrived asks sent_lat sent_lng = none_published w
  reported frame (some lat) (some lng) w arrived asks sent_lat sent_lng =
      let ts = timestamp_of env (env.now w.calls) (get_field "timestamp" frame.payload) in
      elim (update_location-ends env rider_id lat lng ts w) [
        | inl (e, failed, same, kept) ↦ rw failed (record {
          more = [];
          log = same ∙ sym (append-nil w.log);
          count = omega arith;
          reports = tt;
          db = kept;
        })
        | inr (done, grown, kept) ↦ rw done (record {
          more = _;
          log = grown;
          count = omega arith;
          reports = (
            record {
              frame = frame;
              arrived = arrived;
              asks = asks;
              lat = lat;
              lng = lng;
              lat_sent = sent_lat;
              lng_sent = sent_lng;
              calls = w.calls;
              event = refl;
            },
            tt,
          );
          db = kept;
        })
      ]

  receive-Publishes :
      (msg : IncomingMessage) (w : World)
      → Has (some msg) frames
      → let (reply, v) = receive env rider_id msg w in
        Publishes env rider_id frames (acks (reply ∷ [])) w v
  unfolding receive
  receive-Publishes msg w arrived = elim (Bool-cases (str_eq msg.type_ "location_update")) [
    | inl update ↦ rw update (reported msg _ _ w arrived update refl refl)
    | inr unknown ↦ rw unknown (none_published w)
  ]

  acks_cons : (r : Reply) (rs : List Reply) → acks (r ∷ rs) ≡ acks (r ∷ []) + acks rs
  acks_cons ack rs = omega arith
  acks_cons (ws_error text) rs = omega arith

  rider_loop-Publishes :
      (rest : List (Option IncomingMessage)) (w : World)
      → ((frame : Option IncomingMessage) → Has frame rest → Has frame frames)
      → let (replies, v) = rider_loop env rider_id rest w in
        Publishes env rider_id frames (acks replies) w v
  unfolding rider_loop
  rider_loop-Publishes [] w among = none_published w
  rider_loop-Publishes (none ∷ rest) w among = none_published w
  rider_loop-Publishes (some msg ∷ rest) w among =
      let (reply, w') = receive env rider_id msg w in
      let (replies, v) = rider_loop env rider_id rest w' in
      subst (λ n. Publishes env rider_id frames n w v) (sym (acks_cons reply replies))
        (both_published (acks (reply ∷ [])) (acks replies) w w' v
          (receive-Publishes msg w (among (some msg) (inl refl)))
          (rider_loop-Publishes rest w' (λ frame there. among frame (inr there))))

-- The replies that the handler wrote.
abbrev pub replies_of : Session → List Reply
replies_of (bad_request text) = []
replies_of upgrade_failed = []
replies_of (closed replies) = replies

-- What the handler publishes: only events that the frames ask for, of the rider that its path names, and
-- none where it names none.
abbrev pub PublishesFor :
    Env → Option Uuid → List (Option IncomingMessage) → ℕ → World → World → Type 0
PublishesFor env none frames n w v = (n ≡ 0) × (v ≡ w)
PublishesFor env (some rider_id) frames n w v = Publishes env rider_id frames n w v

with_conn-Publishes :
    (env : Env) (rider_id : Uuid) (frames : List (Option IncomingMessage)) (upgrade : Option String)
    (w : World)
    → let (s, v) = with_conn env rider_id frames upgrade w in
      Publishes env rider_id frames (acks (replies_of s)) w v
unfolding with_conn
with_conn-Publishes env rider_id frames (some e) w = none_published env rider_id frames w
with_conn-Publishes env rider_id frames none w =
    rider_loop-Publishes env rider_id frames frames w (λ frame there. there)

with_id-PublishesFor :
    (env : Env) (frames : List (Option IncomingMessage)) (upgrade : Option String)
    (parsed : Option Uuid) (w : World)
    → let (s, v) = with_id env frames upgrade parsed w in
      PublishesFor env parsed frames (acks (replies_of s)) w v
unfolding with_id
with_id-PublishesFor env frames upgrade none w = (refl, refl)
with_id-PublishesFor env frames upgrade (some rider_id) w =
    with_conn-Publishes env rider_id frames upgrade w

-- Whatever the path, the frames and the failures: the handler of a rider's WebSocket changes no table;
-- every event that it publishes is one that a frame asked for, with the coordinates of the frame and with
-- the rider that the path names, in its key and in its value; and at least as many events are published as
-- the handler acknowledges. Where the path names no rider it does nothing.
pub rider-acks :
    (env : Env) (param : String) (upgrade : Option String) (frames : List (Option IncomingMessage))
    (w : World)
    → let (s, v) = rider env param upgrade frames w in
      PublishesFor env (env.uuid_parse param) frames (acks (replies_of s)) w v
unfolding rider
rider-acks env param upgrade frames w =
    with_id-PublishesFor env frames upgrade (env.uuid_parse param) w
