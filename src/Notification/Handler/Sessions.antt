-- ===== src/Notification/Handler/Sessions.antt =====
-- What the sessions of customers leave in the hub once they have ended, however they overlap.
use rush_delivery_engine.Prelude.{
  Bool, true, false, ◌≡◌, ◌≢◌, refl, ap, sym, ◌∙◌, inl, inr, Option, none, some, String, List, [],
  ◌∷◌, ◌==◌, arith, ==_refl, ==_iff, any, Bool-cases,
}
use rush_delivery_engine.Platform.{Uuid, Env}
use rush_delivery_engine.Notification.Hub.{
  Conn, contains, set_of, recipients, Event, opened, closed, after,
}
use rush_delivery_engine.Notification.Hub.Subscriptions.{is_open, recipients-is_open, after-IsClean}
use rush_delivery_engine.Notification.Handler.{read_loop, session, subscribe, order}

abbrev conn_of : Event → Conn
conn_of (opened id c) = c
conn_of (closed id c) = c

abbrev pub uses : Conn → List Event → Bool
uses c = any (λ e. conn_of e == c)

-- The events of two lists, each in its order.
pub data Interleaved : List Event → List Event → List Event → Type 0 where
  both_done : Interleaved [] [] []
  left :
      {e : Event} {xs ys zs : List Event} → Interleaved xs ys zs → Interleaved (e ∷ xs) ys (e ∷ zs)
  right :
      {e : Event} {xs ys zs : List Event} → Interleaved xs ys zs → Interleaved xs (e ∷ ys) (e ∷ zs)

-- Sessions that have ended, each with a connection of its own, at any overlap.
pub data Sessions (env : Env) : List Event → Type 0 where
  no_session : Sessions env []
  one_more :
      (param : String) (upgrade : Option String) (c : Conn) (reads : List Bool)
      {rest all : List Event}
      → read_loop reads ≡ true
      → uses c rest ≡ false
      → Interleaved (order env param upgrade c reads).1 rest all
      → Sessions env rest
      → Sessions env all

is_open-unused :
    (id : Uuid) (c : Conn) (es : List Event) → uses c es ≡ false → is_open id c es ≡ false
is_open-unused id c [] h = refl
is_open-unused id c (opened i d ∷ es) h = ground (arith, is_open-unused id c es)
is_open-unused id c (closed i d ∷ es) h = ground (arith, is_open-unused id c es)

is_open-right :
    (id : Uuid) (c : Conn) {xs ys zs : List Event}
    → Interleaved xs ys zs
    → uses c xs ≡ false
    → is_open id c zs ≡ is_open id c ys
is_open-right id c both_done h = refl
is_open-right id c (left {e = opened i d} r) h = ground (arith, is_open-right id c r)
is_open-right id c (left {e = closed i d} r) h = ground (arith, is_open-right id c r)
is_open-right id c (right {e = opened i d} r) h = ground (arith, is_open-right id c r h)
is_open-right id c (right {e = closed i d} r) h = ground (arith, is_open-right id c r h)

Interleaved-swap : {xs ys zs : List Event} → Interleaved xs ys zs → Interleaved ys xs zs
Interleaved-swap both_done = both_done
Interleaved-swap (left r) = right (Interleaved-swap r)
Interleaved-swap (right r) = left (Interleaved-swap r)

module _ (c : Conn) (reads : List Bool) (over : read_loop reads ≡ true) where
  -- A session that ended is closed, and uses no other connection.
  subscribe-closed :
      (id : Uuid) (at : Option Uuid) (upgrade : Option String)
      → is_open id c (subscribe at upgrade c reads).1 ≡ false
  unfolding subscribe session
  subscribe-closed id none upgrade = refl
  subscribe-closed id (some i) (some e) = refl
  subscribe-closed id (some i) none = rw over (ground arith)

  subscribe-uses :
      (d : Conn) (at : Option Uuid) (upgrade : Option String)
      → (c == d) ≡ false
      → uses d (subscribe at upgrade c reads).1 ≡ false
  unfolding subscribe session
  subscribe-uses d none upgrade other = refl
  subscribe-uses d (some i) (some e) other = refl
  subscribe-uses d (some i) none other = rw (over, other) refl

Sessions-closed :
    (env : Env) (id : Uuid) (d : Conn) {es : List Event} → Sessions env es → is_open id d es ≡ false
unfolding order
Sessions-closed env id d no_session = refl
Sessions-closed env id d (one_more param upgrade c reads {rest} {all} over fresh both others) =
    elim (Bool-cases (c == d)) [
      | inr other ↦
          is_open-right id d both
            (subscribe-uses c reads over d (env.uuid_parse param) upgrade other)
          ∙ Sessions-closed env id d others
      | inl same ↦
          let e = (==_iff c d).0 same in
          ap (λ x. is_open id x all) (sym e)
          ∙ is_open-right id c (Interleaved-swap both) fresh
          ∙ subscribe-closed c reads over id (env.uuid_parse param) upgrade
    ]

empty_set : (set : List Conn) → ((c : Conn) → contains c set ≡ false) → set ≡ []
empty_set [] h = refl
empty_set (c ∷ set) h = absurd (ground (arith, h c, ==_refl c))

no_entry : (entry : Option (List Conn)) → set_of entry ≡ [] → entry ≢ some [] → entry ≡ none
no_entry none e h = refl
no_entry (some set) e h = absurd (h (ap some e))

-- Once the sessions of any customers have ended, however they overlapped and whatever they were sent, the
-- hub has no entry for any order: nobody is broadcast to, and nothing is kept.
pub hub_left_empty :
    (env : Env) (id : Uuid) (events : List Event) → Sessions env events → after events id ≡ none
unfolding recipients
hub_left_empty env id events s =
    no_entry (after events id)
      (empty_set (recipients id (after events))
        (λ c. recipients-is_open id c events ∙ Sessions-closed env id c s))
      (after-IsClean events id)
