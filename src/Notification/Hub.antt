-- ===== src/Notification/Hub.antt =====
-- internal/notification/hub.go. The lock makes each method on the map one step. A connection is
-- named by a number, its pointer.
pub mod Subscriptions
use rush_delivery_engine.Prelude.{
  ℕ, Bool, not, Option, none, some, List, [], ◌∷◌, ◌++◌, ◌==◌, any, select, if◌then◌else◌,
}
use rush_delivery_engine.Platform.{Uuid}

abbrev pub Conn : Type 0
Conn = ℕ

-- `conns`, with a set as the list of its members.
abbrev pub Hub : Type 0
Hub = Uuid → Option (List Conn)

abbrev pub new_hub : Hub
new_hub id = none

abbrev pub contains : Conn → List Conn → Bool
contains c = any (λ d. d == c)

abbrev pub insert : Conn → List Conn → List Conn
insert c set = if contains c set then set else c ∷ set

abbrev pub delete : Conn → List Conn → List Conn
delete c = select (λ d. not (d == c))

abbrev pub set_of : Option (List Conn) → List Conn
set_of none = []
set_of (some set) = set

abbrev pub put : Uuid → Option (List Conn) → Hub → Hub
put id entry hub k = if k == id then entry else hub k

unfoldable pub register : Uuid → Conn → Hub → Hub
register id c hub = put id (some (insert c (set_of (hub id)))) hub

-- The entry without its last connection is deleted.
abbrev pub unless_empty : List Conn → Option (List Conn)
unless_empty [] = none
unless_empty (c ∷ set) = some (c ∷ set)

without : Conn → Option (List Conn) → Option (List Conn)
without c none = none
without c (some set) = unless_empty (delete c set)

unfoldable pub unregister : Uuid → Conn → Hub → Hub
unfolding without
unregister id c hub = put id (without c (hub id)) hub

-- The connections that `Broadcast` writes to.
unfoldable pub recipients : Uuid → Hub → List Conn
recipients id hub = set_of (hub id)

-- `Broadcast`: the connections that get the value, and those whose write fails, which it closes. It
-- leaves the map to the read loops.
unfoldable pub broadcast : (Conn → Bool) → Uuid → Hub → List Conn × List Conn
unfolding recipients
broadcast fails id hub =
    (select (λ c. not (fails c)) (recipients id hub), select fails (recipients id hub))

-- What a connection's handler does with the hub: it registers when the socket opens and unregisters
-- when its read loop ends.
pub data Event : Type 0 where
  opened : Uuid → Conn → Event
  closed : Uuid → Conn → Event

abbrev pub apply : Event → Hub → Hub
apply (opened id c) = register id c
apply (closed id c) = unregister id c

-- The hub after the events, the latest first.
unfoldable pub after : List Event → Hub
after [] = new_hub
after (e ∷ earlier) = apply e (after earlier)
