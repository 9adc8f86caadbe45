-- ===== src/Notification/Handler.antt =====
-- internal/notification/handler.go: the WebSocket of one customer. Deadlines and pings bear on the connection
-- only and are not modelled.
pub mod Sessions
use rush_delivery_engine.Prelude.{
  Bool, true, false, Option, none, some, String, List, [], ◌∷◌, ◌++◌, if◌then◌else◌,
}
use rush_delivery_engine.Platform.{Uuid, Env}
use rush_delivery_engine.Notification.Hub.{Conn, Event, opened, closed}

-- How the request is answered.
pub data Answer : Type 0 where
  bad_request : String → Answer
  upgrade_failed : Answer
  upgraded : Answer

-- The loop over `NextReader`: `true` is a frame, which is dropped, `false` the error that ends the loop; at
-- the end of the list it still waits.
unfoldable pub read_loop : List Bool → Bool
read_loop [] = false
read_loop (true ∷ reads) = read_loop reads
read_loop (false ∷ reads) = true

-- The deferred `Unregister`.
abbrev ended : Bool → Uuid → Conn → List Event
ended true id c = closed id c ∷ []
ended false id c = []

unfoldable pub session : Option String → Uuid → Conn → List Bool → Answer × List Event
unfolding read_loop
session (some e) id c reads = (upgrade_failed, [])
session none id c reads = (upgraded, ended (read_loop reads) id c ++ opened id c ∷ [])

unfoldable pub subscribe : Option Uuid → Option String → Conn → List Bool → Answer × List Event
unfolding session
subscribe none upgrade c reads = (bad_request "invalid order_id", [])
subscribe (some id) upgrade c reads = session upgrade id c reads

-- `order`: the answer, and what it does with the hub, the latest first. `upgrade` is the error of the
-- upgrade, if it fails, and `c` the connection that it gives otherwise.
unfoldable pub order : Env → String → Option String → Conn → List Bool → Answer × List Event
unfolding subscribe
order env param = subscribe (env.uuid_parse param)
