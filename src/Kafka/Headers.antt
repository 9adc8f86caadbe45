-- ===== src/Kafka/Headers.antt =====
-- pkg/kafka/propagation.go: the headers of a message as a carrier of a trace context.
pub mod Laws
use rush_delivery_engine.Prelude.{String, List, [], ◌∷◌, map, str_eq, if◌then◌else◌}
use rush_delivery_engine.Platform.{Trace}

-- `Get` returns the value of the first header with this key, and "" where there is none.
unfoldable pub get : String → Trace → String
get key [] = ""
get key ((k, v) ∷ headers) = if str_eq k key then v else get key headers

-- `Set` replaces the first header with this key, or appends one.
unfoldable pub set : String → String → Trace → Trace
set key value [] = (key, value) ∷ []
set key value ((k, v) ∷ headers) =
    if str_eq k key then (k, value) ∷ headers else (k, v) ∷ set key value headers

unfoldable pub keys : Trace → List String
keys headers = map (λ h. h.0) headers

-- What a propagator does with a carrier: it sets the entries of the trace context one by one.
unfoldable pub inject : Trace → Trace → Trace
unfolding set
inject [] headers = headers
inject ((k, v) ∷ trace) headers = inject trace (set k v headers)
