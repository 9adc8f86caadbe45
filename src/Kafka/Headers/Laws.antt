-- ===== src/Kafka/Headers/Laws.antt =====
-- The carrier is a map from keys to values.
use text.Mathlib.TextEquality.{eq_iff}
use rush_delivery_engine.Prelude.{
  ◌≡◌, refl, String, [], ◌∷◌, ◌++◌, arith, str_eq, any, if◌then◌else◌,
}
use rush_delivery_engine.Platform.{Trace}
use rush_delivery_engine.Kafka.Headers.{get, set, keys}

-- After `Set`, `Get` returns the new value at its key and the old one at any other key.
pub get-set :
    (key value k : String) (headers : Trace)
    → get k (set key value headers) ≡ (if str_eq key k then value else get k headers)
unfolding get set
get-set key value k [] = ground arith
get-set key value k ((j, v) ∷ headers) =
    ground (arith, eq_iff key k, eq_iff j key, eq_iff j k, get-set key value k headers)

-- `Set` keeps the keys in their order, and adds its own at the end only if it was not there.
pub keys-set :
    (key value : String) (headers : Trace)
    → keys (set key value headers)
      ≡ (if any (λ k. str_eq k key) (keys headers) then keys headers else keys headers ++ key ∷ [])
unfolding keys set
keys-set key value [] = refl
keys-set key value ((j, v) ∷ headers) = ground (arith, keys-set key value headers)
