-- ===== src/Store/Errors.antt =====
-- The errors of the services: their sentinels, the errors of calls to servers, and the two ways in
-- which `fmt.Errorf` wraps them.
use Prim.Native.String.{◌++◌}
use rush_delivery_engine.Prelude.{◌≡◌, refl, ◌⊎◌, inl, inr, String}
use rush_delivery_engine.Order.Model.{Status, status_text}

pub data Error : Type 0 where
  order_not_found rider_not_found invalid_request rider_invalid_request no_rider_available : Error
  no_rows : Error
  call_failed : String → Error  -- a call to Postgres, Redis or Kafka
  constraint : String → Error  -- a row that a table refuses
  unknown_state : Status → Error
  illegal_transition : Status → Status → Error
  wrap : String → Error → Error  -- `fmt.Errorf("text: %w", err)`
  detail : Error → String → Error  -- `fmt.Errorf("%w: text", err)`

-- What `errors.Is` compares with a sentinel.
unfoldable pub root : Error → Error
root (wrap s e) = root e
root (detail e s) = root e
root e = e

-- `err.Error()`
unfoldable pub error_text : Error → String
error_text order_not_found = "order not found"
error_text rider_not_found = "rider not found"
error_text invalid_request = "invalid request"
error_text rider_invalid_request = "invalid request"
error_text no_rider_available = "no available rider within radius"
error_text no_rows = "no rows in result set"
error_text (call_failed s) = s
error_text (constraint s) = s
error_text (unknown_state from) = "unknown state: " ++ status_text from
error_text (illegal_transition from to) =
    "illegal transition: " ++ status_text from ++ " → " ++ status_text to
error_text (wrap s e) = s ++ ": " ++ error_text e
error_text (detail e s) = error_text e ++ ": " ++ s

pub data Result (A : Type 0) : Type 0 where
  ok : A → Result A
  err : Error → Result A

pub Result-cases :
    {A : Type 0} (r : Result A) → ((a : A) × (r ≡ ok a)) ⊎ ((e : Error) × (r ≡ err e))
Result-cases (ok a) = inl (a, refl)
Result-cases (err e) = inr (e, refl)
