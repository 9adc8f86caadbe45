-- ===== src/Wire.antt =====
-- Kafka messages, and encoding/json as the program uses it. A JSON object is its list of fields, with
-- numbers as the doubles that they stand for; a field that is missing decodes to the zero value.
use Prim.Native.Char.{code}
use Prim.Native.String.{[], ◌∷◌}
use rush_delivery_engine.Prelude.{
  ℕ, Bool, true, false, ◌+◌, ◌==◌, ◌&&◌, ◌||◌, leb, Option, none, some, String, List, [], ◌∷◌,
  str_eq, if◌then◌else◌,
}
use rush_delivery_engine.Platform.{Uuid, Float, Time, Trace, Env}

pub data Value : Type 0 where
  str : String → Value
  num : Float → Value

abbrev pub Object : Type 0
Object = List (String × Value)

-- The bytes of a payload: a JSON object, or text that `json.Unmarshal` refuses.
pub data Body : Type 0 where
  json : Object → Body
  not_json : String → Body

pub record Message : Type 0 where
  pub topic : String
  pub key : String
  pub value : Body
  pub headers : Trace

abbrev or_earlier : Option Value → Option Value → Option Value
or_earlier (some v) earlier = some v
or_earlier none earlier = earlier

-- The value of a key in a decoded object: the last one counts.
abbrev pub get_field : String → Object → Option Value
get_field k [] = none
get_field k ((j, v) ∷ fields) =
    or_earlier (get_field k fields) (if str_eq j k then some v else none)

-- One of the codes is that of an upper-case ASCII letter and the other that of its lower case.
abbrev is_upper_of : ℕ → ℕ → Bool
is_upper_of c d = leb 65 c && leb c 90 && (c + 32 == d)

abbrev same_letter : ℕ → ℕ → Bool
same_letter c d = c == d || is_upper_of c d || is_upper_of d c

abbrev fold_eq : String → String → Bool
fold_eq [] [] = true
fold_eq [] (d ∷ t) = false
fold_eq (c ∷ s) [] = false
fold_eq (c ∷ s) (d ∷ t) = same_letter (code c) (code d) && fold_eq s t

-- The value for a field of a struct: case does not count, and the last one does.
abbrev pub get_member : String → Object → Option Value
get_member k [] = none
get_member k ((j, v) ∷ fields) =
    or_earlier (get_member k fields) (if fold_eq j k then some v else none)

abbrev as_uuid : Env → Option Value → Option Uuid
as_uuid env none = some 0
as_uuid env (some (str s)) = env.uuid_parse s
as_uuid env (some (num f)) = none

abbrev as_time : Env → Option Value → Option Time
as_time env none = some 0
as_time env (some (str s)) = env.time_parse s
as_time env (some (num f)) = none

abbrev as_float : Option Value → Option Float
as_float none = some 0
as_float (some (str s)) = none
as_float (some (num f)) = some f

abbrev as_text : Option Value → Option String
as_text none = some ""
as_text (some (str s)) = some s
as_text (some (num f)) = none

abbrev pub uuid_field : Env → String → Object → Option Uuid
uuid_field env k fields = as_uuid env (get_member k fields)

abbrev pub time_field : Env → String → Object → Option Time
time_field env k fields = as_time env (get_member k fields)

abbrev pub float_field : String → Object → Option Float
float_field k fields = as_float (get_member k fields)

abbrev pub text_field : String → Object → Option String
text_field k fields = as_text (get_member k fields)

infixl 5 ◌>>=◌
abbrev pub ◌>>=◌ : {A B : Type 0} → Option A → (A → Option B) → Option B
none >>= f = none
some a >>= f = f a
