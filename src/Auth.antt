-- ===== src/Auth.antt =====
-- pkg/auth/jwt.go, pkg/auth/middleware.go, and the login endpoint of internal/order/auth_handler.go. The
-- library golang-jwt is a parameter.
pub mod Passing
use Prim.Native.Char.{Char, code}
use Prim.Native.Nat.{◌/◌}
use Prim.Native.String.{String, [], ◌∷◌}
use rush_delivery_engine.Prelude.{
  ℕ, ◌+◌, ◌*◌, ◌<◌, ◌≡◌, Bool, true, false, Option, none, some, ◌==◌, if◌then◌else◌,
}
use rush_delivery_engine.Platform.{Uuid, Time}

pub record Claims : Type 0 where
  pub customer_id : Uuid
  pub role : String
  pub issued_at : Time
  pub expires_at : Time
  pub issuer : String

-- `sign secret claims` is `NewWithClaims` of HS256 and `SignedString`. `parse key now token` is
-- `ParseWithClaims` at the time `now`: `key` gets whether the token's method is an HMAC, and returns the
-- secret or an error; with the claims comes the field `Valid` of the token.
pub record Jwt : Type 0 where
  pub sign : String → Claims → Option String
  pub parse : (Bool → Option String) → Time → String → Option (Claims × Bool)

-- What the library promises: a token that was signed with a secret parses with this secret until it
-- expires.
pub record IsJwt (jwt : Jwt) : Type 0 where
  pub parse_signed :
      (key : Bool → Option String) (secret token : String) (claims : Claims) (now : Time)
      → jwt.sign secret claims ≡ some token
      → key true ≡ some secret
      → now < claims.expires_at
      → jwt.parse key now token ≡ some (claims, true)

pub record Signer : Type 0 where
  pub secret : String
  pub ttl : ℕ

abbrev pub nanoseconds_of_hour : ℕ
nanoseconds_of_hour = 3600000000000

-- `NewSigner`: 24 hours where none are given. A negative number of hours, for which it takes 24 as well, is
-- not a value of the model.
unfoldable pub new_signer : String → ℕ → Signer
new_signer secret hours = record {
  secret = secret;
  ttl = (if hours == 0 then 24 else hours) * nanoseconds_of_hour;
}

abbrev pub nanoseconds_of_second : ℕ
nanoseconds_of_second = 1000000000

-- `jwt.NewNumericDate`, which drops the part of a second.
abbrev pub numeric_date : Time → Time
numeric_date t = t / nanoseconds_of_second * nanoseconds_of_second

abbrev pub claims_of : Signer → Time → Uuid → String → Claims
claims_of s now customer_id role = record {
  customer_id = customer_id;
  role = role;
  issued_at = numeric_date now;
  expires_at = numeric_date (now + s.ttl);
  issuer = "rush-delivery-engine";
}

unfoldable pub sign : Jwt → Signer → Time → Uuid → String → Option String
sign jwt s now customer_id role = jwt.sign s.secret (claims_of s now customer_id role)

-- The key function of `Verify`.
abbrev pub key_of : Signer → Bool → Option String
key_of s true = some s.secret
key_of s false = none

if_valid : Option (Claims × Bool) → Option Claims
if_valid none = none
if_valid (some (claims, true)) = some claims
if_valid (some (claims, false)) = none

unfoldable pub verify : Jwt → Signer → Time → String → Option Claims
unfolding if_valid
verify jwt s now token = if_valid (jwt.parse (key_of s) now token)

-- `strings.HasPrefix` and `strings.TrimPrefix`
unfoldable pub strip_prefix : String → String → Option String
strip_prefix [] text = some text
strip_prefix (c ∷ prefix) [] = none
strip_prefix (c ∷ prefix) (d ∷ text) =
    let rest = strip_prefix prefix text in if code c == code d then rest else none

-- What `Middleware` does with a request: 401 with a text, or `next` with the claims in the context.
pub data Admission : Type 0 where
  unauthorized : String → Admission
  admitted : Claims → Admission

check_claims : Option Claims → Admission
check_claims none = unauthorized "invalid token"
check_claims (some claims) = admitted claims

check_token : Jwt → Signer → Time → Option String → Admission
unfolding check_claims
check_token jwt s now none = unauthorized "missing bearer token"
check_token jwt s now (some token) = check_claims (verify jwt s now token)

unfoldable pub middleware : Jwt → Signer → Time → String → Admission
unfolding check_token
middleware jwt s now header = check_token jwt s now (strip_prefix "Bearer " header)

pub data LoginReply : Type 0 where
  token_reply : String → LoginReply
  login_error : ℕ → String → LoginReply

unfoldable pub reply_token : Option String → LoginReply
reply_token none = login_error 500 "sign failed"
reply_token (some token) = token_reply token

-- `Login`; the body is the customer id that it decodes to, `none` where it does not decode.
unfoldable pub login : Jwt → Signer → Time → Option Uuid → LoginReply
unfolding reply_token sign
login jwt s now none = login_error 400 "customer_id required"
login jwt s now (some customer_id) =
    if customer_id == 0
    then login_error 400 "customer_id required"
    else reply_token (sign jwt s now customer_id "customer")
