-- ===== src/Auth/Passing.antt =====
-- Who passes the middleware of pkg/auth.
use Prim.Native.Char.{code}
use Prim.Native.String.{String, [], ◌∷◌, ◌++◌}
use Prim.Native.String.append
use rush_delivery_engine.Prelude.{
  ◌+◌, ◌<◌, ◌≡◌, refl, ap, ◌∙◌, some, inl, inr, ==_refl, arith, Option-cases,
}
use rush_delivery_engine.Platform.{Uuid, Time}
use rush_delivery_engine.Auth.{
  Jwt, IsJwt, Signer, numeric_date, claims_of, sign, key_of, if_valid, verify, strip_prefix,
  admitted, check_claims, check_token, middleware, token_reply, reply_token, login,
}

strip_prefix-append : (prefix text : String) → strip_prefix prefix (prefix ++ text) ≡ some text
unfolding strip_prefix
strip_prefix-append [] text = ap some (append.nil text)
strip_prefix-append (c ∷ prefix) text =
    ap (strip_prefix (c ∷ prefix)) (append.cons c prefix text)
    ∙ rw (==_refl (code c)) (strip_prefix-append prefix text)

login_token :
    (jwt : Jwt) (s : Signer) (now : Time) (id : Uuid) (token : String)
    → login jwt s now (some id) ≡ token_reply token
    → jwt.sign s.secret (claims_of s now id "customer") ≡ some token
unfolding login reply_token sign
login_token jwt s now id token h =
    elim (Option-cases (jwt.sign s.secret (claims_of s now id "customer"))) [
      | inl e ↦ absurd (ground arith)
      | inr (t, e) ↦ ground arith
    ]

-- Where the JWT library keeps its promise: the token of a login passes the middleware of the same signer
-- as a bearer token until its date of expiry, cut to the second, with the claims of the customer who logged in.
pub login-admitted :
    (jwt : Jwt) (law : IsJwt jwt) (s : Signer) (now later : Time) (id : Uuid) (token : String)
    → login jwt s now (some id) ≡ token_reply token
    → later < numeric_date (now + s.ttl)
    → middleware jwt s later ("Bearer " ++ token) ≡ admitted (claims_of s now id "customer")
unfolding middleware check_token check_claims verify if_valid
login-admitted jwt law s now later id token h early =
    rw
      (
        strip_prefix-append "Bearer " token,
        law.parse_signed (key_of s) s.secret token (claims_of s now id "customer") later
            (login_token jwt s now id token h) refl early,
      )
      refl
