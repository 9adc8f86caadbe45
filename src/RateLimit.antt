-- ===== src/RateLimit.antt =====
-- pkg/middleware/ratelimit.go. The sorted set of a key is the list of its members, which are times in
-- nanoseconds, newest first; a member's score is `round` of it, the nearest double, and so is the bound
-- that Redis reads in ZREMRANGEBYSCORE. The pipeline happens as a whole or reports an error and does
-- nothing. Redis reaps a key at the clock of the request that finds it.
pub mod Window
use Prim.Native.String.{◌++◌ as append}
use rush_delivery_engine.Prelude.{
  ℕ, Bool, true, false, not, ◌&&◌, ◌+◌, ◌-◌, Option, none, some, String, List, [], ◌∷◌, ◌==◌, leb,
  str_eq, any, select, length, if◌then◌else◌,
}

pub record SlidingWindow : Type 0 where
  pub limit : ℕ
  pub window : ℕ
  pub prefix : String

pub record Bucket : Type 0 where
  pub members : List ℕ
  pub expires_at : ℕ

abbrev pub Redis : Type 0
Redis = String → Bucket

-- EXPIRE, as a later command at time `now` sees it.
abbrev pub live : ℕ → Bucket → List ℕ
live now b = if leb b.expires_at now then [] else b.members

-- ZADD key now now
abbrev pub zadd : ℕ → List ℕ → List ℕ
zadd now members = if any (λ m. m == now) members then members else now ∷ members

module _ (round : ℕ → ℕ) (s : SlidingWindow) where
  -- ZREMRANGEBYSCORE key 0 (now - window) removes the member; a bound below 0 removes none.
  abbrev pub is_stale : ℕ → ℕ → Bool
  is_stale now m = leb s.window now && leb (round m) (round (now - s.window))

  abbrev pub is_fresh : ℕ → ℕ → Bool
  is_fresh now m = not (is_stale now m)

  -- The pipeline of `Allow` on its key.
  unfoldable pub hit : ℕ → Bucket → Bucket
  hit now b = record {
    members = select (is_fresh now) (zadd now (live now b));
    expires_at = now + s.window;
  }

  abbrev pub key_of : String → String
  key_of identity = append (append s.prefix ":") identity

  abbrev pub put : String → Bucket → Redis → Redis
  put key b redis k = if str_eq k key then b else redis k

  -- `none` where `pipe.Exec` reports an error, else the verdict and the count.
  unfoldable pub allow : Option String → ℕ → String → Redis → Option (Bool × ℕ) × Redis
  unfolding hit
  allow (some down) now identity redis = (none, redis)
  allow none now identity redis =
      let b = hit now (redis (key_of identity)) in
      (some (leb (length b.members) s.limit, length b.members), put (key_of identity) b redis)

-- What the middleware does with a request: it calls `next`, with the two headers it has set by then, or
-- answers 429 with the three.
pub data Verdict : Type 0 where
  pass_unthrottled : Verdict
  pass : ℕ → ℕ → Verdict
  too_many_requests : ℕ → ℕ → ℕ → Verdict

-- `int(s.window.Seconds())`
abbrev pub seconds : (ℕ → ℕ) → SlidingWindow → ℕ
seconds whole_seconds s = whole_seconds s.window

-- `s.limit - count` stops at 0, as `max0` has it.
settle : (ℕ → ℕ) → SlidingWindow → Option (Bool × ℕ) → Verdict
settle whole_seconds s none = pass_unthrottled
settle whole_seconds s (some (true, count)) = pass s.limit (s.limit - count)
settle whole_seconds s (some (false, count)) =
    too_many_requests s.limit (s.limit - count) (seconds whole_seconds s)

-- `HTTP`, from what `identify` returns.
unfoldable pub http :
    (ℕ → ℕ) → (ℕ → ℕ) → SlidingWindow → Option String → ℕ → String → Redis → Verdict × Redis
unfolding settle allow
http round whole_seconds s down now identity redis =
    let (answer, redis') = allow round s down now identity redis in
    if str_eq identity ""
    then (pass_unthrottled, redis)
    else (settle whole_seconds s answer, redis')
