-- ===== src/RateLimit/Window.antt =====
-- The sliding window of pkg/middleware/ratelimit.go against the history of a key's requests.
use rush_delivery_engine.Prelude.{
  ℕ, Bool, true, false, ◌≡◌, ◌≤◌, ◌<◌, refl, ◌+◌, ◌-◌, none, some, String, List, [], ◌∷◌, ◌==◌, leb,
  arith, any, select, length, All, Bool-cases, inl, inr,
}
use rush_delivery_engine.RateLimit.{
  SlidingWindow, Bucket, Redis, is_stale, is_fresh, hit, key_of, allow,
}

-- Every time in the list is before the one in front of it.
abbrev pub IsNewestFirst : List ℕ → Type 0
IsNewestFirst [] = Unit
IsNewestFirst (t ∷ older) = All (λ m. m < t) older × IsNewestFirst older

-- Rounding to a double keeps the order.
abbrev pub IsMonotone : (ℕ → ℕ) → Type 0
IsMonotone round = (m n : ℕ) → m ≤ n → round m ≤ round n

module _ (round : ℕ → ℕ) (s : SlidingWindow) where
  -- The key's bucket after requests at the times of the list, all of which reached Redis.
  abbrev pub after : List ℕ → Bucket
  unfolding hit
  after [] = record { members = []; expires_at = 0 }
  after (t ∷ older) = hit round s t (after older)

module _ (round : ℕ → ℕ) (s : SlidingWindow) (monotone : IsMonotone round) where
  stale_later :
      (t now m : ℕ) → t ≤ now → is_stale round s t m ≡ true → is_stale round s now m ≡ true
  stale_later t now m h stale =
      ground (arith, monotone (t - s.window) (now - s.window) (omega arith))

  idle_stale : (now t m : ℕ) → t + s.window ≤ now → m ≤ t → is_stale round s now m ≡ true
  idle_stale now t m h older = ground (arith, monotone m (now - s.window) (omega arith))

  select_twice :
      (t now : ℕ) (times : List ℕ)
      → t ≤ now
      → select (is_fresh round s now) (select (is_fresh round s t) times)
        ≡ select (is_fresh round s now) times
  select_twice t now [] h = refl
  select_twice t now (m ∷ times) h =
      ground (arith, select_twice t now times h, stale_later t now m h)

  select_idle :
      (now t : ℕ) (times : List ℕ)
      → t + s.window ≤ now
      → All (λ m. m ≤ t) times
      → select (is_fresh round s now) times ≡ []
  select_idle now t [] h older = refl
  select_idle now t (m ∷ times) h older =
      ground (arith, idle_stale now t m h older.0, select_idle now t times h older.1)

  not_there :
      (p : ℕ → Bool) (t : ℕ) (times : List ℕ)
      → All (λ m. m < t) times
      → any (λ m. m == t) (select p times) ≡ false
  not_there p t [] h = refl
  not_there p t (m ∷ times) h = ground (arith, not_there p t times h.1, h.0)

  weaken : (t : ℕ) (times : List ℕ) → All (λ m. m < t) times → All (λ m. m ≤ t) times
  weaken t [] h = tt
  weaken t (m ∷ times) h = (omega (arith, h.0), weaken t times h.1)

  -- The bucket keeps the times of the history that are fresh at the latest one.
  after-members :
      (t : ℕ) (older : List ℕ)
      → IsNewestFirst (t ∷ older)
      → (after round s (t ∷ older)).members ≡ select (is_fresh round s t) (t ∷ older)
  unfolding after hit
  after-members t [] h = ground arith
  after-members t (u ∷ older) h = elim (Bool-cases (leb (u + s.window) t)) [
    | inl reaped ↦
        rw (reaped, select_idle t u (u ∷ older) (ground arith) (omega arith, weaken u older h.1.0))
          refl
    | inr kept ↦
        rw (kept, after-members u older h.1, not_there (is_fresh round s u) t (u ∷ older) h.0)
          (ground (arith, select_twice u t (u ∷ older) (omega (arith, h.0.0))))
  ]

  -- Where rounding keeps the order, for a key whose earlier requests reached Redis at strictly
  -- increasing times, `Allow` counts the requests of the trailing window, this one included and
  -- rejected ones too, and lets this one pass if and only if they are no more than the limit.
  pub allow-window :
      (t : ℕ) (older : List ℕ) (identity : String) (redis : Redis)
      → IsNewestFirst (t ∷ older)
      → redis (key_of round s identity) ≡ after round s older
      → let count = length (select (is_fresh round s t) (t ∷ older)) in
        (allow round s none t identity redis).0 ≡ some (leb count s.limit, count)
  unfolding allow
  allow-window t older identity redis h bucket = rw (bucket, after-members t older h) refl
