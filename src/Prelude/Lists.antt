-- ===== src/Prelude/Lists.antt =====
-- Lists as the tables and logs of the program: searched, filtered and updated by Boolean tests.
use Prim.Native.Nat.{ℕ, zero, suc, ◌+◌, ◌≤◌, ◌<◌, min}
use mathlib.Core.Path.{◌≡◌, refl}
use mathlib.Core.Logic.{◌≢◌, ◌⊎◌}
use mathlib.Core.Bool.{Bool, true, false, ◌||◌}
use mathlib.Core.Option.{Option, none, some}
use mathlib.Core.List.{List, [], ◌∷◌, ◌++◌, append_assoc}
use native.Mathlib.Omega.{arith}
use rush_delivery_engine.Prelude.Tests.{if◌then◌else◌}

module _ {ℓ} {A : Type ℓ} where
  abbrev pub length : List A → ℕ
  length [] = 0
  length (x ∷ xs) = suc (length xs)

  abbrev pub take : ℕ → List A → List A
  take zero xs = []
  take (suc n) [] = []
  take (suc n) (x ∷ xs) = x ∷ take n xs

  abbrev pub drop : ℕ → List A → List A
  drop zero xs = xs
  drop (suc n) [] = []
  drop (suc n) (x ∷ xs) = drop n xs

  abbrev pub replicate : ℕ → A → List A
  replicate zero a = []
  replicate (suc n) a = a ∷ replicate n a

  -- `WHERE` of a query, first row.
  abbrev pub find : (A → Bool) → List A → Option A
  find p [] = none
  find p (x ∷ xs) = if p x then some x else find p xs

  -- `WHERE` of a query, every row.
  abbrev pub select : (A → Bool) → List A → List A
  select p [] = []
  select p (x ∷ xs) = let rest = select p xs in if p x then x ∷ rest else rest

  -- `UPDATE … SET f WHERE p`.
  abbrev pub update_where : (A → Bool) → (A → A) → List A → List A
  update_where p f [] = []
  update_where p f (x ∷ xs) = (if p x then f x else x) ∷ update_where p f xs

  -- The rows that an `UPDATE … WHERE p` reports.
  abbrev pub rows_affected : (A → Bool) → List A → ℕ
  rows_affected p [] = 0
  rows_affected p (x ∷ xs) = (if p x then 1 else 0) + rows_affected p xs

  abbrev pub any : (A → Bool) → List A → Bool
  any p [] = false
  any p (x ∷ xs) = p x || any p xs

  abbrev pub All {κ} : (A → Type κ) → List A → Type κ
  All P [] = Unit
  All P (x ∷ xs) = P x × All P xs

  pub length-append : (xs ys : List A) → length (xs ++ ys) ≡ length xs + length ys
  length-append [] ys = omega arith
  length-append (x ∷ xs) ys = omega (arith, length-append xs ys)

  pub length-take : (n : ℕ) (xs : List A) → length (take n xs) ≡ min n (length xs)
  length-take zero xs = omega arith
  length-take (suc n) [] = omega arith
  length-take (suc n) (x ∷ xs) = omega (arith, length-take n xs)

  pub All-append {κ} : (P : A → Type κ) (xs ys : List A) → All P xs → All P ys → All P (xs ++ ys)
  All-append P [] ys hx hy = hy
  All-append P (x ∷ xs) ys hx hy = (hx.0, All-append P xs ys hx.1 hy)

  pub any_of_rows_affected : (p : A → Bool) (xs : List A) → rows_affected p xs ≢ 0 → any p xs ≡ true
  any_of_rows_affected p [] h = absurd (h refl)
  any_of_rows_affected p (x ∷ xs) h = ground (arith, any_of_rows_affected p xs)

  pub append_shift : (xs ys : List A) (x : A) → (xs ++ x ∷ []) ++ ys ≡ xs ++ x ∷ ys
  append_shift xs ys x = append_assoc xs (x ∷ []) ys

  -- An `UPDATE` that finds no row changes nothing.
  pub update_where-unaffected :
      (p : A → Bool) (f : A → A) (xs : List A) → rows_affected p xs ≡ 0 → update_where p f xs ≡ xs
  update_where-unaffected p f [] h = refl
  update_where-unaffected p f (x ∷ xs) h = ground (arith, update_where-unaffected p f xs)

  pub rows_affected_of_any : (p : A → Bool) (xs : List A) → any p xs ≡ true → rows_affected p xs ≢ 0
  rows_affected_of_any p [] h = absurd (ground arith)
  rows_affected_of_any p (x ∷ xs) h = ground (arith, rows_affected_of_any p xs)

  pub none_affected : (p : A → Bool) (xs : List A) → any p xs ≡ false → rows_affected p xs ≡ 0
  none_affected p [] h = refl
  none_affected p (x ∷ xs) h = ground (arith, none_affected p xs)

  abbrev pub nth : List A → ℕ → Option A
  nth [] n = none
  nth (x ∷ xs) zero = some x
  nth (x ∷ xs) (suc n) = nth xs n

  pub nth-in_range : (xs : List A) (n : ℕ) → n < length xs → (x : A) × (nth xs n ≡ some x)
  nth-in_range [] n h = absurd (omega (arith, h))
  nth-in_range (x ∷ xs) zero h = (x, refl)
  nth-in_range (x ∷ xs) (suc n) h = nth-in_range xs n (omega (arith, h))

  pub nth-past_end : (xs : List A) (n : ℕ) → length xs ≤ n → nth xs n ≡ none
  nth-past_end [] n h = refl
  nth-past_end (x ∷ xs) zero h = absurd (omega (arith, h))
  nth-past_end (x ∷ xs) (suc n) h = nth-past_end xs n (omega (arith, h))

  pub drop-nth : (xs : List A) (n : ℕ) (x : A) → nth xs n ≡ some x → drop n xs ≡ x ∷ drop (suc n) xs
  drop-nth [] n x h = absurd (ground arith)
  drop-nth (y ∷ xs) zero x h = ground arith
  drop-nth (y ∷ xs) (suc n) x h = drop-nth xs n x h

  pub take-nil : (n : ℕ) → take n [] ≡ []
  take-nil zero = refl
  take-nil (suc n) = refl

  pub drop-past_end : (xs : List A) (n : ℕ) → length xs ≤ n → drop n xs ≡ []
  drop-past_end [] zero h = refl
  drop-past_end [] (suc n) h = refl
  drop-past_end (x ∷ xs) zero h = absurd (omega (arith, h))
  drop-past_end (x ∷ xs) (suc n) h = drop-past_end xs n (omega (arith, h))

  pub take-all : (n : ℕ) (xs : List A) → length xs ≤ n → take n xs ≡ xs
  take-all zero [] h = refl
  take-all zero (x ∷ xs) h = absurd (omega (arith, h))
  take-all (suc n) [] h = refl
  take-all (suc n) (x ∷ xs) h = ground (arith, take-all n xs)

-- The list has the element.
abbrev pub Has : {A : Type 0} → A → List A → Type 0
Has a [] = ⊥
Has a (x ∷ xs) = (a ≡ x) ⊎ Has a xs
