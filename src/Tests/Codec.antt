-- ===== src/Tests/Codec.antt =====
-- Numbers as tallies, a text form that reads back.
use Prim.Native.Nat.{ℕ, zero, suc}
use Prim.Native.Char.{nul}
use Prim.Native.String.{String, [], ◌∷◌}
use mathlib.Core.Path.{◌≡◌, refl, ap}

unfoldable pub tally : ℕ → String
tally zero = []
tally (suc n) = nul ∷ tally n

unfoldable pub untally : String → ℕ
untally [] = 0
untally (c ∷ s) = suc (untally s)

pub untally-tally : (n : ℕ) → untally (tally n) ≡ n
unfolding tally untally
untally-tally zero = refl
untally-tally (suc n) = ap suc (untally-tally n)
