-- ===== src/Prelude/Decimal.antt =====
-- `strconv.Itoa` of a natural number.
use Prim.Native.Nat.{ℕ, zero, suc, ◌/◌, ◌%◌}
use Prim.Native.String.{String, ◌++◌}
use rush_delivery_engine.Prelude.Tests.{ltb, ◌==◌, if◌then◌else◌}

digit : ℕ → String
digit n =
    if n == 0
    then "0"
    else if n == 1
    then "1"
    else if n == 2
    then "2"
    else if n == 3
    then "3"
    else if n == 4
    then "4"
    else if n == 5
    then "5"
    else if n == 6
    then "6"
    else if n == 7
    then "7"
    else if n == 8
    then "8"
    else "9"

decimal : ℕ → ℕ → String → String
unfolding digit
decimal zero n shown = shown
decimal (suc k) n shown =
    let rest = decimal k (n / 10) (digit (n % 10) ++ shown) in
    if ltb n 10 then digit n ++ shown else rest

-- Twenty digits are enough for an int of 64 bits.
unfoldable pub itoa : ℕ → String
unfolding decimal
itoa n = decimal 20 n ""
