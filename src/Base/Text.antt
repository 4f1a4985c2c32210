-- ===== src/Base/Text.antt =====
-- Python's f-strings: joining texts, and a number in decimal.
use Prim.Native.Nat.{ℕ, zero, suc, ◌/◌, ◌%◌}
use Prim.Native.String
use Prim.Native.String.{String}
use rolebot_hse.Base.Tests.{ltb, nat_beq, if◌then◌else◌}

infixr 65 ◌&◌
abbrev pub ◌&◌ : String → String → String
a & b = String.◌++◌ a b

digit : ℕ → String
digit d =
    if nat_beq d 0
    then "0"
    else if nat_beq d 1
    then "1"
    else if nat_beq d 2
    then "2"
    else if nat_beq d 3
    then "3"
    else if nat_beq d 4
    then "4"
    else if nat_beq d 5
    then "5"
    else if nat_beq d 6
    then "6"
    else if nat_beq d 7
    then "7"
    else if nat_beq d 8
    then "8"
    else "9"

-- The digits of a number in front of a text; the fuel is larger than the number.
decimal_from : ℕ → ℕ → String → String
decimal_from zero n rest = rest
decimal_from (suc fuel) n rest =
    let longer = decimal_from fuel (n / 10) (digit (n % 10) & rest) in
    if ltb n 10 then digit n & rest else longer

-- `str(n)`
unfoldable pub decimal : ℕ → String
unfolding decimal_from digit
decimal n = decimal_from (suc n) n ""
