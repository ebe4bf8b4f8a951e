-- ===== src/Common/Format.antt =====
-- Numbers and truth values as text: the `%d` of package `fmt` and strconv.ParseBool.
use Prim.Native.Nat.{ℕ, zero, suc, ◌/◌, ◌%◌}
use mathlib.Core.Bool.{Bool, true, false, ◌||◌}
use fabric8_jenkins_idler.Common.Tests.{ltb, nat_beq, if◌then◌else◌}
use fabric8_jenkins_idler.Common.Text.{String, ◌==◌, ◌<>◌}
use fabric8_jenkins_idler.Common.Int.{ℤ, pos, negsuc}
use fabric8_jenkins_idler.Common.Errors.{Result, ok, err}

digit : ℕ → String
digit n =
    if nat_beq n 0
    then "0"
    else if nat_beq n 1
    then "1"
    else if nat_beq n 2
    then "2"
    else if nat_beq n 3
    then "3"
    else if nat_beq n 4
    then "4"
    else if nat_beq n 5
    then "5"
    else if nat_beq n 6
    then "6"
    else if nat_beq n 7
    then "7"
    else if nat_beq n 8
    then "8"
    else "9"

-- a number has at most as many digits as the fuel: the number itself, and one more
digits_of : ℕ → ℕ → String
digits_of zero n = digit (n % 10)
digits_of (suc fuel) n =
    let rest = digits_of fuel (n / 10) in if ltb n 10 then digit n else rest <> digit (n % 10)

unfoldable pub format_int : ℤ → String
unfolding digit digits_of
format_int (pos n) = digits_of n n
format_int (negsuc n) = "-" <> digits_of (suc n) (suc n)

-- strconv.ParseBool
unfoldable pub parse_bool : String → Result Bool
parse_bool s =
    if s == "1" || s == "t" || s == "T" || s == "TRUE" || s == "true" || s == "True"
    then ok true
    else if s == "0" || s == "f" || s == "F" || s == "FALSE" || s == "false" || s == "False"
    then ok false
    else err ("strconv.ParseBool: parsing " <> (s <> ": invalid syntax"))
