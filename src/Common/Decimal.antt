-- ===== src/Common/Decimal.antt =====
-- strconv.FormatUint and strconv.ParseUint in base 10 with 64 bits.
pub mod RoundTrip
use go_mihome.Common.{
  ℕ, zero, suc, ◌+◌, ◌-◌, ◌*◌, ◌/◌, ◌%◌, ◌&&◌, [], ◌∷◌, Option, none, some, ltb, leb, if◌then◌else◌,
}
use go_mihome.Common.Bytes.{Bytes}

-- The digits of n before `acc`; 20 rounds write every 64-bit number.
format_digits : ℕ → ℕ → Bytes → Bytes
format_digits zero n acc = acc
format_digits (suc f) n acc =
    let rest = format_digits f (n / 10) ((48 + n % 10) ∷ acc) in
    if ltb n 10 then (48 + n) ∷ acc else rest

unfoldable pub format_uint : ℕ → Bytes
unfolding format_digits
format_uint n = format_digits 20 n []

-- One digit of the text, `none` on a character that is no digit and on overflow of 64 bits.
parse_digit : ℕ → ℕ → Option ℕ
parse_digit acc c =
    if leb 48 c && leb c 57
    then (if ltb (acc * 10 + (c - 48)) 18446744073709551616
        then some (acc * 10 + (c - 48))
        else none)
    else none

parse_next : Option ℕ → (ℕ → Option ℕ) → Option ℕ
parse_next none k = none
parse_next (some n) k = k n

parse_digits : ℕ → Bytes → Option ℕ
unfolding parse_digit parse_next
parse_digits acc [] = some acc
parse_digits acc (c ∷ cs) = parse_next (parse_digit acc c) (λ n. parse_digits n cs)

unfoldable pub parse_uint : Bytes → Option ℕ
unfolding parse_digits
parse_uint [] = none
parse_uint (c ∷ cs) = parse_digits 0 (c ∷ cs)
