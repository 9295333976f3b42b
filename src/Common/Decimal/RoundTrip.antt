-- ===== src/Common/Decimal/RoundTrip.antt =====
-- Reading back what format_uint writes.
use native.Mathlib.Nat.{pow-suc}
use go_mihome.Common.{
  ℕ, zero, suc, ◌+◌, ◌*◌, ◌/◌, ◌%◌, ◌^◌, ◌≤◌, ◌<◌, ◌≡◌, refl, sym, ap, ◌∙◌, [], ◌∷◌, some, arith,
  ltb, All, inl, inr, Bool-cases, ltb→lt,
}
use go_mihome.Common.Bytes.{Bytes}
use go_mihome.Common.Decimal.{format_digits, format_uint, parse_digits, parse_uint}

parse_digits-cons :
    (acc d : ℕ) (cs : Bytes)
    → d < 10
    → acc * 10 + d < 18446744073709551616
    → parse_digits acc ((48 + d) ∷ cs) ≡ parse_digits (acc * 10 + d) cs
unfolding parse_digits
parse_digits-cons acc d cs h k = ground arith

parse_digits-format_digits :
    (f n : ℕ) (acc : Bytes)
    → n < 10 ^ f
    → n < 18446744073709551616
    → 0 < f
    → parse_digits 0 (format_digits f n acc) ≡ parse_digits n acc
unfolding format_digits
parse_digits-format_digits zero n acc h k p = absurd (omega arith)
parse_digits-format_digits (suc f) n acc h k p = elim (Bool-cases (ltb n 10)) [
  | inl small ↦ rw small (
      parse_digits-cons 0 n acc (ltb→lt n 10 small) (omega arith)
      ∙ ap (λ t. parse_digits t acc) (omega arith))
  | inr large ↦ rw large (
      parse_digits-format_digits f (n / 10) ((48 + n % 10) ∷ acc) (omega (arith, pow-suc 10 f))
        (omega arith) (nonzero f n h (ground arith))
      ∙ parse_digits-cons (n / 10) (n % 10) acc (omega arith) (omega arith)
      ∙ ap (λ t. parse_digits t acc) (omega arith))
]
  where
    nonzero : (f n : ℕ) → n < 10 ^ suc f → 10 ≤ n → 0 < f
    nonzero zero n h g = absurd (omega arith)
    nonzero (suc f) n h g = omega arith

format_digits-cons :
    (f n d : ℕ) (acc : Bytes) → (c : ℕ) × (cs : Bytes) × (format_digits f n (d ∷ acc) ≡ c ∷ cs)
unfolding format_digits
format_digits-cons zero n d acc = (d, acc, refl)
format_digits-cons (suc f) n d acc = elim (Bool-cases (ltb n 10)) [
  | inl small ↦ (48 + n, d ∷ acc, rw small)
  | inr large ↦
      let (c, cs, e) = format_digits-cons f (n / 10) (48 + n % 10) (d ∷ acc) in (c, cs, rw large e)
]

format_uint-cons : (n : ℕ) → (c : ℕ) × (cs : Bytes) × (format_uint n ≡ c ∷ cs)
unfolding format_uint
format_uint-cons n = elim (Bool-cases (ltb n 10)) [
  | inl small ↦ (48 + n, [], rw small)
  | inr large ↦
      let (c, cs, e) = format_digits-cons 19 (n / 10) (48 + n % 10) [] in (c, cs, rw large e)
]

parse_uint-cons : (c : ℕ) (cs : Bytes) → parse_uint (c ∷ cs) ≡ parse_digits 0 (c ∷ cs)
unfolding parse_uint
parse_uint-cons c cs = refl

digits_of-format_uint : (n : ℕ) → n < 18446744073709551616 → parse_digits 0 (format_uint n) ≡ some n
unfolding format_uint parse_digits
digits_of-format_uint n h = parse_digits-format_digits 20 n [] (omega arith) h (omega arith)

-- Every 64-bit number is read back from its decimal text.
pub parse_uint-format_uint :
    (n : ℕ) → n < 18446744073709551616 → parse_uint (format_uint n) ≡ some n
parse_uint-format_uint n h =
    let (c, cs, e) = format_uint-cons n in
    ap parse_uint e ∙ parse_uint-cons c cs ∙ ap (parse_digits 0) (sym e) ∙ digits_of-format_uint n h

abbrev pub IsDigit : ℕ → Type 0
IsDigit c = (48 ≤ c) × (c < 58)

format_digits-IsDigit :
    (f n : ℕ) (acc : Bytes) → All IsDigit acc → All IsDigit (format_digits f n acc)
unfolding format_digits
format_digits-IsDigit zero n acc h = h
format_digits-IsDigit (suc f) n acc h = elim (Bool-cases (ltb n 10)) [
  | inl small ↦ rw small ((omega arith, omega (arith, ltb→lt n 10 small)), h)
  | inr large ↦
      rw large
        (format_digits-IsDigit f (n / 10) ((48 + n % 10) ∷ acc) ((omega arith, omega arith), h))
]

pub format_uint-IsDigit : (n : ℕ) → All IsDigit (format_uint n)
unfolding format_uint
format_uint-IsDigit n = format_digits-IsDigit 20 n [] tt
