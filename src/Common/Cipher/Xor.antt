-- ===== src/Common/Cipher/Xor.antt =====
-- Exclusive or, on numbers and on byte strings.
use Prim.Native.Nat.{bit_xor, digits, differ, bit_xor-bitwise}
use go_mihome.Common.{
  ℕ, zero, suc, ◌+◌, ◌*◌, ◌/◌, ◌%◌, ◌≤◌, ◌<◌, ◌≡◌, refl, ap, ap₂, ◌∙◌, [], ◌∷◌, arith, length,
}
use go_mihome.Common.Bytes.{Bytes}
use go_mihome.Common.Cipher.{xor_bytes}

abbrev xor_digits : ℕ → ℕ → ℕ → ℕ
xor_digits n a b = digits (λ b. b) differ n a b

xor_digits_fuel : (n m a b : ℕ) → a ≤ n → a ≤ m → xor_digits n a b ≡ xor_digits m a b
xor_digits_fuel zero zero a b p q = refl
xor_digits_fuel zero (suc m) zero b p q = refl
xor_digits_fuel zero (suc m) (suc a) b p q = absurd (omega arith)
xor_digits_fuel (suc n) zero zero b p q = refl
xor_digits_fuel (suc n) zero (suc a) b p q = absurd (omega arith)
xor_digits_fuel (suc n) (suc m) zero b p q = refl
xor_digits_fuel (suc n) (suc m) (suc a) b p q =
    omega (arith, xor_digits_fuel n m (suc a / 2) (b / 2) (omega arith) (omega arith))

zero-bit_xor : (b : ℕ) → bit_xor 0 b ≡ b
zero-bit_xor b = bit_xor-bitwise 0 b

zero-differ : (v : ℕ) → differ 0 v ≡ v
zero-differ v = refl

bit_xor_step : (a b : ℕ) → bit_xor a b ≡ bit_xor (a / 2) (b / 2) * 2 + differ (a % 2) (b % 2)
bit_xor_step zero b = omega (arith, zero-bit_xor b, zero-bit_xor (b / 2), zero-differ (b % 2))
bit_xor_step (suc a) b = omega (
  arith,
  bit_xor-bitwise (suc a) b,
  bit_xor-bitwise (suc a / 2) (b / 2),
  xor_digits_fuel a (suc a / 2) (suc a / 2) (b / 2) (omega arith) (omega arith),
)

differ_bits : (u v : ℕ) → u < 2 → v < 2 → (differ u v < 2) × (differ (differ u v) v ≡ u)
differ_bits zero zero p q = (omega arith, refl)
differ_bits zero (suc zero) p q = (omega arith, refl)
differ_bits (suc zero) zero p q = (omega arith, refl)
differ_bits (suc zero) (suc zero) p q = (omega arith, refl)
differ_bits zero (suc (suc v)) p q = absurd (omega arith)
differ_bits (suc zero) (suc (suc v)) p q = absurd (omega arith)
differ_bits (suc (suc u)) v p q = absurd (omega arith)

-- The halves and the last digits of the sum are the sums of the halves and of the last digits.
bit_xor_halves :
    (a b : ℕ)
    → (bit_xor a b / 2 ≡ bit_xor (a / 2) (b / 2)) × (bit_xor a b % 2 ≡ differ (a % 2) (b % 2))
bit_xor_halves a b =
    let small = differ_bits (a % 2) (b % 2) (omega arith) (omega arith) in
    (omega (arith, bit_xor_step a b), omega (arith, bit_xor_step a b))

bit_xor_round :
    (a b : ℕ) → bit_xor (bit_xor (a / 2) (b / 2)) (b / 2) ≡ a / 2 → bit_xor (bit_xor a b) b ≡ a
bit_xor_round a b ih =
    let (high, low) = bit_xor_halves a b in
    let (_, back) = differ_bits (a % 2) (b % 2) (omega arith) (omega arith) in
    bit_xor_step (bit_xor a b) b
    ∙ ap₂ (λ h l. bit_xor h (b / 2) * 2 + differ l (b % 2)) high low
    ∙ ap₂ (λ h l. h * 2 + l) ih back
    ∙ omega arith

bit_xor_twice_below : (n a b : ℕ) → a + b ≤ n → bit_xor (bit_xor a b) b ≡ a
bit_xor_twice_below zero zero zero h = refl
bit_xor_twice_below zero zero (suc b) h = absurd (omega arith)
bit_xor_twice_below zero (suc a) b h = absurd (omega arith)
bit_xor_twice_below (suc n) zero zero h = refl
bit_xor_twice_below (suc n) zero (suc b) h =
    bit_xor_round zero (suc b) (bit_xor_twice_below n (zero / 2) (suc b / 2) (omega arith))
bit_xor_twice_below (suc n) (suc a) b h =
    bit_xor_round (suc a) b (bit_xor_twice_below n (suc a / 2) (b / 2) (omega arith))

pub bit_xor_twice : (a b : ℕ) → bit_xor (bit_xor a b) b ≡ a
bit_xor_twice a b = bit_xor_twice_below (a + b) a b (omega arith)

pub length-xor_bytes :
    (xs ks : Bytes) → length xs ≤ length ks → length (xor_bytes xs ks) ≡ length xs
unfolding xor_bytes
length-xor_bytes [] ks h = refl
length-xor_bytes (x ∷ xs) [] h = absurd (omega arith)
length-xor_bytes (x ∷ xs) (k ∷ ks) h = ap suc (length-xor_bytes xs ks (omega arith))

pub xor_bytes_twice : (xs ks : Bytes) → length xs ≤ length ks → xor_bytes (xor_bytes xs ks) ks ≡ xs
unfolding xor_bytes
xor_bytes_twice [] ks h = refl
xor_bytes_twice (x ∷ xs) [] h = absurd (omega arith)
xor_bytes_twice (x ∷ xs) (k ∷ ks) h =
    ap₂ ◌∷◌ (bit_xor_twice x k) (xor_bytes_twice xs ks (omega arith))
