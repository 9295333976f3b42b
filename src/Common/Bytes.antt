-- ===== src/Common/Bytes.antt =====
-- Byte strings, and the fixed-width reads and writes of encoding/binary.
use Prim.Native.Char.{code}
use Prim.Native.String.{String}
use go_mihome.Common.{
  ℕ, ◌+◌, ◌*◌, ◌/◌, ◌%◌, ◌<◌, ◌≡◌, refl, ap₂, ◌↔◌, Bool, true, false, ◌&&◌, List, [], ◌∷◌, ◌++◌,
  arith, ◌==◌, get_or, drop, All,
}

abbrev pub Bytes : Type 0
Bytes = List ℕ

abbrev pub IsBytes : Bytes → Type 0
IsBytes = All (λ b. b < 256)

-- The code points of a literal: its bytes, since the literals here are ASCII.
abbrev pub codes : String → Bytes
codes String.[] = []
codes (String.◌∷◌ c s) = code c ∷ codes s

unfoldable pub be16 : ℕ → Bytes
be16 n = (n / 256 % 256) ∷ (n % 256) ∷ []

unfoldable pub be32 : ℕ → Bytes
be32 n = (n / 16777216 % 256) ∷ (n / 65536 % 256) ∷ (n / 256 % 256) ∷ (n % 256) ∷ []

unfoldable pub le32 : ℕ → Bytes
le32 n = (n % 256) ∷ (n / 256 % 256) ∷ (n / 65536 % 256) ∷ (n / 16777216 % 256) ∷ []

unfoldable pub be64 : ℕ → Bytes
unfolding be32
be64 n = be32 (n / 4294967296) ++ be32 n

unfoldable pub read_be16 : Bytes → ℕ
read_be16 p = get_or p 0 0 * 256 + get_or p 1 0

unfoldable pub read_be32 : Bytes → ℕ
read_be32 p = get_or p 0 0 * 16777216 + get_or p 1 0 * 65536 + get_or p 2 0 * 256 + get_or p 3 0

unfoldable pub read_le32 : Bytes → ℕ
read_le32 p = get_or p 0 0 + get_or p 1 0 * 256 + get_or p 2 0 * 65536 + get_or p 3 0 * 16777216

unfoldable pub read_be64 : Bytes → ℕ
unfolding read_be32
read_be64 p = read_be32 p * 4294967296 + read_be32 (drop 4 p)

pub read_be16-be16 : (n : ℕ) (r : Bytes) → n < 65536 → read_be16 (be16 n ++ r) ≡ n
unfolding read_be16 be16
read_be16-be16 n r h = omega arith

pub read_be32-be32 : (n : ℕ) (r : Bytes) → n < 4294967296 → read_be32 (be32 n ++ r) ≡ n
unfolding read_be32 be32
read_be32-be32 n r h = omega arith

pub read_le32-le32 : (n : ℕ) (r : Bytes) → n < 4294967296 → read_le32 (le32 n ++ r) ≡ n
unfolding read_le32 le32
read_le32-le32 n r h = omega arith

read_be32-be32_mod : (n : ℕ) (r : Bytes) → read_be32 (be32 n ++ r) ≡ n % 4294967296
unfolding read_be32 be32
read_be32-be32_mod n r = omega arith

pub read_be64-be64 : (n : ℕ) (r : Bytes) → n < 18446744073709551616 → read_be64 (be64 n ++ r) ≡ n
unfolding read_be64 be64
read_be64-be64 n r h =
    omega (arith, read_be32-be32_mod (n / 4294967296) (be32 n ++ r), read_be32-be32_mod n r)

pub be32-read_be32 :
    (a b c d : ℕ) (r : Bytes)
    → a < 256
    → b < 256
    → c < 256
    → d < 256
    → be32 (read_be32 (a ∷ b ∷ c ∷ d ∷ r)) ++ r ≡ a ∷ b ∷ c ∷ d ∷ r
unfolding read_be32 be32
be32-read_be32 a b c d r ha hb hc hd =
    ap₂ ◌∷◌ (omega arith)
      (ap₂ ◌∷◌ (omega arith) (ap₂ ◌∷◌ (omega arith) (ap₂ ◌∷◌ (omega arith) refl)))

-- `bytes.Equal`, `==` on strings, and `equalBytes`.
unfoldable pub bytes_eq : Bytes → Bytes → Bool
bytes_eq [] [] = true
bytes_eq (x ∷ xs) (y ∷ ys) = x == y && bytes_eq xs ys
bytes_eq _ _ = false

pub bytes_eq_refl : (xs : Bytes) → bytes_eq xs xs ≡ true
unfolding bytes_eq
bytes_eq_refl [] = refl
bytes_eq_refl (x ∷ xs) = ground (arith, bytes_eq_refl xs)

pub bytes_eq→eq : (xs ys : Bytes) → bytes_eq xs ys ≡ true → xs ≡ ys
unfolding bytes_eq
bytes_eq→eq [] [] h = refl
bytes_eq→eq (x ∷ xs) (y ∷ ys) h = ground (arith, bytes_eq→eq xs ys)
bytes_eq→eq [] (y ∷ ys) h = ground arith
bytes_eq→eq (x ∷ xs) [] h = ground arith

pub bytes_eq_iff : (xs ys : Bytes) → (bytes_eq xs ys ≡ true) ↔ (xs ≡ ys)
bytes_eq_iff xs ys = (bytes_eq→eq xs ys, λ e. rw e (bytes_eq_refl ys))
