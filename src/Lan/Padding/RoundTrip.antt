-- ===== src/Lan/Padding/RoundTrip.antt =====
-- lan_types.go: pkcs7_pad and pkcs7_unpad together.
use go_mihome.Common.{
  ℕ, zero, suc, ◌+◌, ◌-◌, ◌%◌, ◌≤◌, ◌<◌, ◌≡◌, refl, sym, ap, ap₂, ◌∙◌, [], ◌∷◌, ◌++◌, true, length,
  get_or, take, drop, replicate, arith, length-append, length-replicate, take-length, drop-length,
  take-append-drop, length-drop, length-take,
}
use go_mihome.Common.Result.{ok}
use go_mihome.Common.Bytes.{Bytes}
use go_mihome.Lan.Padding.{pad_length, pkcs7_pad, all_equal, pkcs7_unpad}

-- The padding fills the last block: there is one byte of it at least, and one block at most.
pad_length_bounds :
    (n : ℕ) → (0 < pad_length n 16) × (pad_length n 16 ≤ 16) × ((n + pad_length n 16) % 16 ≡ 0)
unfolding pad_length
pad_length_bounds n = (ground arith, ground arith, ground arith)

-- The number of padding bytes is determined by where the blocks end.
pad_length_unique : (n p : ℕ) → 0 < p → p ≤ 16 → (n + p) % 16 ≡ 0 → pad_length n 16 ≡ p
unfolding pad_length
pad_length_unique n p h k e = ground arith

get_or-append : (d xs : Bytes) (i : ℕ) → get_or (d ++ xs) (length d + i) 0 ≡ get_or xs i 0
get_or-append [] xs i = ap (λ k. get_or xs k 0) (omega arith)
get_or-append (x ∷ d) xs i =
    let shift : suc (length d) + i ≡ suc (length d + i) = omega arith in
    ap (λ k. get_or (x ∷ (d ++ xs)) k 0) shift ∙ get_or-append d xs i

get_or-replicate : (n v : ℕ) → get_or (replicate (suc n) v) n 0 ≡ v
get_or-replicate zero v = refl
get_or-replicate (suc n) v = get_or-replicate n v

all_equal-replicate : (n v : ℕ) → all_equal v (replicate n v) ≡ true
unfolding all_equal
all_equal-replicate zero v = refl
all_equal-replicate (suc n) v = ground (arith, all_equal-replicate n v)

all_equal→replicate : (v : ℕ) (p : Bytes) → all_equal v p ≡ true → p ≡ replicate (length p) v
unfolding all_equal
all_equal→replicate v [] h = refl
all_equal→replicate v (b ∷ bs) h = ground (arith, all_equal→replicate v bs)

-- The last byte of a padded text is the number of padding bytes.
last-pad :
    (d : Bytes) (p v : ℕ)
    → 0 < p
    → get_or (d ++ replicate p v) (length (d ++ replicate p v) - 1) 0 ≡ v
last-pad d zero v h = absurd (omega arith)
last-pad d (suc p) v h =
    ap (λ k. get_or (d ++ replicate (suc p) v) k 0)
      (omega (arith, length-append d (replicate (suc p) v), length-replicate (suc p) v))
    ∙ get_or-append d (replicate (suc p) v) p
    ∙ get_or-replicate p v

-- Unpadding a text that ends in p bytes of value p.
unpad_replicate :
    (d : Bytes) (p : ℕ)
    → 0 < p
    → p ≤ 16
    → (length d + p) % 16 ≡ 0
    → pkcs7_unpad (d ++ replicate p p) 16 ≡ ok d
unfolding pkcs7_unpad
unpad_replicate d p h k e =
    let whole = length-append d (replicate p p) in
    let size : length (d ++ replicate p p) ≡ length d + p =
      omega (arith, whole, length-replicate p p) in
    rw (last-pad d p p h, size)
      (rw (cut) (
        rw (drop-length d (replicate p p), take-length d (replicate p p), all_equal-replicate p p)
          (ground arith)))
  where
    cut : length d + p - p ≡ length d
    cut = omega arith

-- Unpadding gives back what was padded to blocks of 16 bytes, whatever its length.
pub unpad-pad : (d : Bytes) → pkcs7_unpad (pkcs7_pad d 16) 16 ≡ ok d
unfolding pkcs7_pad
unpad-pad d =
    let (some_pad, at_most, whole) = pad_length_bounds (length d) in
    ap (λ v. pkcs7_unpad (d ++ replicate (pad_length (length d) 16) v) 16) (omega arith)
    ∙ unpad_replicate d (pad_length (length d) 16) some_pad at_most whole

-- What the tests of the unpadding have found out about an accepted text.
unpad_facts :
    (x d : Bytes)
    → pkcs7_unpad x 16 ≡ ok d
    → let p = get_or x (length x - 1) 0 in
      (length x % 16 ≡ 0)
      × (0 < p)
      × (p ≤ 16)
      × (p ≤ length x)
      × (all_equal p (drop (length x - p) x) ≡ true)
      × (take (length x - p) x ≡ d)
unfolding pkcs7_unpad
unpad_facts x d h =
    (ground arith, ground arith, ground arith, ground arith, ground arith, ground arith)

-- What is accepted was made by the padding: only one padded text gives a result.
pub unpad_sound : (x d : Bytes) → pkcs7_unpad x 16 ≡ ok d → x ≡ pkcs7_pad d 16
unfolding pkcs7_pad
unpad_sound x d h =
    let (whole, some_pad, at_most, fits, same, cut) = unpad_facts x d h in
    let p = get_or x (length x - 1) 0 in
    let kept = length-take (length x - p) x in
    let size : length d ≡ length x - p = omega (arith, ap length cut) in
    let count : length (drop (length x - p) x) ≡ p = omega (arith, length-drop (length x - p) x) in
    let unique : pad_length (length d) 16 ≡ p =
      pad_length_unique (length d) p some_pad at_most (omega arith) in
    let byte : p % 256 ≡ p = omega arith in
    sym (take-append-drop (length x - p) x)
    ∙ ap₂ ◌++◌ cut
        (all_equal→replicate p (drop (length x - p) x) same ∙ ap₂ replicate count (sym byte))
    ∙ ap (λ k. d ++ replicate k (k % 256)) (sym unique)

-- The padded text is longer than the text, by 16 bytes at most, and consists of whole blocks.
pub length-pad :
    (d : Bytes)
    → (length (pkcs7_pad d 16) % 16 ≡ 0)
      × (length d < length (pkcs7_pad d 16))
      × (length (pkcs7_pad d 16) ≤ length d + 16)
unfolding pkcs7_pad
length-pad d =
    let p = pad_length (length d) 16 in
    let size = length-append d (replicate p (p % 256)) in
    let count = length-replicate p (p % 256) in
    let bounds = pad_length_bounds (length d) in (omega arith, omega arith, omega arith)
