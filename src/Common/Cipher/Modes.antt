-- ===== src/Common/Cipher/Modes.antt =====
-- The modes of encryption and decryption together, and their lengths.
use native.Mathlib.Decide.{dec_le}
use go_mihome.Common.{
  ℕ, zero, suc, ◌+◌, ◌*◌, ◌≤◌, ◌≡◌, refl, sym, ap, ap₂, subst, ◌∙◌, [], ◌∷◌, ◌++◌, arith, length,
  take, drop, length-append, length-take, length-drop, take-length, drop-length, take-append-drop,
}
use go_mihome.Common.Bytes.{Bytes}
use go_mihome.Common.Cipher.{
  BlockCipher, xor_bytes, increment, increment_le, reverse_onto, cbc_encrypt, cbc_decrypt,
  ecb_encrypt, ecb_decrypt, ctr_crypt,
}
use go_mihome.Common.Cipher.Xor.{length-xor_bytes, xor_bytes_twice}

-- The first block of a text, and the rest, when it was put together from blocks.
take_block : (c r : Bytes) → length c ≡ 16 → take 16 (c ++ r) ≡ c
take_block c r h = ap (λ n. take n (c ++ r)) (sym h) ∙ take-length c r

drop_block : (c r : Bytes) → length c ≡ 16 → drop 16 (c ++ r) ≡ r
drop_block c r h = ap (λ n. drop n (c ++ r)) (sym h) ∙ drop-length c r

length-first_block : (n : ℕ) (d : Bytes) → length d ≡ 16 * suc n → length (take 16 d) ≡ 16
length-first_block n d h = omega (arith, length-take 16 d)

length-other_blocks : (n : ℕ) (d : Bytes) → length d ≡ 16 * suc n → length (drop 16 d) ≡ 16 * n
length-other_blocks n d h = omega (arith, length-drop 16 d)

length_zero : (d : Bytes) → length d ≡ 0 → [] ≡ d
length_zero [] h = refl
length_zero (x ∷ xs) h = absurd (omega arith)

module _ (cipher : BlockCipher) (key : Bytes) where
  pub length-cbc_encrypt :
      (n : ℕ) (iv d : Bytes)
      → length d ≡ 16 * n
      → length iv ≡ 16
      → length (cbc_encrypt cipher key n iv d) ≡ 16 * n
  unfolding cbc_encrypt
  length-cbc_encrypt zero iv d h v = omega arith
  length-cbc_encrypt (suc n) iv d h v =
      let first = length-first_block n d h in
      let mixed = length-xor_bytes (take 16 d) iv (omega arith) in
      let block = cipher.length-encrypt key (xor_bytes (take 16 d) iv) (omega arith) in
      omega (
        arith,
        length-append (cipher.encrypt key (xor_bytes (take 16 d) iv))
            (cbc_encrypt cipher key n (cipher.encrypt key (xor_bytes (take 16 d) iv)) (drop 16 d)),
        length-cbc_encrypt n (cipher.encrypt key (xor_bytes (take 16 d) iv)) (drop 16 d)
            (length-other_blocks n d h) block,
      )

  pub cbc_decrypt-cbc_encrypt :
      (n : ℕ) (iv d : Bytes)
      → length d ≡ 16 * n
      → length iv ≡ 16
      → cbc_decrypt cipher key n iv (cbc_encrypt cipher key n iv d) ≡ d
  unfolding cbc_encrypt cbc_decrypt
  cbc_decrypt-cbc_encrypt zero iv d h v = length_zero d (omega arith)
  cbc_decrypt-cbc_encrypt (suc n) iv d h v =
      let mixed = xor_bytes (take 16 d) iv in
      let c = cipher.encrypt key mixed in
      let first = length-first_block n d h in
      let full = length-xor_bytes (take 16 d) iv (omega arith) ∙ first in
      let block = cipher.length-encrypt key mixed full in
      let rest = cbc_encrypt cipher key n c (drop 16 d) in
      rw (take_block c rest block, drop_block c rest block)
        (ap₂ ◌++◌
            (ap (λ b. xor_bytes b iv) (cipher.decrypt-encrypt key mixed full)
              ∙ xor_bytes_twice (take 16 d) iv (omega arith))
            (cbc_decrypt-cbc_encrypt n c (drop 16 d) (length-other_blocks n d h) block)
          ∙ take-append-drop 16 d)

  pub length-ecb_encrypt :
      (n : ℕ) (d : Bytes) → length d ≡ 16 * n → length (ecb_encrypt cipher key n d) ≡ 16 * n
  unfolding ecb_encrypt
  length-ecb_encrypt zero d h = omega arith
  length-ecb_encrypt (suc n) d h = omega (
    arith,
    cipher.length-encrypt key (take 16 d) (length-first_block n d h),
    length-append (cipher.encrypt key (take 16 d)) (ecb_encrypt cipher key n (drop 16 d)),
    length-ecb_encrypt n (drop 16 d) (length-other_blocks n d h),
  )

  pub ecb_decrypt-ecb_encrypt :
      (n : ℕ) (d : Bytes)
      → length d ≡ 16 * n
      → ecb_decrypt cipher key n (ecb_encrypt cipher key n d) ≡ d
  unfolding ecb_encrypt ecb_decrypt
  ecb_decrypt-ecb_encrypt zero d h = length_zero d (omega arith)
  ecb_decrypt-ecb_encrypt (suc n) d h =
      let c = cipher.encrypt key (take 16 d) in
      let first = length-first_block n d h in
      let block = cipher.length-encrypt key (take 16 d) first in
      let rest = ecb_encrypt cipher key n (drop 16 d) in
      rw (take_block c rest block, drop_block c rest block)
        (ap₂ ◌++◌ (cipher.decrypt-encrypt key (take 16 d) first)
            (ecb_decrypt-ecb_encrypt n (drop 16 d) (length-other_blocks n d h))
          ∙ take-append-drop 16 d)

take_short : (m : ℕ) (x : Bytes) → length x ≤ m → (take m (x ++ []) ≡ x) × (drop m (x ++ []) ≡ [])
take_short zero [] h = (refl, refl)
take_short zero (b ∷ bs) h = absurd (omega arith)
take_short (suc m) [] h = (refl, refl)
take_short (suc m) (b ∷ bs) h = let (t, d) = take_short m bs (omega arith) in (ap (◌∷◌ b) t, d)

-- Each block but the last is whole, so the second pass cuts the text where the first one did.
ctr_blocks :
    (x r d : Bytes)
    → length x ≡ length (take 16 d)
    → length r ≡ length (drop 16 d)
    → (take 16 (x ++ r) ≡ x) × (drop 16 (x ++ r) ≡ r)
ctr_blocks x r d h k = elim (dec_le 16 (length d)) [
  | yes whole ↦
      let full : length x ≡ 16 = omega (arith, length-take 16 d) in
      (take_block x r full, drop_block x r full)
  | no short ↦
      subst (λ s. (take 16 (x ++ s) ≡ x) × (drop 16 (x ++ s) ≡ s))
        (length_zero r (omega (arith, length-drop 16 d)))
        (take_short 16 x (omega (arith, length-take 16 d)))
]

length-increment_le : (c : Bytes) → length (increment_le c) ≡ length c
unfolding increment_le
length-increment_le [] = refl
length-increment_le (b ∷ bs) = ground (arith, length-increment_le bs)

length-reverse_onto : (c acc : Bytes) → length (reverse_onto c acc) ≡ length c + length acc
unfolding reverse_onto
length-reverse_onto [] acc = omega arith
length-reverse_onto (x ∷ xs) acc = omega (arith, length-reverse_onto xs (x ∷ acc))

length-increment : (c : Bytes) → length (increment c) ≡ length c
unfolding increment
length-increment c = omega (
  arith,
  length-reverse_onto c [],
  length-increment_le (reverse_onto c []),
  length-reverse_onto (increment_le (reverse_onto c [])) [],
)

module _ (cipher : BlockCipher) (key : Bytes) where
  pub length-ctr_crypt :
      (n : ℕ) (counter d : Bytes)
      → length d ≤ 16 * n
      → length counter ≡ 16
      → length (ctr_crypt cipher key n counter d) ≡ length d
  unfolding ctr_crypt
  length-ctr_crypt zero counter d h v = omega arith
  length-ctr_crypt (suc n) counter d h v =
      let block = cipher.length-encrypt key counter v in
      let first = length-take 16 d in
      let masked = length-xor_bytes (take 16 d) (cipher.encrypt key counter) (omega arith) in
      let others = length-drop 16 d in
      omega (
        arith,
        length-append (xor_bytes (take 16 d) (cipher.encrypt key counter))
            (ctr_crypt cipher key n (increment counter) (drop 16 d)),
        length-ctr_crypt n (increment counter) (drop 16 d) (omega arith)
            (length-increment counter ∙ v),
      )

  pub ctr_crypt_twice :
      (n : ℕ) (counter d : Bytes)
      → length d ≤ 16 * n
      → length counter ≡ 16
      → ctr_crypt cipher key n counter (ctr_crypt cipher key n counter d) ≡ d
  unfolding ctr_crypt
  ctr_crypt_twice zero counter d h v = length_zero d (omega arith)
  ctr_crypt_twice (suc n) counter d h v =
      let block = cipher.length-encrypt key counter v in
      let first = length-take 16 d in
      let others = length-drop 16 d in
      let next = length-increment counter ∙ v in
      let x = xor_bytes (take 16 d) (cipher.encrypt key counter) in
      let r = ctr_crypt cipher key n (increment counter) (drop 16 d) in
      let (cut, left) =
        ctr_blocks x r d (length-xor_bytes (take 16 d) (cipher.encrypt key counter) (omega arith))
          (length-ctr_crypt n (increment counter) (drop 16 d) (omega arith) next) in
      rw (cut, left)
        (ap₂ ◌++◌ (xor_bytes_twice (take 16 d) (cipher.encrypt key counter) (omega arith))
            (ctr_crypt_twice n (increment counter) (drop 16 d) (omega arith) next)
          ∙ take-append-drop 16 d)
