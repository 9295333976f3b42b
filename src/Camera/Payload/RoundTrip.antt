-- ===== src/Camera/Payload/RoundTrip.antt =====
-- camera/native_miss.go: encode_payload and decode_payload together.
use go_mihome.Common.{
  ℕ, ◌+◌, ◌-◌, ◌*◌, ◌/◌, ◌%◌, ◌≤◌, ◌<◌, ◌≡◌, ◌⊎◌, refl, sym, ap, ◌∙◌, ◌++◌, append_assoc, true,
  false, ◌==◌, ltb, length, take, drop, replicate, arith, length-append, length-take,
  length-replicate, take-length, drop-length, ltb-false, inl, inr,
}
use go_mihome.Common.Result.{Result, ok}
use go_mihome.Common.Bytes.{Bytes, le32, read_le32, read_le32-le32}
use go_mihome.Common.Cipher.{cbc_encrypt, ecb_encrypt, ctr_crypt}
use go_mihome.Common.Cipher.Modes.{
  cbc_decrypt-cbc_encrypt, ecb_decrypt-ecb_encrypt, ctr_crypt_twice, length-cbc_encrypt,
  length-ecb_encrypt, length-ctr_crypt,
}
use go_mihome.Camera.Payload.{
  Ciphers, nonce_of, padded_length, aes_key, camera_encode, camera_decode, aes_crypt,
  encode_payload, decode_payload,
}

-- The encryption types that the camera and the client agree on, apart from 0.
abbrev pub IsAesType : ℕ → Type 0
IsAesType t = (t ≡ 1) ⊎ ((t ≡ 2) ⊎ (t ≡ 3))

-- The padding fills the payload up to whole blocks, with one block more.
padding_bounds :
    (n : ℕ) → (padded_length n % 16 ≡ 0) × (n + 16 ≤ padded_length n) × (padded_length n < n + 32)
unfolding padded_length
padding_bounds n = omega arith

module _ (ciphers : Ciphers) (key iv d : Bytes) (n : ℕ) where
  aes_crypt_twice :
      (t : ℕ)
      → IsAesType t
      → length key ≡ 16
      → length iv ≡ 16
      → length d ≡ 16 * n
      → (e : Bytes) × (aes_crypt ciphers d key iv t true ≡ ok e)
        × (aes_crypt ciphers e key iv t false ≡ ok d)
        × (length e ≡ length d)
  unfolding aes_crypt
  aes_crypt_twice t (inl s) k v l =
      let e = cbc_encrypt ciphers.aes key n iv d in
      let size : length e ≡ 16 * n = length-cbc_encrypt ciphers.aes key n iv d l v in
      let blocks : 16 * n / 16 ≡ n = omega arith in
      let whole : 16 * n % 16 ≡ 0 = omega arith in
      (
        e,
        rw (s, k, l, whole, blocks),
        rw (s, k, size, whole, blocks, cbc_decrypt-cbc_encrypt ciphers.aes key n iv d l v),
        size ∙ sym l,
      )
  aes_crypt_twice t (inr (inl s)) k v l =
      let e = ecb_encrypt ciphers.aes key n d in
      let size : length e ≡ 16 * n = length-ecb_encrypt ciphers.aes key n d l in
      let blocks : 16 * n / 16 ≡ n = omega arith in
      let whole : 16 * n % 16 ≡ 0 = omega arith in
      (
        e,
        rw (s, k, l, whole, blocks),
        rw (s, k, size, whole, blocks, ecb_decrypt-ecb_encrypt ciphers.aes key n d l),
        size ∙ sym l,
      )
  aes_crypt_twice t (inr (inr s)) k v l =
      let e = ctr_crypt ciphers.aes key n iv d in
      let size : length e ≡ length d = length-ctr_crypt ciphers.aes key n iv d (omega arith) v in
      let blocks : (16 * n + 15) / 16 ≡ n = omega arith in
      (
        e,
        rw (s, k, l, blocks),
        rw (s, k, size, l, blocks, ctr_crypt_twice ciphers.aes key n iv d (omega arith) v),
        size,
      )

-- The parts of an encrypted payload: the padding's length, the IV and the blocks.
parts :
    (padding : ℕ) (iv e : Bytes)
    → padding < 4294967296
    → length iv ≡ 16
    → (length (le32 padding ++ iv ++ e) ≡ 20 + length e)
      × (read_le32 (le32 padding ++ iv ++ e) ≡ padding)
      × (take 16 (drop 4 (le32 padding ++ iv ++ e)) ≡ iv)
      × (drop 20 (le32 padding ++ iv ++ e) ≡ e)
unfolding le32
parts padding iv e h v =
    let front : take 16 (iv ++ e) ≡ iv = ap (λ m. take m (iv ++ e)) (sym v) ∙ take-length iv e in
    let back : drop 16 (iv ++ e) ≡ e = ap (λ m. drop m (iv ++ e)) (sym v) ∙ drop-length iv e in
    let both = length-append iv e in
    (
      omega arith,
      ap read_le32 (append_assoc (le32 padding) iv e) ∙ read_le32-le32 padding (iv ++ e) h,
      front,
      back,
    )

unpadded : (p r : Bytes) → take (length (p ++ r) - length r) (p ++ r) ≡ p
unpadded p r =
    let both = length-append p r in
    let size : length (p ++ r) - length r ≡ length p = omega arith in
    ap (λ m. take m (p ++ r)) size ∙ take-length p r

IsAesType-pos : (t : ℕ) → IsAesType t → (t == 0) ≡ false
IsAesType-pos t (inl e) = rw e
IsAesType-pos t (inr (inl e)) = rw e
IsAesType-pos t (inr (inr e)) = rw e

module _ (ciphers : Ciphers) where
  -- What encode_payload makes of a payload with AES-CBC, AES-ECB or AES-CTR, decode_payload turns back into
  -- the payload, of any length: for a shared key of at least 16 bytes and 16 random bytes. The result is
  -- at least 36 bytes longer than the payload.
  pub decode-encode_aes :
      (payload key iv : Bytes) (t : ℕ) (random : ℕ → Result Bytes)
      → IsAesType t
      → 16 ≤ length key
      → random 16 ≡ ok iv
      → length iv ≡ 16
      → (w : Bytes) × (encode_payload ciphers payload key t random ≡ ok w)
        × (decode_payload ciphers w key t ≡ ok payload)
        × (length payload + 36 ≤ length w)
  unfolding encode_payload decode_payload aes_key
  decode-encode_aes payload key iv t random s k r v =
      let padding = padded_length (length payload) - length payload in
      let d = payload ++ replicate padding (padding % 256) in
      let (blocks, low, high) = padding_bounds (length payload) in
      let pads = length-replicate padding (padding % 256) in
      let size = length-append payload (replicate padding (padding % 256)) in
      let key_size : length (take 16 key) ≡ 16 = omega (arith, length-take 16 key) in
      let whole : length d ≡ 16 * (padded_length (length payload) / 16) = omega arith in
      let (e, enc, dec, same) =
        aes_crypt_twice ciphers (take 16 key) iv d (padded_length (length payload) / 16) t s
          key_size v whole in
      let (total, count, ivs, body) = parts padding iv e (omega arith) v in
      let typed : (t == 0) ≡ false = IsAesType-pos t s in
      let long_key : ltb (length key) 16 ≡ false = ground arith in
      let w = le32 padding ++ iv ++ e in
      let long : ltb (length w) 20 ≡ false = ground arith in
      let room : ltb (length d) padding ≡ false = ground arith in
      let back : take (length d - padding) d ≡ payload =
        ap (λ m. take (length d - m) d) (sym pads)
        ∙ unpadded payload (replicate padding (padding % 256)) in
      (
        w,
        rw (typed, long_key, r, enc) refl,
        rw (typed, long, long_key, count, ivs, body, dec, room, back) refl,
        omega arith,
      )

  -- The same for type 0, which is ChaCha20, with a shared key of 32 bytes and 8 random bytes.
  pub decode-encode_chacha :
      (payload key salt : Bytes) (random : ℕ → Result Bytes)
      → length key ≡ 32
      → random 8 ≡ ok salt
      → length salt ≡ 8
      → (w : Bytes) × (encode_payload ciphers payload key 0 random ≡ ok w)
        × (decode_payload ciphers w key 0 ≡ ok payload)
        × (length w ≡ 8 + length payload)
  unfolding encode_payload decode_payload camera_encode camera_decode
  decode-encode_chacha payload key salt random k r v =
      let e = ciphers.chacha key (nonce_of salt) payload in
      let both = length-append salt e in
      let kept = ciphers.length-chacha key (nonce_of salt) payload in
      let front : take 8 (salt ++ e) ≡ salt =
        ap (λ m. take m (salt ++ e)) (sym v) ∙ take-length salt e in
      let back : drop 8 (salt ++ e) ≡ e =
        ap (λ m. drop m (salt ++ e)) (sym v) ∙ drop-length salt e in
      (
        salt ++ e,
        rw (r, k),
        rw (ltb-false (length (salt ++ e)) 8 (omega arith), k, front, back)
            (ap ok (ciphers.chacha_twice key (nonce_of salt) payload)),
        omega arith,
      )
