-- ===== src/Common/Cipher.antt =====
-- crypto/cipher: the block modes that the source uses, over a block cipher that is a parameter.
pub mod Xor
pub mod Modes
use go_mihome.Common.{
  ℕ, zero, suc, ◌+◌, ◌%◌, ◌/◌, ◌≡◌, List, [], ◌∷◌, ◌++◌, ◌==◌, if◌then◌else◌, length, take, drop,
  Bool, true, false,
}
use go_mihome.Common.Bytes.{Bytes}
use Prim.Native.Nat.{bit_xor}

-- A cipher on blocks of 16 bytes, as crypto/aes gives one for a key: decryption undoes encryption.
pub record BlockCipher : Type 0 where
  pub encrypt : Bytes → Bytes → Bytes
  pub decrypt : Bytes → Bytes → Bytes
  pub length-encrypt : (k b : Bytes) → length b ≡ 16 → length (encrypt k b) ≡ 16
  pub decrypt-encrypt : (k b : Bytes) → length b ≡ 16 → decrypt k (encrypt k b) ≡ b

unfoldable pub xor_bytes : Bytes → Bytes → Bytes
xor_bytes [] ks = []
xor_bytes (x ∷ xs) [] = []
xor_bytes (x ∷ xs) (k ∷ ks) = bit_xor x k ∷ xor_bytes xs ks

-- The counter of CTR mode, least byte first: it wraps at 256 and carries.
abbrev carry : ℕ → Bytes → Bytes → Bytes
carry b more rest = if b == 255 then 0 ∷ more else (b + 1) ∷ rest

pub increment_le : Bytes → Bytes
increment_le [] = []
increment_le (b ∷ bs) = carry b (increment_le bs) bs

reverse_onto : Bytes → Bytes → Bytes
reverse_onto [] acc = acc
reverse_onto (x ∷ xs) acc = reverse_onto xs (x ∷ acc)

unfoldable pub increment : Bytes → Bytes
unfolding increment_le reverse_onto
increment c = reverse_onto (increment_le (reverse_onto c [])) []

module _ (cipher : BlockCipher) (key : Bytes) where
  -- `NewCBCEncrypter(block, iv).CryptBlocks` on n blocks.
  unfoldable pub cbc_encrypt : ℕ → Bytes → Bytes → Bytes
  unfolding xor_bytes
  cbc_encrypt zero iv d = []
  cbc_encrypt (suc n) iv d =
      let c = cipher.encrypt key (xor_bytes (take 16 d) iv) in c ++ cbc_encrypt n c (drop 16 d)

  -- `NewCBCDecrypter(block, iv).CryptBlocks` on n blocks.
  unfoldable pub cbc_decrypt : ℕ → Bytes → Bytes → Bytes
  unfolding xor_bytes
  cbc_decrypt zero iv d = []
  cbc_decrypt (suc n) iv d =
      let c = take 16 d in xor_bytes (cipher.decrypt key c) iv ++ cbc_decrypt n c (drop 16 d)

  unfoldable pub ecb_encrypt : ℕ → Bytes → Bytes
  ecb_encrypt zero d = []
  ecb_encrypt (suc n) d = cipher.encrypt key (take 16 d) ++ ecb_encrypt n (drop 16 d)

  unfoldable pub ecb_decrypt : ℕ → Bytes → Bytes
  ecb_decrypt zero d = []
  ecb_decrypt (suc n) d = cipher.decrypt key (take 16 d) ++ ecb_decrypt n (drop 16 d)

  -- `NewCTR(block, iv).XORKeyStream` on n blocks, the last one perhaps cut short.
  unfoldable pub ctr_crypt : ℕ → Bytes → Bytes → Bytes
  unfolding xor_bytes increment
  ctr_crypt zero counter d = []
  ctr_crypt (suc n) counter d =
      xor_bytes (take 16 d) (cipher.encrypt key counter)
      ++ ctr_crypt n (increment counter) (drop 16 d)
