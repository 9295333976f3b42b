-- ===== src/Camera/Payload.antt =====
-- camera/native_miss.go and camera/native_crypto.go: the encryption of commands and media, the requests
-- of a media client and the packets that it reads. The length of a payload is below 2 ^ 32.
pub mod RoundTrip
use go_mihome.Common.{
  ℕ, ◌+◌, ◌-◌, ◌*◌, ◌/◌, ◌%◌, ◌≡◌, List, [], ◌∷◌, ◌++◌, Bool, true, false, ◌==◌, ltb, not, ◌&&◌,
  ◌||◌, if◌then◌else◌, length, take, drop, replicate,
}
use go_mihome.Common.Result.{Fault, context, opaque, Result, ok, err, fail_if, ◌>>=◌, ◌>>◌}
use go_mihome.Common.Bytes.{Bytes, be32, le32, read_le32, bytes_eq, codes}
use go_mihome.Common.Cipher.{
  BlockCipher, cbc_encrypt, cbc_decrypt, ecb_encrypt, ecb_decrypt, ctr_crypt,
}

-- The ciphers of other packages: crypto/aes, and chacha20's XORKeyStream for a key and a nonce, which
-- keeps the length and undoes itself.
pub record Ciphers : Type 0 where
  pub aes : BlockCipher
  pub chacha : Bytes → Bytes → Bytes → Bytes
  pub length-chacha : (k n d : Bytes) → length (chacha k n d) ≡ length d
  pub chacha_twice : (k n d : Bytes) → chacha k n (chacha k n d) ≡ d

-- `chacha20.NewUnauthenticatedCipher` wants a key of 32 bytes; the nonce has 12.
abbrev pub check_chacha_key : Bytes → Result (Unit {0})
check_chacha_key key = fail_if (not (length key == 32)) (opaque "chacha20: wrong key size")

abbrev pub nonce_of : Bytes → Bytes
nonce_of salt = replicate 4 0 ++ salt

-- `aes.NewCipher`.
abbrev pub check_aes_key : Bytes → Result (Unit {0})
check_aes_key key =
    fail_if (not (length key == 16 || (length key == 24 || length key == 32)))
      (opaque "invalid key size")

unfoldable pub padded_length : ℕ → ℕ
padded_length n = (n + 15) / 16 * 16 + 16

unfoldable pub aes_key : Bytes → Result Bytes
aes_key key = do
  fail_if (ltb (length key) 16) (opaque "xiaomi native shared key is too short for AES")
  ok (take 16 key)

module _ (ciphers : Ciphers) where
  -- miHomeCameraEncode and miHomeCameraDecode; `random` is what crypto/rand gave.
  unfoldable pub camera_encode : Bytes → Bytes → Result Bytes → Result Bytes
  camera_encode payload key random = do
    salt ← random
    check_chacha_key key
    ok (salt ++ ciphers.chacha key (nonce_of salt) payload)

  unfoldable pub camera_decode : Bytes → Bytes → Result Bytes
  camera_decode payload key = if ltb (length payload) 8 then ok [] else do
    check_chacha_key key
    ok (ciphers.chacha key (nonce_of (take 8 payload)) (drop 8 payload))

  -- The switch of miHomeMissAESCrypt: CBC, ECB or CTR.
  crypt_case : Bytes → Bytes → Bytes → ℕ → Bool → Result Bytes
  crypt_case payload key iv encrypt_type encrypt =
      let n = length payload / 16 in
      let unaligned = not (length payload % 16 == 0) in
      if encrypt_type == 1
      then fail_if unaligned (opaque "xiaomi native AES-CBC payload length is not block aligned")
        >> ok (
            if encrypt
            then cbc_encrypt ciphers.aes key n iv payload
            else cbc_decrypt ciphers.aes key n iv payload)
      else if encrypt_type == 2
      then fail_if unaligned (opaque "xiaomi native AES-ECB payload length is not block aligned")
        >> ok (
            if encrypt
            then ecb_encrypt ciphers.aes key n payload
            else ecb_decrypt ciphers.aes key n payload)
      else if encrypt_type == 3
      then ok (ctr_crypt ciphers.aes key ((length payload + 15) / 16) iv payload)
      else err (opaque "xiaomi native unsupported encrypt type")

  unfoldable pub aes_crypt : Bytes → Bytes → Bytes → ℕ → Bool → Result Bytes
  unfolding crypt_case
  aes_crypt payload key iv encrypt_type encrypt =
      check_aes_key key >> crypt_case payload key iv encrypt_type encrypt

  -- miHomeMissEncodePayload; `random n` is what crypto/rand gave for n bytes.
  unfoldable pub encode_payload : Bytes → Bytes → ℕ → (ℕ → Result Bytes) → Result Bytes
  unfolding camera_encode padded_length aes_key aes_crypt
  encode_payload payload key encrypt_type random =
      if encrypt_type == 0 then camera_encode payload key (random 8) else do
        k ← aes_key key
        let padding = padded_length (length payload) - length payload
        iv ← random 16
        d ← aes_crypt (payload ++ replicate padding (padding % 256)) k iv encrypt_type true
        ok (le32 padding ++ iv ++ d)

  unfoldable pub decode_payload : Bytes → Bytes → ℕ → Result Bytes
  unfolding camera_decode aes_key aes_crypt
  decode_payload payload key encrypt_type =
      if encrypt_type == 0 then camera_decode payload key else do
        fail_if (ltb (length payload) 20) (opaque "xiaomi native encrypted payload too small")
        k ← aes_key key
        let padding = read_le32 payload
        plain ← aes_crypt (drop 20 payload) k (take 16 (drop 4 payload)) encrypt_type false
        fail_if (ltb (length plain) padding)
            (opaque "xiaomi native encrypted payload padding exceeds payload length")
        ok (take (length plain - padding) plain)

-- The words for the quality that StartMedia knows, by the camera's model; others are passed on.
abbrev is : Bytes → Bytes → Bool
is = bytes_eq

abbrev best_is_3 : Bytes → Bool
best_is_3 model =
    is model (codes "chuangmi.camera.046c04") || is model (codes "chuangmi.camera.72ac1")

unfoldable pub quality_code : Bytes → Bytes → Bytes
unfolding bytes_eq
quality_code model quality =
    if is quality [] || is quality (codes "hd")
    then (if best_is_3 model then codes "3" else codes "2")
    else if is quality (codes "sd")
    then codes "1"
    else if is quality (codes "auto")
    then codes "0"
    else quality

-- The plain request of StartMedia.
unfoldable pub start_request : Bytes → Bytes → Bytes → Bytes → Bytes
unfolding quality_code
start_request model channel quality audio =
    let code = quality_code model quality in
    let sound = if is audio [] then codes "0" else audio in
    be32 258
    ++ (if is channel [] || is channel (codes "0")
        then codes "{\"videoquality\":"
        else codes "{\"videoquality\":-1,\"videoquality2\":")
    ++ code
    ++ codes ",\"enableaudio\":"
    ++ sound
    ++ codes "}"

unfoldable pub stop_request : Bytes
stop_request = be32 259

pub record MissPacket : Type 0 where
  pub codec_id : ℕ
  pub sequence : ℕ
  pub flags : ℕ
  pub timestamp : ℕ
  pub payload : Bytes

-- The models whose packets have no time of their own.
abbrev has_no_clock : Bytes → Bool
has_no_clock model =
    is model (codes "isa.camera.df3")
    || (is model (codes "isa.camera.isc5c1") || is model (codes "loock.cateye.v02"))

abbrev read_le64 : Bytes → ℕ
read_le64 d = read_le32 d + read_le32 (drop 4 d) * 4294967296

-- ReadPacket of the media client, for the header and payload that the connection gave; `now` is the
-- time in milliseconds.
unfoldable pub read_media :
    Ciphers → Bytes → Bytes → ℕ → ℕ → Result (Bytes × Bytes) → Result MissPacket
unfolding decode_payload
read_media ciphers model key encrypt_type now (err e) = err (context "xiaomi native read media" e)
read_media ciphers model key encrypt_type now (ok (header, payload)) = do
  plain ← decode_payload ciphers payload key encrypt_type
  fail_if (ltb (length header) 32) (opaque "xiaomi native packet header too small")
  ok (record {
    codec_id = read_le32 (drop 4 header);
    sequence = read_le32 (drop 8 header);
    flags = read_le32 (drop 12 header);
    timestamp = if has_no_clock model then now else read_le64 (drop 16 header);
    payload = plain;
  })
