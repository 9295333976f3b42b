-- ===== src/Lan/Packet/RoundTrip.antt =====
-- lan_types.go: building and parsing packets with one codec.
use native.Mathlib.Nat.{mod-eq_of_lt}
use go_mihome.Common.{
  ℕ, ◌+◌, ◌*◌, ◌%◌, ◌/◌, ◌≤◌, ◌<◌, ◌≡◌, refl, sym, ap, ap₂, ◌∙◌, ◌++◌, some, length, take, drop,
  arith, length-append, take-length, drop-length, take_all,
}
use go_mihome.Common.Result.{ok, wrapped, opaque, invalid_response, or_fail}
use go_mihome.Common.Bytes.{Bytes, be16, be32, be64, read_be16, bytes_eq_refl}
use go_mihome.Common.Decimal.{parse_uint}
use go_mihome.Common.Cipher.{cbc_encrypt}
use go_mihome.Common.Cipher.Modes.{length-cbc_encrypt, cbc_decrypt-cbc_encrypt}
use go_mihome.Mips.Message.{trim}
use go_mihome.Lan.Padding.{pkcs7_pad}
use go_mihome.Lan.Padding.RoundTrip.{unpad-pad, length-pad}
use go_mihome.Lan.Packet.{
  LanMessage, Primitives, LanDevice, encrypt_payload, decrypt_payload, raw_packet,
  build_packet_message, check_buffer, open_payload, parse_packet,
}

-- A device as new_lan_device makes it.
pub record IsKeyed (d : LanDevice) : Type 0 where
  pub token_size : length d.token ≡ 16
  pub iv_size : length d.iv ≡ 16

-- The sixteen bytes of the header that stand before the checksum.
abbrev pub header : LanDevice → ℕ → ℕ → Bytes
header d n did = be16 0x2131 ++ (be16 (n % 65536) ++ (be64 did ++ be32 d.offset))

-- The packet with a checksum in its place.
abbrev pub sealed : LanDevice → ℕ → Bytes → Bytes → Bytes
sealed d did sum encrypted = header d (32 + length encrypted) did ++ (sum ++ encrypted)

take_sum : (s e : Bytes) → length s ≡ 16 → take 16 (s ++ e) ≡ s
take_sum s e h = ap (λ n. take n (s ++ e)) (sym h) ∙ take-length s e

drop_sum : (s e : Bytes) → length s ≡ 16 → drop 16 (s ++ e) ≡ e
drop_sum s e h = ap (λ n. drop n (s ++ e)) (sym h) ∙ drop-length s e

raw_packet-sealed :
    (d : LanDevice) (did : ℕ) (e : Bytes) → raw_packet d did e ≡ sealed d did d.token e
unfolding raw_packet be16 be32 be64
raw_packet-sealed d did e = refl

-- Where the parts of a sealed packet are found.
pub sealed_parts :
    (d : LanDevice) (did : ℕ) (s e : Bytes)
    → length s ≡ 16
    → let p = sealed d did s e in
      (length p ≡ 32 + length e)
      × (read_be16 p ≡ 0x2131)
      × (read_be16 (drop 2 p) ≡ (32 + length e) % 65536)
      × (take 16 p ≡ header d (32 + length e) did)
      × (take 16 (drop 16 p) ≡ s)
      × (drop 32 p ≡ e)
unfolding be16 be32 be64 read_be16
sealed_parts d did s e h =
    (omega (arith, length-append s e), refl, omega arith, refl, take_sum s e h, drop_sum s e h)

-- Replacing the checksum by the token gives the packet that the checksum was taken over.
check_buffer-sealed :
    (d : LanDevice) (did : ℕ) (s e : Bytes)
    → length s ≡ 16
    → check_buffer d (sealed d did s e) ≡ sealed d did d.token e
unfolding check_buffer
check_buffer-sealed d did s e h =
    let parts = sealed_parts d did s e h in ap₂ (λ x y. x ++ (d.token ++ y)) parts.3 parts.5

module _ (prim : Primitives) where
  decrypt-encrypt_payload :
      (d : LanDevice) (p : Bytes)
      → IsKeyed d
      → (length (encrypt_payload prim d (pkcs7_pad p 16)) ≡ length (pkcs7_pad p 16))
        × (decrypt_payload prim d (encrypt_payload prim d (pkcs7_pad p 16)) ≡ pkcs7_pad p 16)
  unfolding encrypt_payload decrypt_payload
  decrypt-encrypt_payload d p k =
      let n = length (pkcs7_pad p 16) / 16 in
      let blocks : length (pkcs7_pad p 16) ≡ 16 * n = omega (arith, length-pad p) in
      let size = length-cbc_encrypt prim.aes d.key n d.iv (pkcs7_pad p 16) blocks k.iv_size in
      let same : length (cbc_encrypt prim.aes d.key n d.iv (pkcs7_pad p 16)) / 16 ≡ n =
        omega arith in
      (
        size ∙ sym blocks,
        rw same (cbc_decrypt-cbc_encrypt prim.aes d.key n d.iv (pkcs7_pad p 16) blocks k.iv_size),
      )

  pub build_lem :
      (d : LanDevice) (m : LanMessage) (p : Bytes) (did : ℕ)
      → IsKeyed d
      → prim.marshal m ≡ some p
      → parse_uint d.did ≡ some did
      → let e = encrypt_payload prim d (pkcs7_pad p 16) in
        build_packet_message prim d m ≡ ok (sealed d did (prim.md5 (sealed d did d.token e)) e)
  unfolding build_packet_message
  build_lem d m p did k pm pd =
      let raw = raw_packet-sealed d did (encrypt_payload prim d (pkcs7_pad p 16)) in
      let parts =
        sealed_parts d did d.token (encrypt_payload prim d (pkcs7_pad p 16)) k.token_size in
      rw (pm, pd)
        (ap (λ r. ok (take 16 r ++ (prim.md5 r ++ drop 32 r))) raw
          ∙ ap₂
              (λ x y. ok (
                x
                ++ (prim.md5 (sealed d did d.token (encrypt_payload prim d (pkcs7_pad p 16)))
                    ++ y)))
              parts.3 parts.5)

  open_lem :
      (d : LanDevice) (p : Bytes)
      → IsKeyed d
      → open_payload prim d (encrypt_payload prim d (pkcs7_pad p 16))
        ≡ or_fail
            (prim.unmarshal (trim p))
            (wrapped invalid_response "decode lan packet" (opaque "encoding/json"))
  unfolding open_payload
  open_lem d p k =
      let (size, back) = decrypt-encrypt_payload d p k in
      let whole : length (encrypt_payload prim d (pkcs7_pad p 16)) % 16 ≡ 0 =
        omega (arith, length-pad p) in
      rw (whole, back, unpad-pad p)

  -- A packet whose length field is its length and whose checksum is right is opened.
  parse_packet_lem :
      (d : LanDevice) (p : Bytes)
      → 32 ≤ length p
      → read_be16 p ≡ 0x2131
      → read_be16 (drop 2 p) ≡ length p
      → take 16 (drop 16 p) ≡ prim.md5 (check_buffer d p)
      → parse_packet prim d p ≡ open_payload prim d (drop 32 p)
  unfolding parse_packet
  parse_packet_lem d p long magic size sum =
      rw (size, magic, take_all p, sum, bytes_eq_refl (prim.md5 (check_buffer d p)))
        (ground (arith))

  parse-sealed :
      (d : LanDevice) (did : ℕ) (e : Bytes)
      → IsKeyed d
      → 32 + length e < 65536
      → parse_packet prim d (sealed d did (prim.md5 (sealed d did d.token e)) e)
        ≡ open_payload prim d e
  parse-sealed d did e k fits =
      let s = prim.md5 (sealed d did d.token e) in
      let parts = sealed_parts d did s e (prim.length-md5 _) in
      parse_packet_lem d (sealed d did s e) (omega arith) parts.1
        (parts.2 ∙ mod-eq_of_lt fits ∙ sym parts.0)
        (parts.4 ∙ ap prim.md5 (sym (check_buffer-sealed d did s e (prim.length-md5 _))))
      ∙ ap (open_payload prim d) parts.5

  -- A device parses what it builds: the result is what the JSON decoder makes of the marshalled
  -- message, less any NUL bytes at its end. The device's identifier is a 64-bit number in decimal, and
  -- the packet is short enough for its 16-bit length field.
  pub parse-build :
      (d : LanDevice) (m : LanMessage) (p : Bytes) (did : ℕ)
      → IsKeyed d
      → prim.marshal m ≡ some p
      → parse_uint d.did ≡ some did
      → length p + 48 < 65536
      → (packet : Bytes) × (build_packet_message prim d m ≡ ok packet)
        × (parse_packet prim d packet
            ≡ or_fail
                (prim.unmarshal (trim p))
                (wrapped invalid_response "decode lan packet" (opaque "encoding/json")))
  parse-build d m p did k pm pd fits =
      let e = encrypt_payload prim d (pkcs7_pad p 16) in
      let (size, _) = decrypt-encrypt_payload d p k in
      (
        sealed d did (prim.md5 (sealed d did d.token e)) e,
        build_lem d m p did k pm pd,
        parse-sealed d did e k (omega (arith, length-pad p)) ∙ open_lem d p k,
      )

  -- The length field of a built packet is the length modulo 2^16: a packet of 65536 bytes or more is
  -- built without an error, with a length field that is wrong.
  pub build-length_field :
      (d : LanDevice) (m : LanMessage) (p : Bytes) (did : ℕ)
      → IsKeyed d
      → prim.marshal m ≡ some p
      → parse_uint d.did ≡ some did
      → (packet : Bytes) × (build_packet_message prim d m ≡ ok packet)
        × (read_be16 (drop 2 packet) ≡ length packet % 65536)
        × (length p < length packet)
  build-length_field d m p did k pm pd =
      let e = encrypt_payload prim d (pkcs7_pad p 16) in
      let s = prim.md5 (sealed d did d.token e) in
      let parts = sealed_parts d did s e (prim.length-md5 _) in
      let (size, _) = decrypt-encrypt_payload d p k in
      (
        sealed d did s e,
        build_lem d m p did k pm pd,
        parts.2 ∙ ap (λ n. n % 65536) (sym parts.0),
        omega (arith, length-pad p),
      )
