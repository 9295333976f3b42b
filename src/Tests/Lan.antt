-- ===== src/Tests/Lan.antt =====
-- The device codec and the probes on concrete packets.
use go_mihome.Common.{◌≤◌, ◌≡◌, refl, ◌++◌, arith, length, take, drop, replicate}
use go_mihome.Common.Result.{ok, wrapped, opaque, invalid_response, or_fail}
use go_mihome.Common.Bytes.{Bytes, codes, be16, be32, be64, read_be16, bytes_eq}
use go_mihome.Common.Cipher.{cbc_encrypt, cbc_decrypt}
use go_mihome.Common.Decimal.{parse_uint}
use go_mihome.Mips.Message.{trim}
use go_mihome.Lan.Padding.{pkcs7_pad, pkcs7_unpad}
use go_mihome.Lan.Packet.{
  encrypt_payload, decrypt_payload, check_buffer, build_packet_message, open_payload, parse_packet,
}
use go_mihome.Lan.Packet.RoundTrip.{IsKeyed, parse-build}
use go_mihome.Lan.Packet.Integrity.{parse_sound}
use go_mihome.Tests.Data.{primitives, lamp, greeting}

pub lamp-IsKeyed : IsKeyed lamp
lamp-IsKeyed = record { token_size = refl; iv_size = refl }

parse-build_example :
    (packet : Bytes) × (build_packet_message primitives lamp greeting ≡ ok packet)
    × (parse_packet primitives lamp packet
        ≡ or_fail
            (primitives.unmarshal (trim (codes "hello")))
            (wrapped invalid_response "decode lan packet" (opaque "encoding/json")))
unfolding parse_uint
parse-build_example =
    parse-build primitives lamp greeting (codes "hello") 42 lamp-IsKeyed refl refl (omega arith)

-- A packet that the codec has built, and what is read off it.
abbrev packet : Bytes
packet =
    be16 8497
    ++ (be16 48 ++ (be64 42 ++ be32 100))
    ++ replicate 16 48
    ++ encrypt_payload primitives lamp (pkcs7_pad (codes "hello") 16)

packet_parsed : parse_packet primitives lamp packet ≡ ok greeting
unfolding parse_packet encrypt_payload decrypt_payload pkcs7_pad pkcs7_unpad be16 be32 be64
    read_be16 bytes_eq cbc_encrypt cbc_decrypt trim
packet_parsed = refl

parse_sound_example :
    let n = read_be16 (drop 2 packet) in
    (read_be16 packet ≡ 0x2131)
    × (32 ≤ n)
    × (n ≤ length packet)
    × (take 16 (drop 16 packet) ≡ primitives.md5 (check_buffer lamp (take n packet)))
    × (open_payload primitives lamp (drop 32 (take n packet)) ≡ ok greeting)
parse_sound_example = parse_sound primitives lamp packet greeting packet_parsed

hello_unpadded : pkcs7_unpad (codes "hello" ++ replicate 11 11) 16 ≡ ok (codes "hello")
unfolding pkcs7_unpad
hello_unpadded = refl
