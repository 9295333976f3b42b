-- ===== src/Lan/Packet/Integrity.antt =====
-- lan_types.go: what an accepted packet has gone through, and what a codec's constructor ensures.
use go_mihome.Common.{◌≤◌, ◌≡◌, ◌++◌, some, arith, length, take, drop}
use go_mihome.Common.Result.{ok}
use go_mihome.Common.Bytes.{Bytes, read_be16, bytes_eq_iff}
use go_mihome.Common.Hex.{hex_decode}
use go_mihome.Lan.Packet.{
  LanMessage, Primitives, LanDevice, LanDeviceConfig, new_lan_device, check_buffer, open_payload,
  parse_packet,
}

module _ (prim : Primitives) where
  -- A packet is parsed to a message only if it has the magic number, a length field between the header's
  -- length and its own, and as checksum the digest of its bytes with the device's token in the
  -- checksum's place.
  pub parse_sound :
      (d : LanDevice) (packet : Bytes) (m : LanMessage)
      → parse_packet prim d packet ≡ ok m
      → let n = read_be16 (drop 2 packet) in
        (read_be16 packet ≡ 0x2131)
        × (32 ≤ n)
        × (n ≤ length packet)
        × (take 16 (drop 16 packet) ≡ prim.md5 (check_buffer d (take n packet)))
        × (open_payload prim d (drop 32 (take n packet)) ≡ ok m)
  unfolding parse_packet
  parse_sound d packet m h =
      let sum =
        bytes_eq_iff (take 16 (drop 16 packet))
          (prim.md5 (check_buffer d (take (read_be16 (drop 2 packet)) packet))) in
      (ground arith, ground arith, ground arith, ground (arith, sum), ground arith)

  -- A codec is made only from a token of 16 bytes in hexadecimal, keeps that token and the
  -- identifier, and has an initial vector of 16 bytes.
  pub new_lan_device-IsKeyed :
      (cfg : LanDeviceConfig) (d : LanDevice)
      → new_lan_device prim cfg ≡ ok d
      → (hex_decode cfg.token ≡ some d.token)
        × (d.did ≡ cfg.did)
        × (length d.token ≡ 16)
        × (length d.iv ≡ 16)
  unfolding new_lan_device
  new_lan_device-IsKeyed cfg d h = (
    ground arith,
    ground arith,
    ground arith,
    ground (arith, prim.length-md5 (prim.md5 d.token ++ d.token)),
  )
