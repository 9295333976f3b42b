-- ===== src/Lan/Probe.antt =====
-- lan.go: the 32-byte probes, and the device identifier in a packet's header.
pub mod Laws
use go_mihome.Common.{
  ℕ, ◌+◌, List, [], ◌∷◌, ◌++◌, Option, none, some, Bool, true, false, ◌&&◌, not, ◌==◌, ltb,
  if◌then◌else◌, length, get_or, take, drop, replicate,
}
use go_mihome.Common.Result.{Result, ok, err, fault, invalid_response, fail_if, ◌>>=◌, ◌>>◌}
use go_mihome.Common.Bytes.{Bytes, codes, be64, read_be16, read_be32, read_be64, bytes_eq}
use go_mihome.Common.Decimal.{parse_uint, format_uint}
use go_mihome.Lan.Packet.{lan_packet_magic, lan_header_length}

pub record LanProbeInfo : Type 0 where
  pub update_ts : ℕ
  pub sub_type : ℕ
  pub wildcard_supported : Bool
  pub has_subscription : Bool

abbrev pub no_subscription : LanProbeInfo
no_subscription = record {
  update_ts = 0;
  sub_type = 0;
  wildcard_supported = false;
  has_subscription = false;
}

unfoldable pub did_from_lan_packet : Bytes → Result Bytes
did_from_lan_packet packet = do
  fail_if (ltb (length packet) lan_header_length)
      (fault invalid_response "lan packet did" "packet too short")
  fail_if (not (read_be16 packet == lan_packet_magic))
      (fault invalid_response "lan packet did" "invalid packet magic")
  ok (format_uint (read_be64 (drop 4 packet)))

-- The first 20 bytes: the magic, the length 32, twelve bytes 0xFF and "MDID".
abbrev probe_header : Bytes
probe_header = 0x21 ∷ 0x31 ∷ 0x00 ∷ 0x20 ∷ (replicate 12 0xFF ++ (0x4D ∷ 0x44 ∷ 0x49 ∷ 0x44 ∷ []))

-- A virtual identifier that is no 64-bit number leaves its eight bytes 0.
probe_did : Option ℕ → Bytes
probe_did none = replicate 8 0
probe_did (some did) = be64 did

unfoldable pub build_lan_broadcast_probe_packet : Bytes → Bytes
unfolding probe_did
build_lan_broadcast_probe_packet virtual_did =
    probe_header ++ (probe_did (parse_uint virtual_did) ++ replicate 4 0)

unfoldable pub parse_lan_probe_packet : Bytes → Result LanProbeInfo
parse_lan_probe_packet packet = do
  fail_if (not (length packet == lan_header_length))
      (fault invalid_response "lan probe" "not a probe packet")
  ok (
      if bytes_eq (take 4 (drop 16 packet)) (codes "MSUB")
        && bytes_eq (take 3 (drop 24 packet)) (codes "PUB")
      then record {
        update_ts = read_be32 (drop 20 packet);
        sub_type = get_or packet 27 0;
        wildcard_supported = get_or packet 28 0 == 1;
        has_subscription = true;
      }
      else no_subscription)
