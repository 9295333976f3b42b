-- ===== src/Lan/Probe/Laws.antt =====
-- lan.go: probes, and the device that a packet names.
use go_mihome.Common.{
  ℕ, ◌+◌, ◌<◌, ◌≡◌, refl, sym, ap, ◌∙◌, ◌∷◌, ◌++◌, some, arith, ◌==◌, length, drop, Option-cases,
  inl, inr, length-append, drop-drop, get_or-drop, drop-length, get_or, true, ◌≤◌,
}
use go_mihome.Common.Result.{ok}
use go_mihome.Common.Bytes.{
  Bytes, codes, be16, be32, be64, read_be16, read_be32, read_be32-be32, read_be64, read_be64-be64,
  bytes_eq,
}
use go_mihome.Common.Decimal.{parse_uint, format_uint}
use go_mihome.Lan.Packet.{Primitives, LanDevice, LanMessage, build_packet_message, encrypt_payload}
use go_mihome.Lan.Packet.RoundTrip.{IsKeyed, sealed, build_lem, sealed_parts}
use go_mihome.Lan.Padding.{pkcs7_pad}
use go_mihome.Lan.Probe.{
  no_subscription, did_from_lan_packet, build_lan_broadcast_probe_packet, parse_lan_probe_packet,
}

read_did :
    (d : LanDevice) (did : ℕ) (s e : Bytes)
    → did < 18446744073709551616
    → read_be64 (drop 4 (sealed d did s e)) ≡ did
unfolding be16 be64
read_did d did s e h = read_be64-be64 did (be32 d.offset ++ (s ++ e)) h

did_from_lan_packet_lem :
    (p : Bytes)
    → 32 ≤ length p
    → read_be16 p ≡ 0x2131
    → did_from_lan_packet p ≡ ok (format_uint (read_be64 (drop 4 p)))
unfolding did_from_lan_packet
did_from_lan_packet_lem p long magic = ground arith

module _ (prim : Primitives) where
  -- The identifier in the header of a built packet is the device's own, in canonical decimal form.
  pub did-build :
      (d : LanDevice) (m : LanMessage) (p : Bytes) (did : ℕ)
      → IsKeyed d
      → prim.marshal m ≡ some p
      → parse_uint d.did ≡ some did
      → did < 18446744073709551616
      → (packet : Bytes) × (build_packet_message prim d m ≡ ok packet)
        × (did_from_lan_packet packet ≡ ok (format_uint did))
  did-build d m p did k pm pd h =
      let e = encrypt_payload prim d (pkcs7_pad p 16) in
      let s = prim.md5 (sealed d did d.token e) in
      let parts = sealed_parts d did s e (prim.length-md5 _) in
      (
        sealed d did s e,
        build_lem prim d m p did k pm pd,
        did_from_lan_packet_lem (sealed d did s e) (omega arith) parts.1
            ∙ ap (λ n. ok (format_uint n)) (read_did d did s e h),
      )

-- The probe of a broadcast scan has 32 bytes, names the broadcast identifier 2^64 - 1, and is itself no
-- answer with a subscription.
pub probe_lem :
    (virtual_did : Bytes)
    → let p = build_lan_broadcast_probe_packet virtual_did in
      (length p ≡ 32)
      × (did_from_lan_packet p ≡ ok (format_uint 18446744073709551615))
      × (parse_lan_probe_packet p ≡ ok no_subscription)
unfolding build_lan_broadcast_probe_packet did_from_lan_packet parse_lan_probe_packet read_be16
    read_be64 bytes_eq be64
probe_lem virtual_did = elim (Option-cases (parse_uint virtual_did)) [
  | inl e ↦ rw e (refl, refl, refl)
  | inr (n, e) ↦ rw e (refl, refl, refl)
]

-- An answer to a probe: "MSUB", the time stamp, "PUB", the kind and the wildcard byte.
abbrev answer : Bytes → ℕ → ℕ → ℕ → Bytes → Bytes
answer front ts kind wildcard back =
    front ++ (codes "MSUB" ++ (be32 ts ++ (codes "PUB" ++ (kind ∷ wildcard ∷ back))))

answer_tail :
    (p : Bytes) (i : ℕ) (front rest : Bytes)
    → length front ≡ 16
    → p ≡ front ++ rest
    → (drop (16 + i) p ≡ drop i rest) × (get_or p (16 + i) 0 ≡ get_or rest i 0)
answer_tail p i front rest h e =
    let cut : drop 16 p ≡ rest =
      ap (drop 16) e ∙ ap (λ n. drop n (front ++ rest)) (sym h) ∙ drop-length front rest in
    (
      sym (drop-drop i 16 p) ∙ ap (drop i) cut,
      sym (get_or-drop 16 i p 0) ∙ ap (λ r. get_or r i 0) cut,
    )

-- An answer with a subscription is read field by field, whatever the sixteen bytes in front hold.
pub parse-answer :
    (front back : Bytes) (ts kind wildcard : ℕ)
    → length front ≡ 16
    → length back ≡ 3
    → ts < 4294967296
    → parse_lan_probe_packet (answer front ts kind wildcard back)
      ≡ ok (record {
        update_ts = ts;
        sub_type = kind;
        wildcard_supported = wildcard == 1;
        has_subscription = true;
      })
unfolding parse_lan_probe_packet bytes_eq be32
parse-answer front back ts kind wildcard hf hb ht =
    let p = answer front ts kind wildcard back in
    let rest = codes "MSUB" ++ (be32 ts ++ (codes "PUB" ++ (kind ∷ wildcard ∷ back))) in
    let at = λ (i : ℕ). answer_tail p i front rest hf refl in
    let size : length p ≡ 32 = omega (arith, length-append front rest) in
    let stamp : read_be32 (drop 20 p) ≡ ts =
      ap read_be32 (at 4).0
      ∙ unfold be32 in read_be32-be32 ts (codes "PUB" ++ (kind ∷ wildcard ∷ back)) ht in
    rw (size, (at 0).0, (at 8).0, stamp, (at 11).1, (at 12).1)
