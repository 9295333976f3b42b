-- ===== src/Lan/Session/Recorded.antt =====
-- lan.go: what HandlePacket and the calls of a device do to the client.
use Prim.Native.String.{String}
use go_mihome.Common.{
  ℕ, ◌≡◌, ◌⊎◌, refl, List, [], Option, Bool, true, not, arith, inl, inr, Bool-cases,
}
use go_mihome.Common.Result.{Result, ok, err, opaque, ◌>>=◌, ◌>>◌, or_fail, Result-cases}
use go_mihome.Common.Bytes.{Bytes}
use go_mihome.Lan.Packet.{LanMessage, LanRequest, LanDevice, Primitives, parse_packet}
use go_mihome.Lan.Runtime.Device.{success}
use go_mihome.Lan.Runtime.Uplink.{record_recent_uplink}
use go_mihome.Lan.Client.{LanClient, effective, ensure_enabled, device, record_signal}
use go_mihome.Lan.Session.{
  LanSession, Json, Effect, Method, method_of, needs_ack, reply_to_uplink, deliver, delivered,
  new_message, accept, with_message, handle_packet,
}
use go_mihome.Lan.Session.Calls.{next_message_id, Transport, call, invoke, finish}

-- The client is as it was, or LAN control was on and a success of the device has been recorded.
abbrev pub Recorded : ℕ → Bytes → LanClient → LanClient → Type 0
Recorded now did c t = (t ≡ c) ⊎ ((effective c ≡ true) × (t ≡ (record_signal now success did c).0))

enabled_effective : (op : String) (c : LanClient) → ensure_enabled op c ≡ ok tt → effective c ≡ true
unfolding ensure_enabled
enabled_effective op c h = ground arith

module _ (prim : Primitives) (json : Json) (responds : Bool) where
  delivered_client :
      (s : LanSession) (reply : List Effect) (r : Result (List ℕ))
      → (delivered prim json responds s reply r).0.client ≡ s.client
  delivered_client s reply (ok ids) = refl
  delivered_client s reply (err e) = refl

  new_message_client :
      (method : Method) (msg : LanMessage) (reply : List Effect) (s : LanSession)
      → (new_message prim json responds method msg reply s).0.client ≡ s.client
  new_message_client method msg reply s = elim (Bool-cases (not s.subscribe_enabled)) [
    | inl k ↦ rw k refl
    | inr k ↦ rw k (delivered_client s reply (deliver prim json responds method msg s.subscribers))
  ]

  accept_client :
      (d : LanDevice) (did if_name ip : Bytes) (now : ℕ) (msg : LanMessage) (method : Method)
      (s : LanSession)
      → (accept prim json responds d did if_name ip now msg method s).0.client ≡ s.client
  unfolding accept
  accept_client d did if_name ip now msg method s =
      let reply = reply_to_uplink prim json responds d if_name ip msg.id in
      let (seen, repeated) = record_recent_uplink did msg.id now s.recent_uplink in
      let t = record s { recent_uplink = seen } in
      elim (Bool-cases (needs_ack method)) [
        | inr k ↦ rw k (new_message_client method msg [] s)
        | inl k ↦ rw k (elim (Bool-cases repeated) [
          | inl r ↦ rw r refl
          | inr r ↦ rw r (new_message_client method msg reply t)
        ])
      ]

  with_message-Recorded :
      (d : LanDevice) (did if_name ip : Bytes) (now : ℕ) (s : LanSession) (r : Result LanMessage)
      → effective s.client ≡ true
      → Recorded now did s.client
          (with_message prim json responds d did if_name ip now s r).0.client
  with_message-Recorded d did if_name ip now s (err e) on = inl refl
  with_message-Recorded d did if_name ip now s (ok msg) on =
      let c = (record_signal now success did s.client).0 in
      inr (
        on,
        accept_client d did if_name ip now msg (method_of msg.method) (record s { client = c }),
      )

  pub handle_packet-Recorded :
      (did if_name ip : Bytes) (now : ℕ) (packet : Bytes) (s : LanSession)
      → Recorded now did s.client
          (handle_packet prim json responds did if_name ip now packet s).0.client
  unfolding handle_packet
  handle_packet-Recorded did if_name ip now packet s =
      elim (Result-cases (ensure_enabled "lan handle packet" s.client >> device s.client did)) [
        | inr (e, h) ↦ rw h (inl refl)
        | inl (d, h) ↦ elim (Result-cases (ensure_enabled "lan handle packet" s.client)) [
          | inr (e, k) ↦ absurd (let no : err e ≡ ok d = rw k at h in ground arith)
          | inl (u, k) ↦ rw h (
              with_message-Recorded d did if_name ip now s (parse_packet prim d packet)
                (enabled_effective "lan handle packet" s.client k))
        ]
      ]

module _ (prim : Primitives) (transport : Transport) {R : Type 0} where
  finish-Recorded :
      (now : ℕ) (did : Bytes) (s : LanSession) (r : Result R)
      → effective s.client ≡ true
      → Recorded now did s.client (finish prim transport now did s r).0.client
  finish-Recorded now did s (err e) on = inl refl
  finish-Recorded now did s (ok r) on = inr (on, refl)

  pub invoke-Recorded :
      (op : String) (did method : Bytes) (payload : Option Bytes) (decode : Bytes → Result R)
      (now : ℕ) (s : LanSession)
      → Recorded now did s.client
          (invoke prim transport op did method payload decode now s).0.client
  unfolding invoke next_message_id
  invoke-Recorded op did method payload decode now s =
      elim (Result-cases (ensure_enabled op s.client >> or_fail payload (opaque "encoding/json"))) [
        | inr (e, h) ↦ rw (h, invoke) (inl refl)
        | inl (params, h) ↦ elim (Result-cases (ensure_enabled op s.client)) [
          | inr (e, k) ↦ absurd (let no : err e ≡ ok params = rw k at h in ground arith)
          | inl (u, k) ↦
              let (id, t) = next_message_id s in
              let req : LanRequest = record { id = id; method = method; params = params } in
              rw (h, invoke)
                (finish-Recorded now did t
                  (call prim transport did req t.client >>= λ msg. decode msg.result)
                  (enabled_effective op s.client k))
        ]
      ]
