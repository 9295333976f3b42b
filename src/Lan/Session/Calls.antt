-- ===== src/Lan/Session/Calls.antt =====
-- lan.go: the calls to a device.
use Prim.Native.String.{String}
use go_mihome.Common.{
  ◌≡◌, refl, ◌∙◌, arith, ◌<◌, ℕ, ◌+◌, ◌%◌, List, [], ◌∷◌, Option, none, some, false, length,
}
use go_mihome.Common.Result.{
  Result, ok, err, fault, opaque, invalid_response, ◌>>=◌, ◌>>◌, fail_if, or_fail,
}
use go_mihome.Common.Bytes.{Bytes, bytes_eq, codes}
use go_mihome.Lan.Packet.{
  LanMessage, LanRequest, LanDevice, Primitives, build_packet, build_packet_message, parse_packet,
}
use go_mihome.Lan.Runtime.Device.{success}
use go_mihome.Lan.Client.{LanClient, Notice, ensure_enabled, device, record_signal}
use go_mihome.Common.Decimal.{parse_uint}
use go_mihome.Mips.Message.{trim}
use go_mihome.Lan.Packet.RoundTrip.{IsKeyed, parse-build}
use go_mihome.Lan.Session.{LanSession}

-- nextMessageID, on 32 bits.
unfoldable pub next_message_id : LanSession → ℕ × LanSession
next_message_id s = (s.next_id, record s { next_id = (s.next_id + 1) % 4294967296 })

-- What the transport answers to a packet that it sends by an interface to an address.
abbrev pub Transport : Type 0
Transport = Bytes → Bytes → Bytes → Result Bytes

module _ (prim : Primitives) (transport : Transport) where
  -- call.
  unfoldable pub call : Bytes → LanRequest → LanClient → Result LanMessage
  call did req c = do
    d ← device c did
    packet ← build_packet prim d req
    reply ← transport d.if_name d.ip packet
    fail_if (bytes_eq reply []) (fault invalid_response "lan call" "empty reply")
    parse_packet prim d reply

  abbrev pub finish {ℓ} :
      {R : Type ℓ} → ℕ → Bytes → LanSession → Result R → LanSession × List Notice × Result R
  finish now did s (err e) = (s, [], err e)
  finish now did s (ok r) =
      let (c, notices) = record_signal now success did s.client in
      (record s { client = c }, notices, ok r)

  -- What GetProp, SetProp and InvokeAction share: `payload` is what json.Marshal returns, `decode` reads
  -- the result of the answer. The number of the message is used up if the payload is made.
  unfoldable pub invoke {ℓ} :
      {R : Type ℓ}
      → String
      → Bytes
      → Bytes
      → Option Bytes
      → (Bytes → Result R)
      → ℕ
      → LanSession
      → LanSession × List Notice × Result R
  unfolding next_message_id call
  invoke op did method payload decode now s =
      elim (ensure_enabled op s.client >> or_fail payload (opaque "encoding/json")) [
        | err e ↦ (s, [], err e)
        | ok params ↦
            let (id, t) = next_message_id s in
            let req : LanRequest = record { id = id; method = method; params = params } in
            finish now did t (call did req t.client >>= λ msg. decode msg.result)
      ]

-- The single result that GetProp and SetProp accept.
unfoldable pub single_result {ℓ} : {R : Type ℓ} → String → Option (List R) → Result R
single_result op none = err (opaque "encoding/json")
single_result op (some []) = err (fault invalid_response op "invalid result length")
single_result op (some (r ∷ [])) = ok r
single_result op (some (r ∷ q ∷ rs)) = err (fault invalid_response op "invalid result length")

-- GetProp, SetProp and InvokeAction: `decode` is json.Unmarshal on the result of the answer.
module _ (prim : Primitives) (transport : Transport) where
  unfoldable pub get_prop {ℓ} :
      {R : Type ℓ}
      → Bytes
      → Option Bytes
      → (Bytes → Option (List R))
      → ℕ
      → LanSession
      → LanSession × List Notice × Result R
  unfolding invoke single_result
  get_prop did payload decode now s =
      invoke prim transport "lan get prop" did (codes "get_properties") payload
        (λ result. single_result "lan get prop" (decode result)) now s

  unfoldable pub set_prop {ℓ} :
      {R : Type ℓ}
      → Bytes
      → Option Bytes
      → (Bytes → Option (List R))
      → ℕ
      → LanSession
      → LanSession × List Notice × Result R
  unfolding invoke single_result
  set_prop did payload decode now s =
      invoke prim transport "lan set prop" did (codes "set_properties") payload
        (λ result. single_result "lan set prop" (decode result)) now s

  unfoldable pub invoke_action {ℓ} :
      {R : Type ℓ}
      → Bytes
      → Option Bytes
      → (Bytes → Option R)
      → ℕ
      → LanSession
      → LanSession × List Notice × Result R
  unfolding invoke
  invoke_action did payload decode now s =
      invoke prim transport "lan invoke action" did (codes "action") payload
        (λ result. or_fail (decode result) (opaque "encoding/json")) now s

-- The message that BuildPacket makes of a request.
abbrev pub request_message : LanRequest → LanMessage
request_message req = record {
  id = req.id;
  method = req.method;
  params = req.params;
  result = [];
  code = 0;
  error = [];
}

-- A device that answers, with what JSON makes of the request and of the answer: the request's text is p, the
-- answer's q, and q is read as m. Both packets are short enough for their length field.
pub record Exchange (prim : Primitives) (d : LanDevice) (req : LanRequest) (answer m : LanMessage)
    : Type 0 where
  pub number : ℕ
  pub p : Bytes
  pub q : Bytes
  pub keyed : IsKeyed d
  pub numbered : parse_uint d.did ≡ some number
  pub request_text : prim.marshal (request_message req) ≡ some p
  pub request_fits : length p + 48 < 65536
  pub answer_text : prim.marshal answer ≡ some q
  pub answer_fits : length q + 48 < 65536
  pub answer_read : prim.unmarshal (trim q) ≡ some m

module _ (prim : Primitives) (transport : Transport) where
  not_empty :
      (d : LanDevice) (packet : Bytes) (m : LanMessage)
      → parse_packet prim d packet ≡ ok m
      → bytes_eq packet [] ≡ false
  unfolding bytes_eq parse_packet
  not_empty d [] m h = absurd (ground arith)
  not_empty d (b ∷ bs) m h = refl

  -- A call of a device that is known and that answers the packet it gets returns the answer: the packet of
  -- the request is built, sent to the device's address, and the packet that comes back is parsed.
  pub call_answered :
      (did : Bytes) (d : LanDevice) (req : LanRequest) (answer m : LanMessage) (c : LanClient)
      → device c did ≡ ok d
      → Exchange prim d req answer m
      → ((packet : Bytes)
          → build_packet prim d req ≡ ok packet
          → transport d.if_name d.ip packet ≡ build_packet_message prim d answer)
      → call prim transport did req c ≡ ok m
  unfolding call build_packet
  call_answered did d req answer m c known x answers =
      let (packet, built, _) =
        parse-build prim d (request_message req) x.p x.number x.keyed x.request_text x.numbered
          x.request_fits in
      let (reply, made, parsed) =
        parse-build prim d answer x.q x.number x.keyed x.answer_text x.numbered x.answer_fits in
      let heard : transport d.if_name d.ip packet ≡ ok reply = answers packet built ∙ made in
      let read : parse_packet prim d reply ≡ ok m = parsed ∙ rw x.answer_read in
      rw (known, built, heard) (rw (not_empty d reply m read) read)
