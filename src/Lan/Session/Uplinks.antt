-- ===== src/Lan/Session/Uplinks.antt =====
-- lan.go: the handlers and the replies of a message that a device sends by itself.
use go_mihome.Common.{
  ℕ, ◌+◌, ◌*◌, ◌<◌, ◌≡◌, ◌≢◌, refl, ap, ◌∙◌, List, [], ◌∷◌, ◌++◌, none, Bool, true, false, ◌||◌,
  not, map, arith, Bool-cases, inl, inr, ◌==◌,
}
use go_mihome.Common.Result.{Result, ok, err, ◌>>◌, Result-cases}
use go_mihome.Common.Bytes.{Bytes, bytes_eq, bytes_eq_iff, codes}
use go_mihome.Lan.Packet.{LanMessage, LanDevice, Primitives, parse_packet, build_response_packet}
use go_mihome.Lan.Runtime.Config.{second}
use go_mihome.Lan.Runtime.Device.{success}
use go_mihome.Lan.Runtime.Uplink.{record_recent_uplink, uplink_repeated}
use go_mihome.Lan.Client.{Notice, ensure_enabled, device, record_signal}
use go_mihome.Lan.Session.{
  LanSession, Json, Effect, called, replied, noticed, Handled, Method, method_of, needs_ack,
  reply_to_uplink, deliver, delivered, new_message, accept, with_message, with_device,
  handle_packet, code_zero,
}

-- The handlers called.
abbrev pub calls_of : List Effect → List ℕ
calls_of [] = []
calls_of (called id ∷ es) = id ∷ calls_of es
calls_of (replied i a p ∷ es) = calls_of es
calls_of (noticed n ∷ es) = calls_of es

-- The packets sent.
abbrev pub replies_of : List Effect → List Effect
replies_of [] = []
replies_of (called id ∷ es) = replies_of es
replies_of (replied i a p ∷ es) = replied i a p ∷ replies_of es
replies_of (noticed n ∷ es) = replies_of es

calls-notices :
    (ns : List Notice) (es : List Effect) → calls_of (map noticed ns ++ es) ≡ calls_of es
calls-notices [] es = refl
calls-notices (n ∷ ns) es = calls-notices ns es

replies-notices :
    (ns : List Notice) (es : List Effect) → replies_of (map noticed ns ++ es) ≡ replies_of es
replies-notices [] es = refl
replies-notices (n ∷ ns) es = replies-notices ns es

replies-called :
    (ids : List ℕ) (es : List Effect) → replies_of (map called ids ++ es) ≡ replies_of es
replies-called [] es = refl
replies-called (i ∷ is) es = replies-called is es

-- A session in which the packet is handled: LAN control is on, the device is known, and the packet is
-- parsed to the message.
pub record Accepts (prim : Primitives) (did packet : Bytes) (d : LanDevice) (msg : LanMessage)
    (s : LanSession) : Type 0 where
  pub enabled : ensure_enabled "lan handle packet" s.client ≡ ok tt
  pub known : device s.client did ≡ ok d
  pub parsed : parse_packet prim d packet ≡ ok msg

module _ (prim : Primitives) (json : Json) (responds : Bool) (did if_name ip packet : Bytes) where
  handle_lem :
      (now : ℕ) (d : LanDevice) (msg : LanMessage) (s : LanSession)
      → Accepts prim did packet d msg s
      → handle_packet prim json responds did if_name ip now packet s
        ≡ with_message prim json responds d did if_name ip now s (ok msg)
  unfolding handle_packet
  handle_lem now d msg s h =
      let both : (ensure_enabled "lan handle packet" s.client >> device s.client did) ≡ ok d =
        rw (h.enabled, h.known) in
      ap (with_device prim json responds did if_name ip now packet s) both
      ∙ ap (with_message prim json responds d did if_name ip now s) h.parsed

  reply_parts :
      (d : LanDevice) (id : ℕ)
      → let reply = reply_to_uplink prim json responds d if_name ip id in
        (replies_of reply ≡ reply) × (calls_of reply ≡ [])
  unfolding reply_to_uplink
  reply_parts d id =
      elim (Bool-cases (bytes_eq if_name [] || (bytes_eq ip [] || (id == 0 || not responds)))) [
        | inl e ↦ rw e (refl, refl)
        | inr e ↦
            elim (Result-cases (
              build_response_packet prim d
                (record { id = id; result = code_zero; code = 0; error = [] }))) [
                  | inl (p, f) ↦ rw (e, f) (refl, refl)
                  | inr (x, f) ↦ rw (e, f) (refl, refl)
                ]
      ]

  -- The messages that have handled without an error are replied to.
  abbrev Acked : List Effect → Handled → Type 0
  Acked reply (s, effects, e) = e ≡ none → replies_of effects ≡ reply

  delivered-Acked :
      (s : LanSession) (reply : List Effect) (r : Result (List ℕ))
      → replies_of reply ≡ reply
      → Acked reply (delivered prim json responds s reply r)
  delivered-Acked s reply (err x) own e = absurd (ground arith)
  delivered-Acked s reply (ok ids) own e = replies-called ids reply ∙ own

  new-Acked :
      (method : Method) (msg : LanMessage) (reply : List Effect) (s : LanSession)
      → replies_of reply ≡ reply
      → Acked reply (new_message prim json responds method msg reply s)
  new-Acked method msg reply s own = elim (Bool-cases (not s.subscribe_enabled)) [
    | inl k ↦ rw k (λ e. own)
    | inr k ↦
        rw k (delivered-Acked s reply (deliver prim json responds method msg s.subscribers) own)
  ]

  accept-Acked :
      (now : ℕ) (d : LanDevice) (msg : LanMessage) (method : Method) (s : LanSession)
      → needs_ack method ≡ true
      → Acked
          (reply_to_uplink prim json responds d if_name ip msg.id)
          (accept prim json responds d did if_name ip now msg method s)
  unfolding accept
  accept-Acked now d msg method s need =
      let reply = reply_to_uplink prim json responds d if_name ip msg.id in
      let (seen, repeated) = record_recent_uplink did msg.id now s.recent_uplink in
      let t = record s { recent_uplink = seen } in
      let own = (reply_parts d msg.id).0 in
      rw need (elim (Bool-cases repeated) [
        | inl k ↦ rw k (λ e. own)
        | inr k ↦ rw k (new-Acked method msg reply t own)
      ])

  -- The reply of a message that can be replied to.
  reply_sent :
      (d : LanDevice) (id : ℕ) (p : Bytes)
      → (if_name ≢ []) × (ip ≢ []) × (id ≢ 0) × (responds ≡ true)
      → build_response_packet prim d
          (record { id = id; result = codes "{\"code\":0}"; code = 0; error = [] })
        ≡ ok p
      → reply_to_uplink prim json responds d if_name ip id ≡ replied if_name ip p ∷ []
  unfolding reply_to_uplink
  reply_sent d id p (a, b, c, r) built =
      let no : bytes_eq if_name [] || (bytes_eq ip [] || (id == 0 || not responds)) ≡ false =
        ground (arith, bytes_eq_iff if_name [], bytes_eq_iff ip []) in
      rw (no, built) refl

  handled_replies :
      (now : ℕ) (d : LanDevice) (msg : LanMessage) (s : LanSession)
      → Accepts prim did packet d msg s
      → needs_ack (method_of msg.method) ≡ true
      → (handle_packet prim json responds did if_name ip now packet s).2 ≡ none
      → replies_of (handle_packet prim json responds did if_name ip now packet s).1
        ≡ reply_to_uplink prim json responds d if_name ip msg.id
  handled_replies now d msg s h need = rw (handle_lem now d msg s h) (λ e.
      let (c, notices) = record_signal now success did s.client in
      let t = record s { client = c } in
      let method = method_of msg.method in
      replies-notices notices (accept prim json responds d did if_name ip now msg method t).1
      ∙ accept-Acked now d msg method t need e)

  -- A property or event message with an identifier other than 0 that is handled without an error is
  -- acknowledged once, whether it is new or repeated and whether events are wanted or not: one packet is sent,
  -- to the interface and address that the message came from, and it is the packet for the device with the
  -- identifier of the message and the result {"code":0}. The interface and the address are there, the
  -- transport can reply, and the packet can be built.
  pub handled-acked :
      (now : ℕ) (d : LanDevice) (msg : LanMessage) (s : LanSession) (p : Bytes)
      → Accepts prim did packet d msg s
      → needs_ack (method_of msg.method) ≡ true
      → (if_name ≢ []) × (ip ≢ []) × (msg.id ≢ 0) × (responds ≡ true)
      → build_response_packet prim d
          (record { id = msg.id; result = codes "{\"code\":0}"; code = 0; error = [] })
        ≡ ok p
      → (handle_packet prim json responds did if_name ip now packet s).2 ≡ none
      → replies_of (handle_packet prim json responds did if_name ip now packet s).1
        ≡ replied if_name ip p ∷ []
  handled-acked now d msg s p h need there built e =
      handled_replies now d msg s h need e ∙ reply_sent d msg.id p there built

  accept_again :
      (now later : ℕ) (d : LanDevice) (msg : LanMessage) (method : Method) (s t : LanSession)
      → needs_ack method ≡ true
      → msg.id ≢ 0
      → (record_recent_uplink did msg.id now s.recent_uplink).1 ≡ false
      → later < now + 5 * second
      → t.recent_uplink ≡ (record_recent_uplink did msg.id now s.recent_uplink).0
      → let (u, effects, e) = accept prim json responds d did if_name ip later msg method t in
        (calls_of effects ≡ []) × (e ≡ none)
  unfolding accept
  accept_again now later d msg method s t need id first soon table =
      let again : (record_recent_uplink did msg.id later t.recent_uplink).1 ≡ true =
        ap (λ m. (record_recent_uplink did msg.id later m).1) table
        ∙ uplink_repeated did msg.id now later s.recent_uplink id first soon in
      rw (need, again) ((reply_parts d msg.id).1, refl)

  signalled :
      (now : ℕ) (d : LanDevice) (msg : LanMessage) (s t : LanSession)
      → t.client ≡ (record_signal now success did s.client).0
      → Accepts prim did packet d msg s
      → Accepts prim did packet d msg t
  unfolding record_signal ensure_enabled device
  signalled now d msg s t same h = record {
    enabled = rw same h.enabled;
    known = rw same h.known;
    parsed = h.parsed;
  }

  -- What handling the message leaves of the session.
  abbrev Leaves : LanSession → ℕ → ℕ → Handled → Type 0
  Leaves s now id h =
      (h.0.client ≡ s.client)
      × (h.0.recent_uplink ≡ (record_recent_uplink did id now s.recent_uplink).0)

  new-kept :
      (method : Method) (msg : LanMessage) (reply : List Effect) (s : LanSession)
      → (new_message prim json responds method msg reply s).0 ≡ s
  new-kept method msg reply s = elim (Bool-cases (not s.subscribe_enabled)) [
    | inl k ↦ rw k refl
    | inr k ↦ rw k (after (deliver prim json responds method msg s.subscribers))
  ]
    where
      after : (r : Result (List ℕ)) → (delivered prim json responds s reply r).0 ≡ s
      after (ok ids) = refl
      after (err e) = refl

  accept-Leaves :
      (now : ℕ) (d : LanDevice) (msg : LanMessage) (method : Method) (s : LanSession)
      → needs_ack method ≡ true
      → Leaves s now msg.id (accept prim json responds d did if_name ip now msg method s)
  unfolding accept
  accept-Leaves now d msg method s need =
      let reply = reply_to_uplink prim json responds d if_name ip msg.id in
      let (seen, repeated) = record_recent_uplink did msg.id now s.recent_uplink in
      let t = record s { recent_uplink = seen } in
      rw need (elim (Bool-cases repeated) [
        | inl k ↦ rw k (refl, refl)
        | inr k ↦ rw k (
          ap (λ (x : LanSession). x.client) (new-kept method msg reply t),
          ap (λ (x : LanSession). x.recent_uplink) (new-kept method msg reply t),
        )
      ])

  -- A message that a device sends twice within five seconds calls handlers the first time at most: the
  -- second time none is called and there is no error. The first copy was new, the message has an identifier
  -- other than 0, and nothing else is done between the two.
  pub handled_once :
      (now later : ℕ) (d : LanDevice) (msg : LanMessage) (s : LanSession)
      → Accepts prim did packet d msg s
      → needs_ack (method_of msg.method) ≡ true
      → msg.id ≢ 0
      → (record_recent_uplink did msg.id now s.recent_uplink).1 ≡ false
      → later < now + 5 * second
      → let t = (handle_packet prim json responds did if_name ip now packet s).0 in
        let (u, effects, e) = handle_packet prim json responds did if_name ip later packet t in
        (calls_of effects ≡ []) × (e ≡ none)
  handled_once now later d msg s h need id first soon =
      let method = method_of msg.method in
      let c = (record_signal now success did s.client).0 in
      let r = record s { client = c } in
      let left = accept prim json responds d did if_name ip now msg method r in
      let kept = accept-Leaves now d msg method r need in
      let again : Accepts prim did packet d msg left.0 = signalled now d msg s left.0 kept.0 h in
      let (e, notices) = record_signal later success did left.0.client in
      let u = record left.0 { client = e } in
      let second_time = accept_again now later d msg method r u need id first soon kept.1 in
      rw (handle_lem now d msg s h) (
        rw (handle_lem later d msg left.0 again) (
          calls-notices notices (accept prim json responds d did if_name ip later msg method u).1
              ∙ second_time.0,
          second_time.1,
        ))
