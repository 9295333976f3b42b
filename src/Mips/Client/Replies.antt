-- ===== src/Mips/Client/Replies.antt =====
-- mips_client.go: replies and the requests that wait for them.
use go_mihome.Common.{
  ℕ, ◌%◌, ◌<◌, ◌≡◌, sym, subst, ap, ◌∙◌, List, [], Option, none, some, true, false, arith, All, inl,
  inr,
}
use go_mihome.Common.Result.{ok, err, Fault}
use go_mihome.Common.Bytes.{Bytes}
use go_mihome.Mips.Message.{Message, pack}
use go_mihome.Mips.Message.Fields.{IsPackable, trimmed}
use go_mihome.Mips.Message.Framing.{unpack-pack}
use go_mihome.Mips.Client.{
  MipsBaseConfig, MipsClient, find_pending, decode_message, ensure_reply_subscription, send_request,
  request, delete_pending, answered, handle_reply, Event, history,
}
use go_mihome.Mips.Client.Waits.{
  find-remove_self, find-put_self, Waits, Spares, requests, ensure_lem, request_cases,
  Waits-history,
}

-- What a request that was sent leaves behind.
request-ok :
    (t : ℕ) (msg sent : Message) (wire : Bytes) (refused : Option Fault) (c : MipsClient)
    → (request t msg refused c).1 ≡ ok (sent, wire)
    → (sent.id ≡ c.next_id) × Waits c.config sent.id t 0 (request t msg refused c).0
unfolding send_request
request-ok t msg sent wire refused c h =
    let d = (ensure_reply_subscription refused c).0 in
    let (a, b, n) = ensure_lem refused c in
    elim (request_cases t msg refused c) [
      | inl (_, (x, e)) ↦ absurd (let no : err x ≡ ok (sent, wire) = sym e ∙ h in ground arith)
      | inr (inl (_, (x, e))) ↦
          absurd (let no : err x ≡ ok (sent, wire) = sym e ∙ h in ground arith)
      | inr (inr (s, e)) ↦
          let out : ok ((send_request t msg d).1, (send_request t msg d).2) ≡ ok (sent, wire) =
            sym e ∙ h in
          let id : d.next_id ≡ sent.id = ground arith in
          let waits : Waits c.config d.next_id t 0 (send_request t msg d).0 = record {
            same = a;
            found = find-put_self d.next_id t d.pending;
            next = ap (λ x. x % 4294967296) (omega arith);
          } in
          (
            sym id ∙ n,
            subst (Waits c.config sent.id t 0) (sym s)
                (subst (λ x. Waits c.config x t 0 (send_request t msg d).0) id waits),
          )
    ]

handle_reply-ok :
    (p : Bytes) (m : Message) (c : MipsClient)
    → decode_message c.config p ≡ some (ok m)
    → handle_reply p c ≡ (delete_pending m.id c, answered (find_pending m.id c.pending) m)
unfolding handle_reply
handle_reply-ok p m c e = rw (e, handle_reply)

decode-pack :
    (cfg : MipsBaseConfig) (m : Message)
    → cfg.decode_envelope ≡ true
    → IsPackable m
    → decode_message cfg (pack m) ≡ some (ok (trimmed m))
unfolding decode_message
decode-pack cfg m on p = rw (on, unpack-pack m p)

reply_found :
    (cfg : MipsBaseConfig) (ticket k : ℕ) (reply : Message) (c : MipsClient)
    → cfg.decode_envelope ≡ true
    → IsPackable reply
    → Waits cfg reply.id ticket k c
    → ((handle_reply (pack reply) c).1 ≡ some (ticket, trimmed reply))
      × ((handle_reply (pack reply) (handle_reply (pack reply) c).0).1 ≡ none)
unfolding trimmed delete_pending
reply_found cfg ticket k reply c on p w =
    let read = ap (λ x. decode_message x (pack reply)) w.same ∙ decode-pack cfg reply on p in
    let first = handle_reply-ok (pack reply) (trimmed reply) c read in
    let rest = delete_pending reply.id c in
    let second = handle_reply-ok (pack reply) (trimmed reply) rest read in
    (
      ap (λ x. x.1) first ∙ ap (λ o. answered o (trimmed reply)) w.found,
      ap (λ x. (handle_reply (pack reply) x.0).1) first
          ∙ ap (λ x. x.1) second
          ∙ ap (λ o. answered o (trimmed reply)) (find-remove_self reply.id c.pending),
    )

-- A reply reaches the request that it answers, once, whatever happens in between. The client decodes
-- envelopes, and its counter is a 32-bit number. A request was sent; afterwards fewer than 2^32 requests
-- are made, replies come and requests are given up, but none of them with this request's identifier. Then
-- the envelope of a reply with that identifier goes to this request's ticket, and the same envelope once
-- more goes to nobody. The reply's texts fit their 32-bit lengths, and lose NUL bytes at their end.
pub reply_reaches :
    (ticket : ℕ) (msg sent reply : Message) (wire : Bytes) (refused : Option Fault) (c : MipsClient)
    (es : List Event)
    → c.config.decode_envelope ≡ true
    → c.next_id < 4294967296
    → (request ticket msg refused c).1 ≡ ok (sent, wire)
    → requests es < 4294967296
    → All (Spares c.config sent.id) es
    → reply.id ≡ sent.id
    → IsPackable reply
    → let d = history es (request ticket msg refused c).0 in
      ((handle_reply (pack reply) d).1 ≡ some (ticket, trimmed reply))
      × ((handle_reply (pack reply) (handle_reply (pack reply) d).0).1 ≡ none)
reply_reaches ticket msg sent reply wire refused c es on small h few spares answers p =
    let d = (request ticket msg refused c).0 in
    let (id, w) = request-ok ticket msg sent wire refused c h in
    let (j, v) =
      Waits-history c.config sent.id ticket 0 es d (omega arith) (omega arith) spares w in
    reply_found c.config ticket j reply (history es d) on p
      (subst (λ x. Waits c.config x ticket j (history es d)) (sym answers) v)

-- Without envelopes a reply has the identifier 0: it reaches a request only if one waits under 0, which
-- the first 2^32 - 1 requests of a client do not.
pub plain_reply_lost :
    (payload : Bytes) (c : MipsClient)
    → c.config.decode_envelope ≡ false
    → find_pending 0 c.pending ≡ none
    → (handle_reply payload c).1 ≡ none
unfolding decode_message
plain_reply_lost payload c off h =
    let m : Message = record { id = 0; from = []; reply_topic = []; payload = payload } in
    ap (λ x. x.1) (handle_reply-ok payload m c (rw off)) ∙ ap (λ o. answered o m) h
