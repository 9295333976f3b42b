-- ===== src/Mqtt/Conn/Broker.antt =====
-- mqtt.go: what the broker has subscribed when two methods overlap.
use go_mihome.Common.{ℕ, ◌+◌, ◌≡◌, refl, ap, ◌∙◌, List, [], ◌∷◌, none, some, true, false}
use go_mihome.Common.Result.{Result, ok}
use go_mihome.Common.Bytes.{Bytes, bytes_eq, bytes_eq_refl}
use go_mihome.Common.Dict.{lookup, insert, delete, lookup-delete, lookup-insert_self}
use go_mihome.Mqtt.Conn.{
  PahoMqttConn, broker_subscribe, register, unregister, drop_topic, handlers_of, request_if,
  subscribe, remove_subscription, dispatch,
}
use go_mihome.Mqtt.Conn.Covered.{member, member-drop}
use go_mihome.Mqtt.Conn.Session.{Net, serve, serve_removal, serve_each, serve_all}
use go_mihome.Mqtt.Conn.Synced.{remove_last}

-- Two methods overlap: the last handler of a topic is removed, and before the broker has seen the request
-- another handler is subscribed, whose request overtakes it.
abbrev pub overlapped : Bytes → ℕ → Net → Net
overlapped topic id n =
    let (c, late) = remove_subscription topic id n.conn in
    let (d, requests, r) = subscribe topic c in
    serve_all late (serve_all requests (record n { conn = d }))

subscribe_first :
    (topic : Bytes) (c : PahoMqttConn)
    → bytes_eq topic [] ≡ false
    → c.manager ≡ true
    → lookup topic c.subs ≡ none
    → subscribe topic c ≡ (
      record c {
        router = register topic c.router;
        subs = insert topic (c.next_id ∷ []) c.subs;
        next_id = c.next_id + 1;
      },
      broker_subscribe topic c.next_id ∷ [],
      ok c.next_id,
    )
unfolding subscribe
subscribe_first topic c named m fresh =
    let d : PahoMqttConn = record c {
      router = register topic c.router;
      subs = insert topic (c.next_id ∷ []) c.subs;
      next_id = c.next_id + 1;
    } in
    let r : Result ℕ = ok c.next_id in
    rw (named, fresh) (ap (λ b. (d, request_if b (broker_subscribe topic c.next_id), r)) m)

-- When the last handler of a topic is removed, another one is subscribed before the broker has seen the
-- request to unsubscribe, and that request comes last, the new handler waits for messages that the broker
-- does not send: the topic has the handler and the broker has not subscribed it.
pub late_unsubscribe :
    (topic : Bytes) (id : ℕ) (ts : List Bytes) (c : PahoMqttConn)
    → bytes_eq topic [] ≡ false
    → c.manager ≡ true
    → lookup topic c.subs ≡ some (id ∷ [])
    → let n = overlapped topic id (record { conn = c; session = some ts }) in
      (dispatch topic n.conn ≡ c.next_id ∷ [])
      × ((us : List Bytes) × (n.session ≡ some us) × (member topic us ≡ false))
unfolding dispatch serve_each serve serve_removal
late_unsubscribe topic id ts c named manager last =
    let e : PahoMqttConn = record c {
      subs = delete topic c.subs;
      router = unregister topic c.router;
    } in
    let gone : lookup topic e.subs ≡ none =
      lookup-delete topic topic c.subs ∙ rw (bytes_eq_refl topic) in
    let dropped : member topic (drop_topic topic (topic ∷ ts)) ≡ false =
      member-drop topic topic (topic ∷ ts) ∙ rw (bytes_eq_refl topic) in
    rw (remove_last topic id c manager last) (
      rw (subscribe_first topic e named manager gone) (
        ap handlers_of (lookup-insert_self topic (c.next_id ∷ []) e.subs),
        (drop_topic topic (topic ∷ ts), refl, dropped),
      ))
