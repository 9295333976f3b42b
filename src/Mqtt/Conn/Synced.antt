-- ===== src/Mqtt/Conn/Synced.antt =====
-- mqtt.go: what the broker has subscribed, while methods do not overlap.
use go_mihome.Common.{
  ℕ, ◌+◌, ◌≡◌, refl, sym, ap, subst, ◌∙◌, List, [], ◌∷◌, ◌++◌, Option, none, some, Bool, true,
  false, ◌&&◌, not, if◌then◌else◌, ◌==◌, arith, Bool-cases, Option-cases, inl, inr, length, ==_refl,
}
use go_mihome.Common.Bytes.{Bytes, bytes_eq}
use go_mihome.Common.Dict.{Dict, lookup, insert, delete, lookup-insert_self}
use go_mihome.Mqtt.Conn.{
  PahoMqttConn, broker_subscribe, broker_unsubscribe, register, unregister, same, drop_topic,
  drop_id, handlers_of, has_handlers, request_if, subscribe, remove_subscription,
  set_connection_state, set_last_connection_error, subscription_topics,
}
use go_mihome.Mqtt.Conn.Covered.{handled}
use go_mihome.Mqtt.Conn.Session.{
  subscribed, removed, went_up, went_down, closed, here, next, Net, Answer, accepted, refused, lost,
  carried_out, Gaps, no_gaps, note, kept_if, IsNear, serve, serve_removal, serve_each, give_up,
  Quiet, Quietly, Synced, IsSynced, no_session, served-none, removed-none, first_handler,
}
use go_mihome.Mqtt.Conn.Near.{Near-add, Near-set, Near-note, Near-drop, Near-given_up, Near-up}

pub remove_last :
    (topic : Bytes) (id : ℕ) (c : PahoMqttConn)
    → c.manager ≡ true
    → lookup topic c.subs ≡ some (id ∷ [])
    → remove_subscription topic id c ≡ (
      record c { subs = delete topic c.subs; router = unregister topic c.router },
      broker_unsubscribe topic ∷ [],
    )
unfolding remove_subscription drop_id
remove_last topic id c m last =
    let d : PahoMqttConn = record c {
      subs = delete topic c.subs;
      router = unregister topic c.router;
    } in
    rw (last, remove_subscription)
      (rw (==_refl id) (ap (λ b. (d, request_if b (broker_unsubscribe topic))) m))

give_up-IsSynced :
    (b : Answer) (topic : Bytes) (id : ℕ) (us : List Bytes) (d : PahoMqttConn) (g : Gaps)
    → d.manager ≡ true
    → lookup topic d.subs ≡ some (id ∷ [])
    → IsNear (carried_out b (drop_topic topic) us) (delete topic d.subs) g
    → IsSynced (give_up b topic id (record { conn = d; session = some us })) g
unfolding give_up serve_removal
give_up-IsSynced b topic id us d g m last near = rw (remove_last topic id d m last) (m, near)

-- The request of the first handler of a topic.
asked-IsSynced :
    (a b : Answer) (topic : Bytes) (id : ℕ) (ts : List Bytes) (old : Dict (List ℕ))
    (d : PahoMqttConn) (g : Gaps)
    → d.manager ≡ true
    → d.subs ≡ insert topic (id ∷ []) old
    → IsNear ts old g
    → IsSynced
        (serve_each a b (broker_subscribe topic id ∷ []) (record { conn = d; session = some ts }))
        (note a topic g)
unfolding serve_each serve
asked-IsSynced accepted b topic id ts old d g m table h =
    (m, subst (λ x. IsNear (topic ∷ ts) x g) (sym table) (Near-add topic (id ∷ []) ts old g h))
asked-IsSynced refused b topic id ts old d g m table h =
    give_up-IsSynced b topic id ts d (note refused topic g) m
      (ap (lookup topic) table ∙ lookup-insert_self topic (id ∷ []) old)
      (subst
        (λ x. IsNear (carried_out b (drop_topic topic) ts) (delete topic x) (note refused topic g))
        (sym table) (Near-given_up b topic (id ∷ []) ts ts old g (λ k s. refl) h))
asked-IsSynced lost b topic id ts old d g m table h =
    give_up-IsSynced b topic id (topic ∷ ts) d (note lost topic g) m
      (ap (lookup topic) table ∙ lookup-insert_self topic (id ∷ []) old)
      (subst
        (λ x.
          IsNear (carried_out b (drop_topic topic) (topic ∷ ts)) (delete topic x)
            (note lost topic g))
        (sym table) (Near-given_up b topic (id ∷ []) ts (topic ∷ ts) old g (λ k s. rw s) h))

only_one :
    (id : ℕ) (o : Option (List ℕ))
    → (length (handlers_of o ++ id ∷ []) == 1) ≡ true
    → handlers_of o ++ id ∷ [] ≡ id ∷ []
only_one id none h = refl
only_one id (some []) h = refl
only_one id (some (x ∷ [])) h = absurd (ground arith)
only_one id (some (x ∷ y ∷ xs)) h = absurd (ground arith)

subscribe-IsSynced :
    (a b : Answer) (topic : Bytes) (c : PahoMqttConn) (session : Option (List Bytes)) (g : Gaps)
    → Synced c.manager session c.subs g
    → IsSynced
        (serve_each a b
          (subscribe topic c).1
          (record { conn = (subscribe topic c).0; session = session }))
        (note a topic g)
unfolding subscribe serve_each
subscribe-IsSynced a b topic c none g h =
    served-none a b (subscribe topic c).1 (record { conn = (subscribe topic c).0; session = none })
      (note a topic g) refl
subscribe-IsSynced a b topic c (some ts) g (m, h) =
    let ids = handlers_of (lookup topic c.subs) ++ c.next_id ∷ [] in
    elim (Bool-cases (bytes_eq topic [])) [
      | inl e ↦ rw e (m, Near-note a topic ts c.subs g h)
      | inr e ↦ elim (Bool-cases (length ids == 1)) [
        | inl f ↦
            let asks : ((length ids == 1) && c.manager) ≡ true = ground (arith, f, m) in
            let d : PahoMqttConn = record c {
              router =
                  if has_handlers (lookup topic c.subs) then c.router else register topic c.router;
              subs = insert topic ids c.subs;
              next_id = c.next_id + 1;
            } in
            rw (e, asks)
              (asked-IsSynced a b topic c.next_id ts c.subs d g m
                (ap (λ x. insert topic x c.subs) (only_one c.next_id (lookup topic c.subs) f)) h)
        | inr f ↦
            let quiet : ((length ids == 1) && c.manager) ≡ false = ground (arith, f) in
            let old = first_handler c.next_id (lookup topic c.subs) f in
            rw (e, quiet) (m, Near-note a topic ts _ g (Near-set topic ids ts c.subs g old h))
      ]
    ]

unsubscribe_asked :
    (a : Answer) (topic : Bytes) (ts : List Bytes) (d : PahoMqttConn) (ask : Bool) (g : Gaps)
    → ask ≡ true
    → Synced d.manager (some (carried_out a (drop_topic topic) ts)) d.subs g
    → IsSynced
        (serve_removal a
          (request_if ask (broker_unsubscribe topic))
          (record { conn = d; session = some ts }))
        g
unfolding serve_removal
unsubscribe_asked a topic ts d true g e h = h
unsubscribe_asked a topic ts d false g e h = cc

remove-IsSynced :
    (a : Answer) (topic : Bytes) (id : ℕ) (c : PahoMqttConn) (session : Option (List Bytes))
    (g : Gaps)
    → Synced c.manager session c.subs g
    → IsSynced
        (serve_removal a
          (remove_subscription topic id c).1
          (record { conn = (remove_subscription topic id c).0; session = session }))
        (note a topic g)
unfolding remove_subscription serve_removal
remove-IsSynced a topic id c none g h =
    removed-none a (remove_subscription topic id c).1
      (record { conn = (remove_subscription topic id c).0; session = none }) (note a topic g) refl
remove-IsSynced a topic id c (some ts) g (m, h) = elim (Option-cases (lookup topic c.subs)) [
  | inl f ↦ rw (f, remove_subscription) (m, Near-note a topic ts c.subs g h)
  | inr (ids, f) ↦ elim (Bool-cases (length (drop_id id ids) == 0)) [
    | inl z ↦
        rw (f, remove_subscription)
          (rw z (
            unsubscribe_asked a topic ts
              (record c { subs = delete topic c.subs; router = unregister topic c.router })
              c.manager (note a topic g) m (m, Near-drop a topic ts c.subs g h)))
    | inr z ↦
        let old : handled topic c.subs ≡ true = rw f in
        rw (f, remove_subscription)
          (rw z (m, Near-note a topic ts _ g (Near-set topic (drop_id id ids) ts c.subs g old h)))
  ]
]

up-IsSynced :
    (refuses : Bytes → Bool) (left : List Bytes) (c : PahoMqttConn)
    → c.manager ≡ true
    → IsSynced
        (record {
          conn = (set_connection_state true (set_last_connection_error none c)).0;
          session = some (kept_if (λ t. not (refuses t)) (subscription_topics c) ++ left);
        })
        (record { missed = kept_if refuses (subscription_topics c); stale = left })
unfolding set_connection_state set_last_connection_error subscription_topics
up-IsSynced refuses left c m = elim (Bool-cases (same c.connected true)) [
  | inl k ↦ rw k (m, Near-up refuses left c.subs)
  | inr k ↦ rw k (m, Near-up refuses left c.subs)
]

Quiet-IsSynced : {m n : Net} {g h : Gaps} → Quiet m g n h → IsSynced m g → IsSynced n h
Quiet-IsSynced {m} {n} {g} (subscribed a b topic) near =
    subscribe-IsSynced a b topic m.conn m.session g near
Quiet-IsSynced {m} {n} {g} (removed a topic id) near =
    remove-IsSynced a topic id m.conn m.session g near
Quiet-IsSynced {m} (went_up refuses left e) near = up-IsSynced refuses left m.conn e
Quiet-IsSynced went_down near = tt
Quiet-IsSynced closed near = tt

-- While methods do not overlap and there is a session, every topic that has handlers is subscribed at the
-- broker, except those that the broker refused when resubscribeAll last asked for them; and every topic at the
-- broker has handlers, except those that the session had from before and those whose Subscribe or Unsubscribe
-- ended with an error in this session. So without such errors a new session has exactly the topics with
-- handlers. It starts from a connection without a session; subscriptions come and go, each request is accepted,
-- refused or carried out with its answer lost, and sessions are lost and come up.
pub Quietly-IsSynced :
    (start n : Net) (gaps : Gaps) → start.session ≡ none → Quietly start n gaps → IsSynced n gaps
Quietly-IsSynced start n gaps e here = no_session n.conn.manager n.session n.conn.subs no_gaps e
Quietly-IsSynced start n gaps e (next {m} {g} r st) =
    Quiet-IsSynced st (Quietly-IsSynced start m g e r)
