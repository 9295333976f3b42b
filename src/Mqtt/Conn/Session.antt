-- ===== src/Mqtt/Conn/Session.antt =====
-- mqtt.go: the connection with what the broker has subscribed for it. The broker's side is a list of topics,
-- which a session has. What it answers to a request, which topics of resubscribeAll it refuses and which topics
-- a session has from before are given from outside.
use go_mihome.Common.{
  ℕ, ◌≡◌, ◌⊎◌, refl, List, [], ◌∷◌, ◌++◌, Option, none, some, Bool, true, false, not, ◌==◌, arith,
  length, if◌then◌else◌,
}
use go_mihome.Common.Bytes.{Bytes}
use go_mihome.Common.Dict.{Dict}
use go_mihome.Mqtt.Conn.{
  PahoMqttConn, Request, broker_subscribe, broker_unsubscribe, drop_topic, has_handlers,
  handlers_of, close, subscribe, remove_subscription, set_connection_state,
  set_last_connection_error, subscription_topics,
}
use go_mihome.Mqtt.Conn.Covered.{handled, member}

-- The connection with what the broker has for it, if there is a session.
pub record Net : Type 0 where
  pub conn : PahoMqttConn
  pub session : Option (List Bytes)

-- How a request ends: it is accepted, it is refused, or it is carried out and its answer is lost, which is an
-- error too.
pub data Answer : Type 0 where
  accepted refused lost : Answer

abbrev pub carried_out : Answer → (List Bytes → List Bytes) → List Bytes → List Bytes
carried_out accepted f ts = f ts
carried_out refused f ts = ts
carried_out lost f ts = f ts

abbrev pub is_error : Answer → Bool
is_error accepted = false
is_error refused = true
is_error lost = true

-- The requests of a removal, whose answer changes nothing in the connection.
unfoldable pub serve_removal : Answer → List Request → Net → Net
serve_removal b [] n = n
serve_removal b (broker_subscribe topic id ∷ rs) n = serve_removal b rs n
serve_removal b (broker_unsubscribe topic ∷ rs) n = serve_removal b rs (elim n.session [
  | none ↦ n
  | some ts ↦ record n { session = some (carried_out b (drop_topic topic) ts) }
])

-- Subscribe after an error: the subscription is removed, which may send a request of its own.
unfoldable pub give_up : Answer → Bytes → ℕ → Net → Net
unfolding serve_removal
give_up b topic id n =
    let (c, requests) = remove_subscription topic id n.conn in
    serve_removal b requests (record n { conn = c })

-- What a request does, once it is answered by a; without a session it is an error. b answers the request that
-- Subscribe makes after an error.
unfoldable pub serve : Answer → Answer → Request → Net → Net
unfolding give_up serve_removal
serve a b (broker_subscribe topic id) n = elim n.session [
  | none ↦ give_up b topic id n
  | some ts ↦
      let m = record n { session = some (carried_out a (λ us. topic ∷ us) ts) } in
      if is_error a then give_up b topic id m else m
]
serve a b (broker_unsubscribe topic) n = serve_removal a (broker_unsubscribe topic ∷ []) n

unfoldable pub serve_each : Answer → Answer → List Request → Net → Net
unfolding serve
serve_each a b [] n = n
serve_each a b (r ∷ rs) n = serve_each a b rs (serve a b r n)

-- Every request is accepted, if there is a session.
abbrev pub serve_all : List Request → Net → Net
serve_all = serve_each accepted accepted

unfoldable pub kept_if : (Bytes → Bool) → List Bytes → List Bytes
kept_if test [] = []
kept_if test (t ∷ ts) = let rest = kept_if test ts in if test t then t ∷ rest else rest

-- Where the broker and the handlers may differ: topics that resubscribeAll asked for and that were refused, and
-- topics that may be left at the broker.
pub record Gaps : Type 0 where
  pub missed : List Bytes
  pub stale : List Bytes

abbrev pub no_gaps : Gaps
no_gaps = record { missed = []; stale = [] }

-- A topic whose request ended with an error may be left.
abbrev pub note : Answer → Bytes → Gaps → Gaps
note a topic g = if is_error a then record g { stale = topic ∷ g.stale } else g

-- A method that is served before the next one starts. OnConnectionUp calls resubscribeAll, whose error is
-- dropped: `refuses` says which topics are refused, `old` are the topics that the session has from before.
pub data Quiet (n : Net) (g : Gaps) : Net → Gaps → Type 0 where
  subscribed :
      (a b : Answer) (topic : Bytes)
      → Quiet n g
          (serve_each a b
            (subscribe topic n.conn).1
            (record n { conn = (subscribe topic n.conn).0 }))
          (note a topic g)
  removed :
      (a : Answer) (topic : Bytes) (id : ℕ)
      → Quiet n g
          (serve_removal a
            (remove_subscription topic id n.conn).1
            (record n { conn = (remove_subscription topic id n.conn).0 }))
          (note a topic g)
  went_up :
      (refuses : Bytes → Bool) (old : List Bytes)
      → n.conn.manager ≡ true
      → Quiet n g
          (record {
            conn = (set_connection_state true (set_last_connection_error none n.conn)).0;
            session = some (kept_if (λ t. not (refuses t)) (subscription_topics n.conn) ++ old);
          })
          (record { missed = kept_if refuses (subscription_topics n.conn); stale = old })
  went_down :
      Quiet n g (record { conn = (set_connection_state false n.conn).0; session = none }) no_gaps
  closed : Quiet n g (record { conn = (close n.conn).0; session = none }) no_gaps

pub data Quietly (s : Net) : Net → Gaps → Type 0 where
  here : Quietly s s no_gaps
  next : {m n : Net} {g h : Gaps} → Quietly s m g → Quiet m g n h → Quietly s n h

-- A topic that has handlers is at the broker, or it was missed; one that is at the broker has handlers, or it
-- was left there.
pub record IsNear (ts : List Bytes) (subs : Dict (List ℕ)) (g : Gaps) : Type 0 where
  pub served :
      (k : Bytes) → handled k subs ≡ true → (member k ts ≡ true) ⊎ (member k g.missed ≡ true)
  pub wanted :
      (k : Bytes) → member k ts ≡ true → (handled k subs ≡ true) ⊎ (member k g.stale ≡ true)

-- While there is a session there is a manager, and the broker has the topics with handlers but for the gaps.
abbrev pub Synced : Bool → Option (List Bytes) → Dict (List ℕ) → Gaps → Type 0
Synced manager none subs g = Unit
Synced manager (some ts) subs g = (manager ≡ true) × IsNear ts subs g

abbrev pub IsSynced : Net → Gaps → Type 0
IsSynced n g = Synced n.conn.manager n.session n.conn.subs g

pub no_session :
    (manager : Bool) (o : Option (List Bytes)) (subs : Dict (List ℕ)) (g : Gaps)
    → o ≡ none
    → Synced manager o subs g
no_session manager none subs g e = tt
no_session manager (some ts) subs g e = absurd (ground arith)

serve_removal-none :
    (b : Answer) (rs : List Request) (n : Net)
    → n.session ≡ none
    → (serve_removal b rs n).session ≡ none
unfolding serve_removal
serve_removal-none b [] n e = e
serve_removal-none b (broker_subscribe topic id ∷ rs) n e = serve_removal-none b rs n e
serve_removal-none b (broker_unsubscribe topic ∷ rs) n e =
    rw (e, serve_removal) (serve_removal-none b rs n e)

serve_each-none :
    (a b : Answer) (rs : List Request) (n : Net)
    → n.session ≡ none
    → (serve_each a b rs n).session ≡ none
unfolding serve_each serve give_up
serve_each-none a b [] n e = e
serve_each-none a b (broker_subscribe topic id ∷ rs) n e =
    let (c, requests) = remove_subscription topic id n.conn in
    rw (e, serve_each, serve)
      (serve_each-none a b rs (serve_removal b requests (record n { conn = c }))
        (serve_removal-none b requests (record n { conn = c }) e))
serve_each-none a b (broker_unsubscribe topic ∷ rs) n e =
    serve_each-none a b rs (serve_removal a (broker_unsubscribe topic ∷ []) n)
      (serve_removal-none a (broker_unsubscribe topic ∷ []) n e)

pub served-none :
    (a b : Answer) (rs : List Request) (n : Net) (g : Gaps)
    → n.session ≡ none
    → IsSynced (serve_each a b rs n) g
served-none a b rs n g e =
    let m = serve_each a b rs n in
    no_session m.conn.manager m.session m.conn.subs g (serve_each-none a b rs n e)

pub removed-none :
    (b : Answer) (rs : List Request) (n : Net) (g : Gaps)
    → n.session ≡ none
    → IsSynced (serve_removal b rs n) g
removed-none b rs n g e =
    let m = serve_removal b rs n in
    no_session m.conn.manager m.session m.conn.subs g (serve_removal-none b rs n e)

-- A topic without handlers gets its first one.
pub first_handler :
    (id : ℕ) (o : Option (List ℕ))
    → (length (handlers_of o ++ id ∷ []) == 1) ≡ false
    → has_handlers o ≡ true
first_handler id none h = cc
first_handler id (some ids) h = refl
