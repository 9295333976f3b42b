-- ===== src/Mqtt/Conn/Routes.antt =====
-- mqtt.go: the routes of the router and the topics that have handlers.
use go_mihome.Common.{
  ℕ, ◌≡◌, refl, List, [], ◌∷◌, ◌++◌, Option, none, some, Bool, true, false, ◌||◌, ◌==◌, arith,
  Bool-cases, Option-cases, inl, inr, subst, length,
}
use go_mihome.Common.Result.{Fault, ok, err, Result-cases}
use go_mihome.Common.Bytes.{Bytes, bytes_eq}
use go_mihome.Common.Dict.{Dict, lookup, insert, delete}
use go_mihome.Mqtt.Config.{PahoMqttConfig, complete_config}
use go_mihome.Mqtt.Conn.{
  PahoMqttConn, drop_id, register, unregister, connect_begin, connect_unparsed, connect_end, close,
  subscribe, remove_subscription, set_connection_state, set_last_connection_error,
  update_credentials, subscribe_connection_state, close_connection_state, new_paho_mqtt_conn, same,
  fresh_conn,
}
use go_mihome.Mqtt.Conn.Covered.{
  handled, member-topics, Covers, Covers-add, Covers-set, Covers-drop,
}

abbrev Routed : Bool → Option (List Bytes) → Dict (List ℕ) → Type 0
Routed manager none subs = manager ≡ false
Routed manager (some ts) subs = (manager ≡ true) × Covers ts subs

-- There is a router if and only if there is a manager, and the router has a route for exactly the topics
-- with handlers.
abbrev pub IsRouted : PahoMqttConn → Type 0
IsRouted c = Routed c.manager c.router c.subs

-- A method of the connection, or a call of the paho library.
pub data Step (c : PahoMqttConn) : PahoMqttConn → Type 0 where
  begun : (ctx : Option Fault) → Step c (connect_begin ctx c).0
  unparsed : (e : Fault) → Step c (connect_unparsed e c).0
  ended : (answer : Option Fault) → Step c (connect_end answer c).0
  closed : Step c (close c).0
  subscribed : (topic : Bytes) → Step c (subscribe topic c).0
  removed : (topic : Bytes) (id : ℕ) → Step c (remove_subscription topic id c).0
  state_set : (up : Bool) → Step c (set_connection_state up c).0
  error_set : (e : Option Fault) → Step c (set_last_connection_error e c)
  credentials : (username password : Bytes) → Step c (update_credentials username password c).0
  state_subscribed : Step c (subscribe_connection_state c).0
  state_closed : (id : ℕ) → Step c (close_connection_state id c)

pub data Reach (s : PahoMqttConn) : PahoMqttConn → Type 0 where
  here : Reach s s
  next : {c d : PahoMqttConn} → Reach s c → Step c d → Reach s d

Routed-add :
    (manager : Bool) (topic : Bytes) (ids : List ℕ) (router : Option (List Bytes))
    (subs : Dict (List ℕ))
    → Routed manager router subs
    → Routed manager (register topic router) (insert topic ids subs)
Routed-add manager topic ids none subs h = h
Routed-add manager topic ids (some ts) subs (m, h) = (m, Covers-add topic ids ts subs h)

Routed-set :
    (manager : Bool) (topic : Bytes) (ids : List ℕ) (router : Option (List Bytes))
    (subs : Dict (List ℕ))
    → handled topic subs ≡ true
    → Routed manager router subs
    → Routed manager router (insert topic ids subs)
Routed-set manager topic ids none subs old h = h
Routed-set manager topic ids (some ts) subs old (m, h) = (m, Covers-set topic ids ts subs old h)

Routed-drop :
    (manager : Bool) (topic : Bytes) (router : Option (List Bytes)) (subs : Dict (List ℕ))
    → Routed manager router subs
    → Routed manager (unregister topic router) (delete topic subs)
Routed-drop manager topic none subs h = h
Routed-drop manager topic (some ts) subs (m, h) = (m, Covers-drop topic ts subs h)

subscribe-IsRouted :
    (topic : Bytes) (c : PahoMqttConn) → IsRouted c → IsRouted (subscribe topic c).0
unfolding subscribe
subscribe-IsRouted topic c h = elim (Bool-cases (bytes_eq topic [])) [
  | inl e ↦ rw e h
  | inr e ↦ elim (Option-cases (lookup topic c.subs)) [
    | inl f ↦ rw (e, f) (Routed-add c.manager topic (c.next_id ∷ []) c.router c.subs h)
    | inr (ids, f) ↦
        let old : handled topic c.subs ≡ true = rw f in
        rw (e, f) (Routed-set c.manager topic (ids ++ c.next_id ∷ []) c.router c.subs old h)
  ]
]

remove-IsRouted :
    (topic : Bytes) (id : ℕ) (c : PahoMqttConn)
    → IsRouted c
    → IsRouted (remove_subscription topic id c).0
unfolding remove_subscription
remove-IsRouted topic id c h = elim (Option-cases (lookup topic c.subs)) [
  | inl f ↦ rw (f, remove_subscription) h
  | inr (ids, f) ↦ elim (Bool-cases (length (drop_id id ids) == 0)) [
    | inl z ↦ rw (f, remove_subscription) (rw z (Routed-drop c.manager topic c.router c.subs h))
    | inr z ↦
        let old : handled topic c.subs ≡ true = rw f in
        rw (f, remove_subscription)
          (rw z (Routed-set c.manager topic (drop_id id ids) c.router c.subs old h))
  ]
]

connect-IsRouted :
    (answer : Option Fault) (c : PahoMqttConn) → IsRouted c → IsRouted (connect_end answer c).0
unfolding connect_end
connect-IsRouted (some e) c h = h
connect-IsRouted none c h = elim (Bool-cases c.connecting) [
  | inl k ↦ rw k (refl, λ t. member-topics t c.subs)
  | inr k ↦ rw k h
]

begin-IsRouted :
    (ctx : Option Fault) (c : PahoMqttConn) → IsRouted c → IsRouted (connect_begin ctx c).0
unfolding connect_begin
begin-IsRouted none c h = elim (Bool-cases (c.manager || c.connecting)) [
  | inl k ↦ rw k h
  | inr k ↦ rw k h
]
begin-IsRouted (some e) c h = elim (Bool-cases (c.manager || c.connecting)) [
  | inl k ↦ rw k h
  | inr k ↦ rw k h
]

set_state-IsRouted :
    (up : Bool) (c : PahoMqttConn) → IsRouted c → IsRouted (set_connection_state up c).0
unfolding set_connection_state
set_state-IsRouted up c h = elim (Bool-cases (same c.connected up)) [
  | inl k ↦ rw k h
  | inr k ↦ rw k h
]

Step-IsRouted : {c d : PahoMqttConn} → Step c d → IsRouted c → IsRouted d
unfolding close connect_unparsed set_last_connection_error update_credentials
    subscribe_connection_state close_connection_state
Step-IsRouted {c} (begun ctx) h = begin-IsRouted ctx c h
Step-IsRouted (unparsed e) h = h
Step-IsRouted {c} (ended answer) h = connect-IsRouted answer c h
Step-IsRouted closed h = refl
Step-IsRouted {c} (subscribed topic) h = subscribe-IsRouted topic c h
Step-IsRouted {c} (removed topic id) h = remove-IsRouted topic id c h
Step-IsRouted {c} (state_set up) h = set_state-IsRouted up c h
Step-IsRouted (error_set e) h = h
Step-IsRouted (credentials username password) h = h
Step-IsRouted state_subscribed h = h
Step-IsRouted (state_closed id) h = h

new-IsRouted :
    (cfg : PahoMqttConfig) (c : PahoMqttConn) → new_paho_mqtt_conn cfg ≡ ok c → IsRouted c
unfolding new_paho_mqtt_conn
new-IsRouted cfg c made = elim (Result-cases (complete_config cfg)) [
  | inr (f, e) ↦ let no : err f ≡ ok c = rw (e, new_paho_mqtt_conn) at made in absurd (ground arith)
  | inl (full, e) ↦
      let is : ok (fresh_conn full) ≡ ok c = rw (e, new_paho_mqtt_conn) at made in
      let same_conn : fresh_conn full ≡ c = cc in subst (λ x. IsRouted x) same_conn refl
]

-- After any sequence of methods and calls of the paho library, in any order and cut at every release of the
-- lock, the connection has a router exactly if it has a manager, and the router has a route for exactly the
-- topics that have handlers.
pub Reach-IsRouted :
    {start c : PahoMqttConn} (cfg : PahoMqttConfig)
    → new_paho_mqtt_conn cfg ≡ ok start
    → Reach start c
    → IsRouted c
Reach-IsRouted {start} cfg made here = new-IsRouted cfg start made
Reach-IsRouted cfg made (next r st) = Step-IsRouted st (Reach-IsRouted cfg made r)
