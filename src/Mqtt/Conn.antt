-- ===== src/Mqtt/Conn.antt =====
-- mqtt.go: the connection. A method that holds the lock is one step, and so is what the broker does with a
-- request; between the two anything may happen. A handler is known by the number of its subscription. The
-- router and the connection manager are those of the paho library: a router has a list of topics, to which
-- RegisterHandler adds one and from which UnregisterHandler deletes one.
pub mod Covered
pub mod Routes
pub mod Session
pub mod Near
pub mod Synced
pub mod Broker
pub mod State
use go_mihome.Common.{
  ℕ, ◌+◌, List, [], ◌∷◌, ◌++◌, Option, none, some, Bool, true, false, ◌&&◌, ◌||◌, not,
  if◌then◌else◌, ◌==◌, length,
}
use Prim.Native.String.{String}
use go_mihome.Common.Result.{
  Result, ok, err, Fault, fault, wrapped, invalid_argument, protocol_failure, transport_failure,
}
use go_mihome.Common.Bytes.{Bytes, bytes_eq}
use go_mihome.Common.Dict.{Dict, lookup, insert, delete}
use go_mihome.Mqtt.Config.{PahoMqttConfig, complete_config}

-- `manager` says that there is a connection manager, `router` has the topics of its router.
pub record PahoMqttConn : Type 0 where
  pub cfg : PahoMqttConfig
  pub router : Option (List Bytes)
  pub manager : Bool
  pub connecting : Bool
  pub subs : Dict (List ℕ)
  pub next_id : ℕ
  pub connected : Bool
  pub state_subs : List ℕ
  pub next_state_sub_id : ℕ
  pub last_connect_err : Option Fault

-- A request to the broker that a method makes once it has released the lock.
pub data Request : Type 0 where
  broker_subscribe : Bytes → ℕ → Request
  broker_unsubscribe : Bytes → Request

-- The call of a subscriber of the connection's state.
pub record StateCall : Type 0 where
  pub id : ℕ
  pub up : Bool

abbrev pub fresh_conn : PahoMqttConfig → PahoMqttConn
fresh_conn cfg = record {
  cfg = cfg;
  router = none;
  manager = false;
  connecting = false;
  subs = [];
  next_id = 0;
  connected = false;
  state_subs = [];
  next_state_sub_id = 0;
  last_connect_err = none;
}

unfoldable pub new_paho_mqtt_conn : PahoMqttConfig → Result PahoMqttConn
unfolding complete_config
new_paho_mqtt_conn cfg = elim (complete_config cfg) [
  | err e ↦ err e
  | ok full ↦ ok (fresh_conn full)
]

abbrev pub topics : Dict (List ℕ) → List Bytes
topics [] = []
topics ((topic, ids) ∷ m) = topic ∷ topics m

unfoldable pub drop_topic : Bytes → List Bytes → List Bytes
drop_topic topic [] = []
drop_topic topic (t ∷ ts) =
    let rest = drop_topic topic ts in if bytes_eq t topic then rest else t ∷ rest

unfoldable pub drop_id : ℕ → List ℕ → List ℕ
drop_id id [] = []
drop_id id (i ∷ is) = let rest = drop_id id is in if i == id then rest else i ∷ rest

abbrev pub register : Bytes → Option (List Bytes) → Option (List Bytes)
register topic none = none
register topic (some ts) = some (topic ∷ ts)

abbrev pub unregister : Bytes → Option (List Bytes) → Option (List Bytes)
unregister topic none = none
unregister topic (some ts) = some (drop_topic topic ts)

abbrev pub request_if : Bool → Request → List Request
request_if true r = r ∷ []
request_if false r = []

-- Connect up to the release of the lock: whether the call goes on. `ctx` is the context's error.
unfoldable pub connect_begin : Option Fault → PahoMqttConn → PahoMqttConn × Bool × Option Fault
connect_begin ctx c = if c.manager || c.connecting then (c, false, none) else begin ctx
  where
    begin : Option Fault → PahoMqttConn × Bool × Option Fault
    begin (some e) = (c, false, some e)
    begin none = (record c { connecting = true }, true, none)

-- Connect when the broker's URL is not parsed: e is the error of net/url.
unfoldable pub connect_unparsed : Fault → PahoMqttConn → PahoMqttConn × Option Fault
connect_unparsed e c =
    (record c { connecting = false }, some (wrapped invalid_argument "parse mqtt broker url" e))

-- Connect once the paho library has answered: with an error, or with a manager. If the connection has been
-- closed meanwhile, the manager is given up.
unfoldable pub connect_end : Option Fault → PahoMqttConn → PahoMqttConn × Option Fault
connect_end (some e) c = (
  record c { connecting = false; last_connect_err = some e },
  some (wrapped transport_failure "new mqtt connection" e),
)
connect_end none c =
    if not c.connecting
    then (c, some (fault protocol_failure "mqtt connect" "connection closed while starting"))
    else (record c { router = some (topics c.subs); manager = true; connecting = false }, none)

abbrev pub call_all : List ℕ → Bool → List StateCall
call_all [] up = []
call_all (id ∷ ids) up = record { id = id; up = up } ∷ call_all ids up

-- Close: the state after it, and the calls that it makes.
unfoldable pub close : PahoMqttConn → PahoMqttConn × List StateCall
close c = (
  record c { manager = false; router = none; connected = false; connecting = false },
  if c.connected then call_all c.state_subs false else [],
)

abbrev pub has_handlers : Option (List ℕ) → Bool
has_handlers none = false
has_handlers (some ids) = true

abbrev pub handlers_of : Option (List ℕ) → List ℕ
handlers_of none = []
handlers_of (some ids) = ids

-- Subscribe with a handler, up to the release of the lock.
unfoldable pub subscribe : Bytes → PahoMqttConn → PahoMqttConn × List Request × Result ℕ
subscribe topic c =
    if bytes_eq topic []
    then (c, [], err (fault invalid_argument "mqtt subscribe" "topic is empty"))
    else (let old = lookup topic c.subs in
        let ids = handlers_of old ++ c.next_id ∷ [] in
        (
          record c {
            router = if has_handlers old then c.router else register topic c.router;
            subs = insert topic ids c.subs;
            next_id = c.next_id + 1;
          },
          request_if ((length ids == 1) && c.manager) (broker_subscribe topic c.next_id),
          ok c.next_id,
        ))

-- removeSubscription up to the release of the lock: on closing a subscription, and after the broker has
-- refused one.
unfoldable pub remove_subscription : Bytes → ℕ → PahoMqttConn → PahoMqttConn × List Request
unfolding drop_id drop_topic
remove_subscription topic id c = elim (lookup topic c.subs) [
  | none ↦ (c, [])
  | some ids ↦
      let left = drop_id id ids in
      if length left == 0
      then (
        record c { subs = delete topic c.subs; router = unregister topic c.router },
        request_if c.manager (broker_unsubscribe topic),
      )
      else (record c { subs = insert topic left c.subs }, [])
]

-- dispatch: the handlers that a message on a subscription's topic reaches.
unfoldable pub dispatch : Bytes → PahoMqttConn → List ℕ
dispatch topic c = handlers_of (lookup topic c.subs)

-- subscriptionTopics, which resubscribeAll sends to the broker.
unfoldable pub subscription_topics : PahoMqttConn → List Bytes
subscription_topics c = topics c.subs

unfoldable pub subscribe_connection_state : PahoMqttConn → PahoMqttConn × ℕ
subscribe_connection_state c = (
  record c {
    state_subs = c.state_subs ++ c.next_state_sub_id ∷ [];
    next_state_sub_id = c.next_state_sub_id + 1;
  },
  c.next_state_sub_id,
)

unfoldable pub close_connection_state : ℕ → PahoMqttConn → PahoMqttConn
unfolding drop_id
close_connection_state id c = record c { state_subs = drop_id id c.state_subs }

abbrev pub same : Bool → Bool → Bool
same true b = b
same false b = not b

unfoldable pub set_connection_state : Bool → PahoMqttConn → PahoMqttConn × List StateCall
set_connection_state up c =
    if same c.connected up then (c, []) else (record c { connected = up }, call_all c.state_subs up)

unfoldable pub set_last_connection_error : Option Fault → PahoMqttConn → PahoMqttConn
set_last_connection_error e c = record c { last_connect_err = e }

-- UpdateCredentials up to the release of the lock; if there is a manager, Close and Connect follow.
unfoldable pub update_credentials : Bytes → Bytes → PahoMqttConn → PahoMqttConn × Bool
update_credentials username password c =
    (record c { cfg = record c.cfg { username = username; password = password } }, c.manager)
