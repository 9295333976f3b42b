-- ===== src/Tests/Mqtt.antt =====
-- The connection to a broker with one topic.
use go_mihome.Common.{◌≡◌, refl, List, [], ◌∷◌, ◌++◌, not, none, some, true, false}
use go_mihome.Common.Result.{ok}
use go_mihome.Common.Bytes.{Bytes, codes, bytes_eq}
use go_mihome.Common.Dict.{lookup}
use go_mihome.Mqtt.Config.{
  PahoMqttConfig, complete_config, normalize_broker_url, has_prefix, contains_text,
}
use go_mihome.Mqtt.Conn.{
  PahoMqttConn, fresh_conn, new_paho_mqtt_conn, connect_begin, connect_end, subscribe,
  remove_subscription, dispatch, set_connection_state, set_last_connection_error,
  subscription_topics,
}
use go_mihome.Mqtt.Conn.Routes.{
  IsRouted, Reach, here, next, begun, ended, subscribed, removed, Reach-IsRouted,
}
use go_mihome.Mqtt.Conn.Covered.{member}
use go_mihome.Mqtt.Conn.Session.{
  Net, Quiet, Quietly, IsSynced, Gaps, note, kept_if, refused, accepted, serve_each,
}
use go_mihome.Mqtt.Conn.Synced.{Quietly-IsSynced}
use go_mihome.Mqtt.Conn.Broker.{overlapped, late_unsubscribe}

abbrev config : PahoMqttConfig
config = record {
  broker_url = codes "ssl://broker:8883";
  client_id = codes "ha.1";
  username = [];
  password = [];
  keep_alive = 0;
  connect_timeout = 0;
  clean_start = true;
  session_expiry_interval = 0;
  publish_qos = 0;
  subscribe_qos = 1;
}

abbrev full : PahoMqttConfig
full = record config {
  broker_url = codes "tls://broker:8883";
  keep_alive = 60;
  connect_timeout = 10000000000;
  publish_qos = 2;
}

made : new_paho_mqtt_conn config ≡ ok (fresh_conn full)
unfolding new_paho_mqtt_conn complete_config normalize_broker_url has_prefix contains_text bytes_eq
made = refl

abbrev topic : Bytes
topic = codes "device/42/up"

abbrev connected_run :
    Reach
      (fresh_conn full)
      (remove_subscription topic 0
        (connect_end none (subscribe topic (connect_begin none (fresh_conn full)).0).0).0).0
connected_run =
    next (next (next (next here (begun none)) (subscribed topic)) (ended none)) (removed topic 0)

Reach-IsRouted_example :
    IsRouted
      (remove_subscription topic 0
        (connect_end none (subscribe topic (connect_begin none (fresh_conn full)).0).0).0).0
Reach-IsRouted_example = Reach-IsRouted config made connected_run

-- A connection with a manager and one handler.
abbrev busy : PahoMqttConn
busy = record (fresh_conn full) {
  manager = true;
  router = some (topic ∷ []);
  subs = (topic, 0 ∷ []) ∷ [];
  next_id = 1;
}

busy_handler : lookup topic busy.subs ≡ some (0 ∷ [])
unfolding lookup bytes_eq
busy_handler = refl

topic_named : bytes_eq topic [] ≡ false
unfolding bytes_eq
topic_named = refl

late_unsubscribe_example :
    let n = overlapped topic 0 (record { conn = busy; session = some (topic ∷ []) }) in
    (dispatch topic n.conn ≡ 1 ∷ [])
    × ((us : List Bytes) × (n.session ≡ some us) × (member topic us ≡ false))
late_unsubscribe_example = late_unsubscribe topic 0 (topic ∷ []) busy topic_named refl busy_handler

abbrev idle : Net
idle = record { conn = busy; session = none }

-- A session comes up with an old topic, and a new handler is subscribed, which the broker refuses.
abbrev up_net : Net
up_net = record {
  conn = (set_connection_state true (set_last_connection_error none busy)).0;
  session = some (kept_if (λ t. not false) (subscription_topics busy) ++ codes "old" ∷ []);
}

abbrev up_gaps : Gaps
up_gaps = record {
  missed = kept_if (λ t. false) (subscription_topics busy);
  stale = codes "old" ∷ [];
}

abbrev refused_net : Net
refused_net =
    serve_each refused accepted (subscribe (codes "news") up_net.conn).1
      (record up_net { conn = (subscribe (codes "news") up_net.conn).0 })

abbrev refused_run : Quietly idle refused_net (note refused (codes "news") up_gaps)
refused_run =
    Quietly.next (Quietly.next Quietly.here (Quiet.went_up (λ t. false) (codes "old" ∷ []) refl))
      (Quiet.subscribed refused accepted (codes "news"))

Quietly-IsSynced_example : IsSynced refused_net (note refused (codes "news") up_gaps)
Quietly-IsSynced_example =
    Quietly-IsSynced idle refused_net (note refused (codes "news") up_gaps) refl refused_run
