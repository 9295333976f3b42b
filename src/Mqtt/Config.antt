-- ===== src/Mqtt/Config.antt =====
-- mqtt.go: the configuration of a connection and its defaults.
use go_mihome.Common.{
  ℕ, ◌*◌, ◌≡◌, refl, [], ◌∷◌, ◌++◌, Bool, true, false, ◌&&◌, if◌then◌else◌, ◌==◌, drop, Bool-cases,
  inl, inr,
}
use go_mihome.Common.Result.{Result, ok, fault, invalid_argument, fail_if, ◌>>◌}
use go_mihome.Common.Bytes.{Bytes, bytes_eq, codes}
use go_mihome.Lan.Runtime.Config.{second}

-- PahoMQTTConfig; the TLS configuration is only passed on.
pub record PahoMqttConfig : Type 0 where
  pub broker_url : Bytes
  pub client_id : Bytes
  pub username : Bytes
  pub password : Bytes
  pub keep_alive : ℕ
  pub connect_timeout : ℕ
  pub clean_start : Bool
  pub session_expiry_interval : ℕ
  pub publish_qos : ℕ
  pub subscribe_qos : ℕ

-- strings.HasPrefix.
unfoldable pub has_prefix : Bytes → Bytes → Bool
has_prefix text [] = true
has_prefix [] (p ∷ ps) = false
has_prefix (c ∷ cs) (p ∷ ps) = c == p && has_prefix cs ps

-- strings.Contains.
unfoldable pub contains_text : Bytes → Bytes → Bool
unfolding has_prefix
contains_text [] part = has_prefix [] part
contains_text (c ∷ cs) part =
    let rest = contains_text cs part in if has_prefix (c ∷ cs) part then true else rest

unfoldable pub normalize_broker_url : Bytes → Bytes
unfolding contains_text has_prefix
normalize_broker_url raw =
    if has_prefix raw (codes "ssl://")
    then codes "tls://" ++ drop 6 raw
    else if contains_text raw (codes "://")
    then raw
    else codes "tls://" ++ raw

abbrev default_of : ℕ → ℕ → ℕ
default_of value default = if value == 0 then default else value

-- The configuration that NewPahoMQTTConn keeps.
unfoldable pub complete_config : PahoMqttConfig → Result PahoMqttConfig
unfolding normalize_broker_url
complete_config cfg = do
  fail_if (bytes_eq cfg.broker_url [])
      (fault invalid_argument "new paho mqtt conn" "broker url is empty")
  fail_if (bytes_eq cfg.client_id [])
      (fault invalid_argument "new paho mqtt conn" "client id is empty")
  ok (record cfg {
    keep_alive = default_of cfg.keep_alive 60;
    connect_timeout = default_of cfg.connect_timeout (10 * second);
    publish_qos = default_of cfg.publish_qos 2;
    subscribe_qos = default_of cfg.subscribe_qos 2;
    broker_url = normalize_broker_url cfg.broker_url;
  })

tls_kept : (rest : Bytes) → normalize_broker_url (codes "tls://" ++ rest) ≡ codes "tls://" ++ rest
unfolding normalize_broker_url
tls_kept rest = refl

-- An address that has been normalized is not changed by normalizing it again.
pub normalize-normalize :
    (raw : Bytes) → normalize_broker_url (normalize_broker_url raw) ≡ normalize_broker_url raw
unfolding normalize_broker_url
normalize-normalize raw = elim (Bool-cases (has_prefix raw (codes "ssl://"))) [
  | inl s ↦ rw s (tls_kept (drop 6 raw))
  | inr s ↦ elim (Bool-cases (contains_text raw (codes "://"))) [
    | inl c ↦ rw (s, c) (rw (s, c))
    | inr c ↦ rw (s, c) (tls_kept raw)
  ]
]
