-- ===== src/Tests/Session.antt =====
-- A lamp that sends its events and answers calls.
use go_mihome.Common.{◌≡◌, refl, [], ◌∷◌, ◌++◌, none, some, true, false, arith, replicate}
use go_mihome.Common.Result.{ok, err}
use go_mihome.Common.Bytes.{Bytes, codes, be16, be32, be64, read_be16, bytes_eq}
use go_mihome.Common.Cipher.{cbc_encrypt, cbc_decrypt}
use go_mihome.Common.Decimal.{parse_uint}
use go_mihome.Common.Dict.{lookup}
use go_mihome.Mips.Message.{trim}
use go_mihome.Lan.Padding.{pkcs7_pad, pkcs7_unpad}
use go_mihome.Lan.Packet.{
  LanMessage, LanRequest, Primitives, encrypt_payload, decrypt_payload, build_packet_message,
  build_response_packet, parse_packet,
}
use go_mihome.Lan.Runtime.Config.{default_lan_runtime_config}
use go_mihome.Lan.Runtime.Device.{new_device_state}
use go_mihome.Lan.Runtime.Uplink.{record_recent_uplink}
use go_mihome.Lan.Client.{LanClient, new_lan_client, device, ensure_enabled, record_signal}
use go_mihome.Lan.Session.{
  LanSession, Json, replied, method_of, needs_ack, reply_to_uplink, handle_packet, accept, deliver,
}
use go_mihome.Lan.Session.Uplinks.{calls_of, replies_of, Accepts, handled_once, handled-acked}
use go_mihome.Lan.Session.Calls.{Transport, call, Exchange, call_answered}
use go_mihome.Lan.Session.Push.{set_subscribe_option}
use go_mihome.Lan.Session.Push.Off.{expects_events, events_off}
use go_mihome.Tests.Data.{primitives, message_of, lamp}
use go_mihome.Tests.Lan.{lamp-IsKeyed}

-- A decoder that reads every text as one event of a lamp with the number 9.
abbrev numbered_message : Bytes → LanMessage
numbered_message p = record (message_of p) { id = 9 }

abbrev numbering : Primitives
numbering = record primitives { unmarshal = λ p. some (numbered_message p) }

abbrev json : Json
json = record {
  results = λ p. some (record { did = codes "42"; siid = 2; iid = 1 } ∷ []);
  event = λ p. none;
  subscribe_params = λ v t. some (codes "{}");
  code = λ p. some 0;
}

abbrev client : LanClient
client = record (new_lan_client default_lan_runtime_config) {
  devices = (codes "42", lamp) ∷ [];
  device_state = (codes "42", record new_device_state { push_available = true }) ∷ [];
}

abbrev session : LanSession
session = record {
  client = client;
  subscribers = record {
    prop_subs = record { id = 3; did = codes "42"; siid = 0; iid = 0 } ∷ [];
    event_subs = [];
    next_sub_id = 4;
  };
  subscribe_enabled = true;
  recent_uplink = [];
  next_id = 1;
  virtual_did = codes "7";
}

abbrev changed_packet : Bytes
changed_packet =
    be16 8497
    ++ (be16 64 ++ (be64 42 ++ be32 100))
    ++ replicate 16 64
    ++ encrypt_payload primitives lamp (pkcs7_pad (codes "properties_changed") 16)

changed_message :
    Accepts numbering
      (codes "42")
      changed_packet
      lamp
      (numbered_message (codes "properties_changed"))
      session
unfolding parse_packet encrypt_payload decrypt_payload pkcs7_pad pkcs7_unpad be16 be32 be64
    read_be16 bytes_eq cbc_encrypt cbc_decrypt trim ensure_enabled device lookup new_lan_client
changed_message = record { enabled = refl; known = refl; parsed = refl }

changed_kind : needs_ack (method_of (codes "properties_changed")) ≡ true
unfolding method_of bytes_eq
changed_kind = refl

abbrev changed : LanMessage
changed = numbered_message (codes "properties_changed")

first_copy : (record_recent_uplink (codes "42") 9 1000 []).1 ≡ false
unfolding record_recent_uplink lookup
first_copy = refl

handled_once_example :
    let t =
      (handle_packet numbering json true
        (codes "42")
        (codes "eth0")
        (codes "ip")
        1000
        changed_packet
        session).0 in
    let (u, effects, e) =
      handle_packet numbering json true
        (codes "42")
        (codes "eth0")
        (codes "ip")
        2000
        changed_packet
        t in
    (calls_of effects ≡ []) × (e ≡ none)
handled_once_example =
    handled_once numbering json true (codes "42") (codes "eth0") (codes "ip") changed_packet 1000
      2000 lamp changed session changed_message changed_kind (omega arith) first_copy (omega arith)

handled_fine :
    (handle_packet numbering json true
      (codes "42")
      (codes "eth0")
      (codes "ip")
      1000
      changed_packet
      session).2
    ≡ none
unfolding handle_packet parse_packet encrypt_payload decrypt_payload pkcs7_pad pkcs7_unpad be16 be32
    be64 read_be16 bytes_eq cbc_encrypt cbc_decrypt trim ensure_enabled device lookup new_lan_client
    method_of accept deliver record_recent_uplink record_signal reply_to_uplink
    build_response_packet
handled_fine = refl

-- The bytes of the reply are the token and the cipher of the lamp on the response with number 9.
abbrev ack : LanMessage
ack = record {
  id = 9;
  method = [];
  params = [];
  result = codes "{\"code\":0}";
  code = 0;
  error = [];
}

ack_packet : Bytes
ack_packet = elim (build_packet_message numbering lamp ack) [ ok p ↦ p | err e ↦ [] ]

ack_built :
    build_response_packet numbering lamp
      (record { id = 9; result = codes "{\"code\":0}"; code = 0; error = [] })
    ≡ ok ack_packet
unfolding build_response_packet encrypt_payload pkcs7_pad be16 be32 be64 cbc_encrypt ack_packet
    parse_uint trim
ack_built = refl

handled-acked_example :
    replies_of
      (handle_packet numbering json true
        (codes "42")
        (codes "eth0")
        (codes "ip")
        1000
        changed_packet
        session).1
    ≡ replied (codes "eth0") (codes "ip") ack_packet ∷ []
handled-acked_example =
    handled-acked numbering json true (codes "42") (codes "eth0") (codes "ip") changed_packet 1000
      lamp changed session ack_packet changed_message changed_kind
      (ground arith, ground arith, omega arith, refl) ack_built handled_fine

abbrev asked : LanRequest
asked = record { id = 1; method = codes "get_properties"; params = codes "[]" }

abbrev transport : Transport
transport i a p = build_packet_message primitives lamp (message_of (codes "ok"))

lamp-Exchange : Exchange primitives lamp asked (message_of (codes "ok")) (message_of (codes "ok"))
unfolding parse_uint trim
lamp-Exchange = record {
  number = 42;
  p = codes "get_properties";
  q = codes "ok";
  keyed = lamp-IsKeyed;
  numbered = refl;
  request_text = refl;
  request_fits = omega arith;
  answer_text = refl;
  answer_fits = omega arith;
  answer_read = refl;
}

lamp_known : device client (codes "42") ≡ ok lamp
unfolding device lookup bytes_eq
lamp_known = refl

call_answered_example :
    call primitives transport (codes "42") asked client ≡ ok (message_of (codes "ok"))
call_answered_example =
    call_answered primitives transport (codes "42") lamp asked (message_of (codes "ok"))
      (message_of (codes "ok")) client lamp_known lamp-Exchange (λ packet e. refl)

events_off_example :
    expects_events (
      lookup
        (codes "42")
        (set_subscribe_option primitives json transport false session).client.device_state)
    ≡ false
events_off_example = events_off primitives json transport (codes "42") session
