-- ===== src/Lan/Session.antt =====
-- lan.go: the packets that a device sends by itself, the calls that are made to it, and its push
-- subscription. The JSON texts of requests and results are a parameter, and so is what the transport
-- answers; a method that waits for a device runs to its end before the next one starts.
pub mod Uplinks
pub mod Calls
pub mod Push
pub mod Recorded
use Prim.Native.String.{String}
use go_mihome.Common.{
  ℕ, ◌+◌, ◌*◌, ◌/◌, ◌%◌, List, [], ◌∷◌, ◌++◌, Option, none, some, Bool, true, false, ◌&&◌, ◌||◌,
  not, ◌==◌, if◌then◌else◌, map, length,
}
use go_mihome.Common.Result.{
  Result, ok, err, Fault, fault, opaque, invalid_response, ◌>>=◌, ◌>>◌, fail_if, or_fail,
}
use go_mihome.Common.Bytes.{Bytes, bytes_eq, codes}
use go_mihome.Common.Dict.{Dict, lookup, insert}
use go_mihome.Lan.Packet.{
  LanMessage, LanRequest, LanDevice, Primitives, build_packet, build_response_packet, parse_packet,
}
use go_mihome.Lan.Probe.{LanProbeInfo}
use go_mihome.Lan.Runtime.Device.{LanDeviceState, new_device_state, success, update_probe_state}
use go_mihome.Lan.Runtime.Uplink.{record_recent_uplink}
use go_mihome.Lan.Client.{LanClient, Notice, ensure_enabled, device, record_signal}
use go_mihome.Lan.Dispatch.{
  Occurrence, Subscribers, dispatch_property, dispatch_event, has_push_subscriber,
}

-- The fields of LANClient that these methods use besides the registry.
pub record LanSession : Type 0 where
  pub client : LanClient
  pub subscribers : Subscribers
  pub subscribe_enabled : Bool
  pub recent_uplink : Dict ℕ
  pub next_id : ℕ
  pub virtual_did : Bytes

-- encoding/json on the texts of the messages: the parameters of requests, and what is read of results.
pub record Json : Type 0 where
  pub results : Bytes → Option (List Occurrence)
  pub event : Bytes → Option Occurrence
  pub subscribe_params : Bytes → ℕ → Option Bytes
  pub code : Bytes → Option ℕ

-- A handler that is called, a packet that is sent by LANPacketResponder, and a state subscriber.
pub data Effect : Type 0 where
  called : ℕ → Effect
  replied : Bytes → Bytes → Bytes → Effect
  noticed : Notice → Effect

-- What a method leaves, does and returns.
abbrev pub Handled : Type 0
Handled = LanSession × List Effect × Option Fault

pub data Method : Type 0 where
  properties_changed event_occured other_method : Method

unfoldable pub method_of : Bytes → Method
method_of m =
    if bytes_eq m (codes "properties_changed")
    then properties_changed
    else if bytes_eq m (codes "event_occured")
    then event_occured
    else other_method

abbrev pub needs_ack : Method → Bool
needs_ack properties_changed = true
needs_ack event_occured = true
needs_ack other_method = false

-- `{"code":0}`, which json.Marshal makes of the result.
abbrev pub code_zero : Bytes
code_zero = 123 ∷ 34 ∷ (codes "code" ++ (34 ∷ 58 ∷ 48 ∷ 125 ∷ []))

abbrev sent : Bytes → Bytes → Result Bytes → List Effect
sent if_name ip (err e) = []
sent if_name ip (ok packet) = replied if_name ip packet ∷ []

module _ (prim : Primitives) (json : Json) (responds : Bool) where
  -- replyToUplink; `responds` says that the transport is a LANPacketResponder.
  unfoldable pub reply_to_uplink : LanDevice → Bytes → Bytes → ℕ → List Effect
  reply_to_uplink d if_name ip msg_id =
      if bytes_eq if_name [] || (bytes_eq ip [] || (msg_id == 0 || not responds))
      then []
      else sent if_name ip (
          build_response_packet prim d
            (record { id = msg_id; result = code_zero; code = 0; error = [] }))

  -- The switch on the method: the handlers called.
  unfoldable pub deliver : Method → LanMessage → Subscribers → Result (List ℕ)
  deliver properties_changed msg subs = do
    results ← or_fail (json.results msg.params) (opaque "encoding/json")
    ok (dispatch_property results subs)
  deliver event_occured msg subs = do
    event ← or_fail (json.event msg.params) (opaque "encoding/json")
    ok (dispatch_event event subs)
  deliver other_method msg subs = ok []

  abbrev pub delivered : LanSession → List Effect → Result (List ℕ) → Handled
  delivered s reply (err e) = (s, [], some e)
  delivered s reply (ok ids) = (s, map called ids ++ reply, none)

  -- After the repetition has been tested: `reply` is the reply of a message that needs one.
  abbrev pub new_message : Method → LanMessage → List Effect → LanSession → Handled
  new_message method msg reply s =
      if not s.subscribe_enabled
      then (s, reply, none)
      else delivered s reply (deliver method msg s.subscribers)

  -- The message once it has been parsed.
  unfoldable pub accept :
      LanDevice → Bytes → Bytes → Bytes → ℕ → LanMessage → Method → LanSession → Handled
  unfolding reply_to_uplink deliver
  accept d did if_name ip now msg method s =
      let reply = reply_to_uplink d if_name ip msg.id in
      if needs_ack method
      then (let (seen, repeated) = record_recent_uplink did msg.id now s.recent_uplink in
          let t = record s { recent_uplink = seen } in
          if repeated then (t, reply, none) else new_message method msg reply t)
      else new_message method msg [] s

  abbrev pub first_effects : List Effect → Handled → Handled
  first_effects before (s, effects, e) = (s, before ++ effects, e)

  abbrev pub with_message :
      LanDevice → Bytes → Bytes → Bytes → ℕ → LanSession → Result LanMessage → Handled
  with_message d did if_name ip now s (err e) = (s, [], some e)
  with_message d did if_name ip now s (ok msg) =
      let (c, notices) = record_signal now success did s.client in
      first_effects (map noticed notices)
        (accept d did if_name ip now msg (method_of msg.method) (record s { client = c }))

  abbrev pub with_device :
      Bytes → Bytes → Bytes → ℕ → Bytes → LanSession → Result LanDevice → Handled
  with_device did if_name ip now packet s (err e) = (s, [], some e)
  with_device did if_name ip now packet s (ok d) =
      with_message d did if_name ip now s (parse_packet prim d packet)

  -- handlePacket.
  unfoldable pub handle_packet : Bytes → Bytes → Bytes → ℕ → Bytes → LanSession → Handled
  unfolding accept method_of
  handle_packet did if_name ip now packet s =
      with_device did if_name ip now packet s
        (ensure_enabled "lan handle packet" s.client >> device s.client did)
