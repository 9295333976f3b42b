-- ===== src/Lan/Session/Push.antt =====
-- lan.go: the subscription of a device, by which it sends its events, and what is done with a packet of
-- the runtime.
pub mod Off
use Prim.Native.String.{String}
use go_mihome.Common.{
  ℕ, ◌+◌, ◌*◌, ◌/◌, ◌%◌, List, [], ◌∷◌, ◌++◌, Option, none, some, Bool, true, false, ◌&&◌, ◌||◌,
  not, ◌==◌, if◌then◌else◌, map, length,
}
use go_mihome.Common.Result.{
  Result, ok, err, Fault, fault, opaque, invalid_response, ◌>>=◌, ◌>>◌, fail_if, or_fail,
}
use go_mihome.Common.Bytes.{Bytes, bytes_eq, codes}
use go_mihome.Common.Dict.{Dict, lookup, insert}
use go_mihome.Lan.Packet.{
  LanMessage, LanRequest, LanDevice, Primitives, build_packet, build_response_packet, parse_packet,
  update_route, lan_header_length,
}
use go_mihome.Lan.Probe.{LanProbeInfo, did_from_lan_packet, parse_lan_probe_packet}
use go_mihome.Lan.Runtime.Device.{LanDeviceState, new_device_state, success, update_probe_state}
use go_mihome.Lan.Runtime.Uplink.{record_recent_uplink}
use go_mihome.Lan.Client.{LanClient, Notice, ensure_enabled, device, record_signal}
use go_mihome.Lan.Dispatch.{
  Occurrence, Subscribers, dispatch_property, dispatch_event, has_push_subscriber,
}
use go_mihome.Lan.Session.{LanSession, Json, Effect, called, noticed, Handled, handle_packet}
use go_mihome.Lan.Session.Calls.{next_message_id, Transport, call}

abbrev or_new : Option LanDeviceState → LanDeviceState
or_new none = new_device_state
or_new (some s) = s

abbrev pub set_state : Bytes → LanDeviceState → LanSession → LanSession
set_state did t s =
    let c = s.client in
    record s { client = record c { device_state = insert did t c.device_state } }

abbrev pub already : Option LanDeviceState → ℕ → Bool
already none update_ts = false
already (some s) update_ts = s.push_available && s.last_subscribe_ts == update_ts

-- The devices whose events are expected.
pub pushing : Dict LanDeviceState → List Bytes
pushing [] = []
pushing ((did, d) ∷ m) = let rest = pushing m in if d.push_available then did ∷ rest else rest

module _ (prim : Primitives) (json : Json) (transport : Transport) where
  abbrev pub send : Bytes → Bytes → ℕ → LanSession → LanSession × Result LanMessage
  send did method update_ts s = elim (json.subscribe_params s.virtual_did update_ts) [
    | none ↦ (s, err (opaque "encoding/json"))
    | some params ↦
        let (id, t) = next_message_id s in
        let req : LanRequest = record { id = id; method = method; params = params } in
        (t, call prim transport did req t.client)
  ]

  abbrev accepted : Result LanMessage → Bool
  accepted (err e) = false
  accepted (ok msg) = elim (json.code msg.result) [ none ↦ false | some code ↦ code == 0 ]

  -- subscribeDevice; `update_ts` is the time in seconds, as 32 bits.
  unfoldable pub subscribe_device : ℕ → Bytes → ℕ → LanSession → LanSession
  unfolding next_message_id call
  subscribe_device update_ts did probe_ts s =
      let (t, answer) = send did (codes "miIO.sub") update_ts s in
      let old = or_new (lookup did t.client.device_state) in
      if accepted answer
      then set_state did
          (record old {
            push_available = true;
            wildcard_supported = true;
            last_probe_sub_ts = if probe_ts == 0 then old.last_probe_sub_ts else probe_ts;
            last_subscribe_ts = update_ts;
          })
          t
      else t

  -- unsubscribeDevice: the device is asked, and whatever it answers its events are no longer expected.
  unfoldable pub unsubscribe_device : Bytes → LanSession → LanSession
  unfolding next_message_id call
  unsubscribe_device did s = elim (lookup did s.client.device_state) [
    | none ↦ s
    | some old ↦
        if not old.push_available
        then s
        else (let t = (send did (codes "miIO.unsub") old.last_subscribe_ts s).0 in
            set_state did (record old { push_available = false }) t)
  ]

  unfoldable pub sync_device_subscription : ℕ → Bytes → LanProbeInfo → LanSession → LanSession
  unfolding subscribe_device
  sync_device_subscription update_ts did probe s =
      if not probe.has_subscription || not probe.wildcard_supported
      then s
      else if not (probe.sub_type == 0) && (not (probe.sub_type == 1) && not (probe.sub_type == 4))
      then s
      else if not s.subscribe_enabled
          || (not (has_push_subscriber did s.subscribers)
              || already (lookup did s.client.device_state) probe.update_ts)
      then s
      else subscribe_device update_ts did probe.update_ts s

  pub unsubscribe_all : List Bytes → LanSession → LanSession
  unfolding unsubscribe_device
  unsubscribe_all [] s = s
  unsubscribe_all (did ∷ dids) s = unsubscribe_all dids (unsubscribe_device did s)

  -- SetSubscribeOption.
  unfoldable pub set_subscribe_option : Bool → LanSession → LanSession
  unfolding unsubscribe_all pushing
  set_subscribe_option enable s =
      let t = record s { subscribe_enabled = enable } in
      if enable then t else unsubscribe_all (pushing s.client.device_state) t

  abbrev probed : ℕ → ℕ → Bytes → Bytes → LanSession → LanSession × List Effect
  probed now update_ts did packet s =
      let (c, notices) = record_signal now success did s.client in
      let t = record s { client = c } in
      elim (parse_lan_probe_packet packet) [
        | err e ↦ (t, map noticed notices)
        | ok probe ↦
            let old = or_new (lookup did c.device_state) in
            let new =
              update_probe_state old probe.update_ts probe.wildcard_supported
                probe.has_subscription in
            (
              sync_device_subscription update_ts did probe (set_state did new t),
              map noticed notices,
            )
      ]

  -- handleRuntimePacket; the error of handlePacket is dropped.
  unfoldable pub handle_runtime_packet :
      Bool → Bytes → Bytes → ℕ → ℕ → Bytes → LanSession → LanSession × List Effect
  unfolding sync_device_subscription
  handle_runtime_packet responds if_name ip now update_ts packet s =
      elim (did_from_lan_packet packet) [
        | err e ↦ (s, [])
        | ok did ↦ elim (lookup did s.client.devices) [
          | none ↦ (s, [])
          | some d ↦
              let c = s.client in
              let moved = record s {
                client = record c { devices = insert did (update_route d ip if_name) c.devices };
              } in
              if length packet == lan_header_length
              then probed now update_ts did packet moved
              else (let (t, effects, e) =
                    handle_packet prim json responds did if_name ip now packet moved in
                  (t, effects))
        ]
      ]
