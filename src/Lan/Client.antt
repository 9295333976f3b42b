-- ===== src/Lan/Client.antt =====
-- lan.go: the registry of devices and the switching of LAN control. A method is a function that runs to its
-- end; the parts of VoteForLANControl and setCentralGatewayPresent before and after the release of the lock
-- are functions of their own, `cast_vote` and `note_gateway` and then `switch_runtime` on what was decided.
-- The calls of subscribers, which a method makes after the lock is released, are returned as notices.
-- Map iterations run in the order of the table.
pub mod Control
pub mod Notices
pub mod Overlap
use go_mihome.Common.{
  ℕ, zero, ◌+◌, ◌*◌, List, [], ◌∷◌, ◌++◌, Option, none, some, Bool, true, false, ◌&&◌, ◌||◌, not,
  ◌==◌, ltb, if◌then◌else◌, map,
}
use Prim.Native.String.{String}
use go_mihome.Common.Result.{
  Result, ok, err, Fault, fault, protocol_failure, invalid_argument, ◌>>=◌, ◌>>◌, fail_if, or_fail,
}
use go_mihome.Common.Bytes.{Bytes, bytes_eq}
use go_mihome.Common.Dict.{Dict, lookup, insert, delete}
use go_mihome.Lan.Packet.{LanDevice, LanDeviceConfig, Primitives, new_lan_device}
use go_mihome.Lan.Runtime.Config.{LanRuntimeConfig}
use go_mihome.Lan.Runtime.Device.{
  LanDeviceState, DeviceEvent, went_online, went_offline, new_device_state, record_ping_success,
  record_ping_failure, mark_offline, emit, Signal, success, failure, shutdown, step,
}

-- `running` says that runtimeCancel is not nil, so that the scanning goroutine runs.
pub record LanClient : Type 0 where
  pub devices : Dict LanDevice
  pub device_state : Dict LanDeviceState
  pub lan_votes : Dict Bool
  pub enabled : Bool
  pub central_gateway_present : Bool
  pub running : Bool
  pub runtime : LanRuntimeConfig

-- A call of a LAN state subscriber, and of a device state subscriber; the last is DeviceStateDisable.
pub data Notice : Type 0 where
  lan_state : Bool → Notice
  device_event : Bytes → DeviceEvent → Notice
  device_disabled : Bytes → Notice

unfoldable pub new_lan_client : LanRuntimeConfig → LanClient
new_lan_client r = record {
  devices = [];
  device_state = [];
  lan_votes = [];
  enabled = true;
  central_gateway_present = false;
  running = false;
  runtime = r;
}

-- `c.enabled && !c.centralGatewayPresent`.
abbrev pub effective : LanClient → Bool
effective c = c.enabled && not c.central_gateway_present

unfoldable pub ensure_enabled : String → LanClient → Result (Unit {0})
ensure_enabled op c =
    if effective c then ok tt else err (fault protocol_failure op "lan control is disabled")

unfoldable pub device : LanClient → Bytes → Result LanDevice
device c did =
    or_fail (lookup did c.devices) (fault invalid_argument "lan device" "device not found")

-- markAllDevicesOffline.
pub mark_all : Dict LanDeviceState → Dict LanDeviceState × List Notice
mark_all [] = ([], [])
mark_all ((did, s) ∷ rest) =
    let (t, e) = mark_offline s in
    let (states, notices) = mark_all rest in
    ((did, t) ∷ states, map (device_event did) (emit e []) ++ notices)

unfoldable pub mark_all_devices_offline : LanClient → LanClient × List Notice
unfolding mark_all
mark_all_devices_offline c =
    let (states, notices) = mark_all c.device_state in (record c { device_state = states }, notices)

-- startRuntime; `listen` is the error of the transport's Listen, if it has one and it fails.
unfoldable pub start_runtime : Option Fault → LanClient → LanClient × Option Fault
start_runtime listen c = if c.running then (c, none) else started listen
  where
    started : Option Fault → LanClient × Option Fault
    started (some e) = (c, some e)
    started none = (record c { running = true }, none)

unfoldable pub stop_runtime : LanClient → LanClient
stop_runtime c = record c { running = false }

abbrev pub changed : Bool → Bool → Bool
changed true true = false
changed true false = true
changed false true = true
changed false false = false

-- setEnabled: the subscribers are told if LAN control changes by it.
unfoldable pub set_enabled : Bool → LanClient → LanClient × List Notice
set_enabled enabled c =
    let t = record c { enabled = enabled } in
    if changed c.enabled enabled
    then (t, if changed (effective c) (effective t) then lan_state (effective t) ∷ [] else [])
    else (c, [])

-- The switch that setCentralGatewayPresent and VoteForLANControl share: the runtime runs, or it is
-- stopped and all devices are marked offline. The error of startRuntime is dropped by both.
unfoldable pub switch_runtime : Bool → Option Fault → LanClient → LanClient × List Notice
unfolding start_runtime stop_runtime mark_all_devices_offline
switch_runtime on listen c =
    if on then ((start_runtime listen c).0, []) else mark_all_devices_offline (stop_runtime c)

-- setCentralGatewayPresent up to the release of the lock, if the flag changes.
abbrev pub note_gateway : Bool → LanClient → LanClient
note_gateway present c = record c { central_gateway_present = present }

unfoldable pub set_central_gateway_present :
    Bool → Option Fault → LanClient → LanClient × List Notice
unfolding switch_runtime
set_central_gateway_present present listen c =
    if changed c.central_gateway_present present
    then (let t = note_gateway present c in
        let (u, notices) = switch_runtime (effective t) listen t in
        (
          u,
          notices
              ++ (if changed (effective c) (effective t) then lan_state (effective t) ∷ [] else []),
        ))
    else (c, [])

pub any_vote : Dict Bool → Bool
any_vote [] = false
any_vote ((k, vote) ∷ rest) = vote || any_vote rest

-- VoteForLANControl up to the release of the lock. An empty key records no vote, but the votes are counted
-- again.
abbrev pub cast_vote : Bytes → Bool → LanClient → LanClient
cast_vote key vote c =
    let votes = if bytes_eq key [] then c.lan_votes else insert key vote c.lan_votes in
    record c { lan_votes = votes; enabled = any_vote votes }

unfoldable pub vote_for_lan_control :
    Bytes → Bool → Option Fault → LanClient → LanClient × List Notice
unfolding switch_runtime any_vote
vote_for_lan_control key vote listen c =
    let t = cast_vote key vote c in
    let (u, notices) = switch_runtime (effective t) listen t in
    (u, notices ++ (lan_state (effective t) ∷ []))

unfoldable pub start : Option Fault → LanClient → LanClient × List Notice × Option Fault
unfolding set_enabled start_runtime
start listen c =
    let (t, notices) = set_enabled true c in
    if t.central_gateway_present
    then (t, notices, none)
    else (let (u, e) = start_runtime listen t in (u, notices, e))

unfoldable pub close : LanClient → LanClient × List Notice
unfolding stop_runtime mark_all_devices_offline set_enabled
close c =
    let (t, offline) = mark_all_devices_offline (stop_runtime c) in
    let (u, notices) = set_enabled false t in (u, offline ++ notices)

abbrev pub state_or_new : Option LanDeviceState → LanDeviceState
state_or_new none = new_device_state
state_or_new (some s) = s

-- AddDevice; a device that is added again keeps its state.
unfoldable pub add_device : Primitives → LanDeviceConfig → LanClient → Result LanClient
add_device prim cfg c = do
  d ← new_lan_device prim cfg
  ok (record c {
    devices = insert cfg.did d c.devices;
    device_state = insert cfg.did (state_or_new (lookup cfg.did c.device_state)) c.device_state;
  })

-- UpdateDevices: the devices before the first that is refused are added, with the error.
unfoldable pub update_devices :
    Primitives → List LanDeviceConfig → LanClient → LanClient × Option Fault
unfolding add_device
update_devices prim [] c = (c, none)
update_devices prim (cfg ∷ rest) c = elim (add_device prim cfg c) [
  | ok t ↦ update_devices prim rest t
  | err e ↦ (c, some e)
]

delete_all : List Bytes → LanClient → LanClient
delete_all [] c = c
delete_all (did ∷ dids) c =
    delete_all dids
      (record c { devices = delete did c.devices; device_state = delete did c.device_state })

unfoldable pub delete_devices : List Bytes → LanClient → LanClient × List Notice
unfolding delete_all
delete_devices dids c = (delete_all dids c, map device_disabled dids)

-- recordPingSuccess and recordPingFailure on the registry; a device with no state gets a new one.
unfoldable pub record_signal : ℕ → Signal → Bytes → LanClient → LanClient × List Notice
record_signal now signal did c =
    let (s, e) = step c.runtime now signal (state_or_new (lookup did c.device_state)) in
    (record c { device_state = insert did s c.device_state }, map (device_event did) (emit e []))

-- Ping, with the outcome of the transport's Ping at the time when it returns.
unfoldable pub ping : Bytes → Option Fault → ℕ → LanClient → LanClient × List Notice × Option Fault
unfolding ensure_enabled device record_signal
ping did outcome now c = elim (ensure_enabled "lan ping" c >> device c did) [
  | err e ↦ (c, [], some e)
  | ok d ↦ after outcome
]
  where
    after : Option Fault → LanClient × List Notice × Option Fault
    after (some e) = let (t, notices) = record_signal now failure did c in (t, notices, some e)
    after none = let (t, notices) = record_signal now success did c in (t, notices, none)
