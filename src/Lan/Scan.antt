-- ===== src/Lan/Scan.antt =====
-- lan.go: one round of the scan that the runtime makes. A ping is answered at a time or fails at one; what
-- happens to the devices while the scan waits is before or after it.
pub mod Routes
pub mod Silent
use go_mihome.Common.{
  ℕ, List, [], ◌∷◌, ◌++◌, Option, none, some, Bool, true, false, ◌&&◌, not, ◌==◌, ltb,
  if◌then◌else◌, map,
}
use go_mihome.Common.Result.{Fault}
use go_mihome.Common.Bytes.{Bytes, bytes_eq}
use go_mihome.Common.Dict.{Dict, lookup, insert}
use go_mihome.Lan.Packet.{LanDevice}
use go_mihome.Lan.Probe.{build_lan_broadcast_probe_packet}
use go_mihome.Lan.Runtime.Broadcast.{BroadcastState, broadcast_targets}
use go_mihome.Lan.Runtime.Device.{LanDeviceState, new_device_state, Signal, success, failure}
use go_mihome.Lan.Client.{LanClient, Notice, record_signal, state_or_new}

-- The local type route of scanDevices.
pub record Route : Type 0 where
  pub did : Bytes
  pub if_name : Bytes
  pub ip : Bytes

-- A device with an address whose time has come.
unfoldable pub is_due : ℕ → LanDevice → LanDeviceState → Bool
is_due now d s = not (bytes_eq d.ip []) && not (not (s.next_probe == 0) && ltb now s.next_probe)

abbrev pub route_to : Bytes → LanDevice → Route
route_to did d = record { did = did; if_name = d.if_name; ip = d.ip }

-- The loop over the devices; a device that has no state gets a new one.
unfoldable pub note_routes :
    ℕ → Dict LanDevice → Dict LanDeviceState → Dict LanDeviceState × List Route
unfolding is_due
note_routes now [] states = (states, [])
note_routes now ((did, d) ∷ rest) states =
    let s = state_or_new (lookup did states) in
    let noted = note_routes now rest (insert did (record s { last_probe = now }) states) in
    let kept = note_routes now rest (insert did s states) in
    if is_due now d s then (noted.0, route_to did d ∷ noted.1) else kept

-- What a ping returns, and when.
abbrev pub Answers : Type 0
Answers = Route → Option Fault × ℕ

abbrev pub signal_of : Option Fault → Signal
signal_of none = success
signal_of (some e) = failure

-- The loop over the routes.
unfoldable pub probe_all : Answers → List Route → LanClient → LanClient × List Notice
unfolding record_signal
probe_all answers [] c = (c, [])
probe_all answers (r ∷ rs) c =
    let (outcome, at) = answers r in
    let (t, first) = record_signal at (signal_of outcome) r.did c in
    let (u, later) = probe_all answers rs t in (u, first ++ later)

-- broadcastScan: the packets sent by interface; `broadcasts` says that the transport is a LANBroadcaster.
unfoldable pub broadcast_scan : Bool → Bytes → List Bytes → List (Bytes × Bytes)
unfolding build_lan_broadcast_probe_packet
broadcast_scan broadcasts virtual_did ifs =
    if broadcasts then map (λ i. (i, build_lan_broadcast_probe_packet virtual_did)) ifs else []

pub record Scanned : Type 0 where
  pub client : LanClient
  pub broadcast : BroadcastState
  pub notices : List Notice
  pub sent : List (Bytes × Bytes)

-- scanDevices.
unfoldable pub scan_devices : Answers → Bool → Bytes → ℕ → BroadcastState → LanClient → Scanned
unfolding note_routes probe_all broadcast_targets broadcast_scan
scan_devices answers broadcasts virtual_did now b c =
    if not c.enabled
    then record { client = c; broadcast = b; notices = []; sent = [] }
    else (let (states, routes) = note_routes now c.devices c.device_state in
        let (b1, ifs) = broadcast_targets c.runtime now b in
        let (t, notices) = probe_all answers routes (record c { device_state = states }) in
        record {
          client = t;
          broadcast = b1;
          notices = notices;
          sent = broadcast_scan broadcasts virtual_did ifs;
        })

-- What the pings of a round return, and when it starts.
pub record Round : Type 0 where
  pub answers : Answers
  pub now : ℕ

-- The rounds that the scanning goroutine makes, one after the other.
unfoldable pub scan_all : Bool → Bytes → List Round → BroadcastState → LanClient → LanClient
unfolding scan_devices
scan_all broadcasts virtual_did [] b c = c
scan_all broadcasts virtual_did (x ∷ xs) b c =
    let u = scan_devices x.answers broadcasts virtual_did x.now b c in
    scan_all broadcasts virtual_did xs u.broadcast u.client
