-- ===== src/Miot/Entry.antt =====
-- client.go: the entry that the runtime client keeps of a device, and what is computed from it. Of the
-- information on a device the fields that the client reads are there; the others are `other`, which is
-- copied as it is.
pub mod Laws
use go_mihome.Common.{
  ℕ, List, [], ◌∷◌, Option, none, some, Bool, true, false, ◌&&◌, ◌||◌, not, if◌then◌else◌,
}
use go_mihome.Common.Int.{ℤ, pos, equals}
use go_mihome.Common.Bytes.{Bytes, bytes_eq, codes}
use go_mihome.Common.Dict.{Dict, lookup, insert}

pub data DeviceState : Type 0 where
  disable offline online : DeviceState

pub record DeviceInfo : Type 0 where
  pub did : Bytes
  pub name : Bytes
  pub urn : Bytes
  pub model : Bytes
  pub connect_type : ℤ
  pub token : Bytes
  pub is_online : Bool
  pub home_id : Bytes
  pub home_name : Bytes
  pub room_id : Bytes
  pub room_name : Bytes
  pub group_id : Bytes
  pub other : Bytes

pub record DeviceEntry : Type 0 where
  pub info : DeviceInfo
  pub state : DeviceState
  pub cloud_present : Bool
  pub cloud_online : Bool
  pub gateway_online : Bool
  pub gateway_push_available : Bool
  pub gateway_spec_v2_access : Bool
  pub lan_online : Bool
  pub lan_push_available : Bool
  pub push_source : Bytes

pub record Change : Type 0 where
  pub did : Bytes
  pub state_changed : Bool
  pub source_changed : Bool
  pub new_state : DeviceState

abbrev pub push_source_cloud : Bytes
push_source_cloud = codes "cloud"

abbrev pub push_source_lan : Bytes
push_source_lan = codes "lan"

unfoldable pub aggregate_device_state : Bool → Bool → Bool → Bool → DeviceState
aggregate_device_state cloud_present cloud_online gateway_online lan_online =
    if not cloud_present && (not gateway_online && not lan_online)
    then disable
    else if cloud_online || (gateway_online || lan_online)
    then online
    else offline

-- `auto` says that the control mode is the automatic one.
unfoldable pub select_push_source : Bool → DeviceEntry → Bytes
select_push_source auto e =
    if auto && (e.gateway_online && (e.gateway_push_available && not (bytes_eq e.info.group_id [])))
    then e.info.group_id
    else if auto && (e.lan_online && e.lan_push_available)
    then push_source_lan
    else if e.cloud_present && e.cloud_online
    then push_source_cloud
    else []

-- `!=` on device states.
unfoldable pub state_differs : DeviceState → DeviceState → Bool
state_differs disable disable = false
state_differs offline offline = false
state_differs online online = false
state_differs _ _ = true

-- recomputeEntryLocked: the entry, and what has changed.
unfoldable pub recompute_entry : Bool → Bytes → DeviceEntry → DeviceEntry × Change
unfolding aggregate_device_state select_push_source state_differs
recompute_entry auto did e =
    let state =
      aggregate_device_state e.cloud_present e.cloud_online e.gateway_online e.lan_online in
    let source = select_push_source auto e in
    (
      record e { state = state; push_source = source },
      record {
        did = did;
        state_changed = state_differs e.state state;
        source_changed = not (bytes_eq e.push_source source);
        new_state = state;
      },
    )

abbrev blank_info : Bytes → DeviceInfo
blank_info did = record {
  did = did;
  name = [];
  urn = [];
  model = [];
  connect_type = pos 0;
  token = [];
  is_online = false;
  home_id = [];
  home_name = [];
  room_id = [];
  room_name = [];
  group_id = [];
  other = [];
}

-- ensureDeviceEntryLocked, on what the table has for the device.
unfoldable pub ensure_device_entry : Bytes → Option DeviceEntry → DeviceEntry
ensure_device_entry did (some e) = e
ensure_device_entry did none = record {
  info = blank_info did;
  state = disable;
  cloud_present = false;
  cloud_online = false;
  gateway_online = false;
  gateway_push_available = false;
  gateway_spec_v2_access = false;
  lan_online = false;
  lan_push_available = false;
  push_source = [];
}

-- `if next == "" { next = current }`.
abbrev pub or_text : Bytes → Bytes → Bytes
or_text next current = if bytes_eq next [] then current else next

unfoldable pub merge_device_info : DeviceInfo → DeviceInfo → DeviceInfo
merge_device_info current next = record next {
  home_id = or_text next.home_id current.home_id;
  home_name = or_text next.home_name current.home_name;
  room_id = or_text next.room_id current.room_id;
  room_name = or_text next.room_name current.room_name;
  group_id = or_text next.group_id current.group_id;
  token = or_text next.token current.token;
  connect_type =
      if equals next.connect_type 0 && not (equals current.connect_type 0)
      then current.connect_type
      else next.connect_type;
  name = or_text next.name current.name;
  model = or_text next.model current.model;
  urn = or_text next.urn current.urn;
}
