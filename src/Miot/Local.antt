-- ===== src/Miot/Local.antt =====
-- client.go: updateGatewayDevices, updateLANDevices and handleCloudDeviceState, on the table of devices.
use go_mihome.Common.{List, [], ◌∷◌, ◌++◌, Option, none, some, Bool, true, false, if◌then◌else◌}
use go_mihome.Common.Bytes.{Bytes, bytes_eq}
use go_mihome.Common.Dict.{Dict, lookup, insert}
use go_mihome.Miot.Entry.{
  DeviceState, online, offline, disable, DeviceEntry, Change, ensure_device_entry, or_text,
}
use go_mihome.Miot.Refresh.{
  LocalDeviceSummary, LanDeviceSummary, Table, Visit, write, both_loops, on_keys, contains,
}

abbrev pub local_by_did :
    List LocalDeviceSummary → Dict LocalDeviceSummary → Dict LocalDeviceSummary
local_by_did [] m = m
local_by_did (item ∷ rest) m = local_by_did rest (insert item.did item m)

abbrev pub lan_by_did : List LanDeviceSummary → Dict LanDeviceSummary → Dict LanDeviceSummary
lan_by_did [] m = m
lan_by_did (item ∷ rest) m = lan_by_did rest (insert item.did item m)

-- The fields that a gateway's summary sets.
unfoldable pub with_summary : Bytes → LocalDeviceSummary → DeviceEntry → DeviceEntry
with_summary group_id s e = record e {
  info = record e.info {
    name = or_text s.name e.info.name;
    urn = or_text s.urn e.info.urn;
    model = or_text s.model e.info.model;
    group_id = group_id;
  };
  gateway_online = s.is_online;
  gateway_push_available = s.push_available;
  gateway_spec_v2_access = s.spec_v2_access;
}

-- The first loop: the devices of the group.
abbrev summarized : Bytes → Option LocalDeviceSummary → DeviceEntry → DeviceEntry
summarized group_id none e = record e {
  gateway_online = false;
  gateway_push_available = false;
  gateway_spec_v2_access = false;
}
summarized group_id (some s) e = with_summary group_id s e

unfoldable pub gateway_known :
    Bytes → Option LocalDeviceSummary → Option DeviceEntry → Option DeviceEntry
unfolding with_summary
gateway_known group_id s none = none
gateway_known group_id s (some e) =
    if bytes_eq e.info.group_id group_id then some (summarized group_id s e) else none

abbrev seen_one : Bytes → Bytes → DeviceEntry → Option LocalDeviceSummary → List Bytes
seen_one group_id did e none = []
seen_one group_id did e (some s) = if bytes_eq e.info.group_id group_id then did ∷ [] else []

-- The devices that the first loop notes as seen.
unfoldable pub seen_in_group : Bytes → Dict LocalDeviceSummary → Table → List Bytes
seen_in_group group_id current [] = []
seen_in_group group_id current ((did, e) ∷ rest) =
    seen_one group_id did e (lookup did current) ++ seen_in_group group_id current rest

-- The second loop: the devices listed that were not seen.
unfoldable pub gateway_new :
    Bytes → List Bytes → Bytes → LocalDeviceSummary → Option DeviceEntry → Option DeviceEntry
unfolding contains with_summary
gateway_new group_id seen did s o =
    if contains did seen
    then none
    else (let e = ensure_device_entry did o in
        some (with_summary group_id s (record e { info = record e.info { did = did } })))

abbrev pub known_visits : Bytes → Dict LocalDeviceSummary → Table → List Visit
known_visits group_id current t = on_keys (λ did. gateway_known group_id (lookup did current)) t

abbrev pub new_visits : Bytes → List Bytes → Dict LocalDeviceSummary → List Visit
new_visits group_id seen [] = []
new_visits group_id seen ((did, s) ∷ rest) =
    (did, gateway_new group_id seen did s) ∷ new_visits group_id seen rest

unfoldable pub update_gateway_devices :
    Bool → Bytes → List LocalDeviceSummary → Table → Table × List Change
unfolding both_loops gateway_known seen_in_group gateway_new
update_gateway_devices auto group_id items t =
    let current = local_by_did items [] in
    both_loops auto (known_visits group_id current t)
      (new_visits group_id (seen_in_group group_id current t) current) t

unfoldable pub lan_known : Option LanDeviceSummary → Option DeviceEntry → Option DeviceEntry
lan_known s none = none
lan_known none (some e) = some (record e { lan_online = false; lan_push_available = false })
lan_known (some s) (some e) =
    some (record e { lan_online = s.is_online; lan_push_available = s.push_available })

-- The devices that the first loop notes as seen.
unfoldable pub seen_on_lan : Dict LanDeviceSummary → Table → List Bytes
seen_on_lan current [] = []
seen_on_lan current ((did, e) ∷ rest) = noted (lookup did current) ++ seen_on_lan current rest
  where
    noted : Option LanDeviceSummary → List Bytes
    noted none = []
    noted (some s) = did ∷ []

unfoldable pub lan_new :
    List Bytes → Bytes → LanDeviceSummary → Option DeviceEntry → Option DeviceEntry
unfolding contains
lan_new seen did s o =
    if contains did seen
    then none
    else (let e = ensure_device_entry did o in
        some (record e {
          info = record e.info { did = did };
          lan_online = s.is_online;
          lan_push_available = s.push_available;
        }))

abbrev pub lan_known_visits : Dict LanDeviceSummary → Table → List Visit
lan_known_visits current t = on_keys (λ did. lan_known (lookup did current)) t

abbrev pub lan_new_visits : List Bytes → Dict LanDeviceSummary → List Visit
lan_new_visits seen [] = []
lan_new_visits seen ((did, s) ∷ rest) = (did, lan_new seen did s) ∷ lan_new_visits seen rest

unfoldable pub update_lan_devices : Bool → List LanDeviceSummary → Table → Table × List Change
unfolding both_loops lan_known seen_on_lan lan_new
update_lan_devices auto items t =
    let current = lan_by_did items [] in
    both_loops auto (lan_known_visits current t) (lan_new_visits (seen_on_lan current t) current) t

abbrev is_online_state : DeviceState → Bool
is_online_state online = true
is_online_state offline = false
is_online_state disable = false

unfoldable pub set_cloud_state : DeviceState → Option DeviceEntry → Option DeviceEntry
set_cloud_state s none = none
set_cloud_state s (some e) =
    some (record e { cloud_present = true; cloud_online = is_online_state s })

-- The changes are those of this device, or none if the table does not have it.
unfoldable pub handle_cloud_device_state : Bool → Bytes → DeviceState → Table → Table × List Change
unfolding write set_cloud_state
handle_cloud_device_state auto did s t = write auto did (set_cloud_state s (lookup did t)) t
