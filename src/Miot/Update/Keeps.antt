-- ===== src/Miot/Update/Keeps.antt =====
-- client.go: what the loop bodies leave alone in an entry.
use go_mihome.Common.{◌≡◌, List, [], ◌∷◌, Option, none, some, arith}
use go_mihome.Common.Bytes.{Bytes}
use go_mihome.Common.Dict.{Dict, lookup}
use go_mihome.Miot.Entry.{DeviceState, disable, DeviceInfo, DeviceEntry, ensure_device_entry}
use go_mihome.Miot.Refresh.{
  Table, Visit, clear_cloud, set_cloud, set_detail, on_keys, snapshot_visits, detail_visits,
  LocalDeviceSummary, LanDeviceSummary,
}
use go_mihome.Miot.Local.{
  gateway_known, gateway_new, lan_known, lan_new, set_cloud_state, new_visits, lan_new_visits,
}

abbrev pub entry_state : Option DeviceEntry → DeviceState
entry_state none = disable
entry_state (some e) = e.state

-- The state of a device; one that the table does not have is disabled.
abbrev pub state_of : Bytes → Table → DeviceState
state_of did t = entry_state (lookup did t)

-- The push source of a device, as currentPushSource gives it.
abbrev pub entry_source : Option DeviceEntry → Bytes
entry_source none = []
entry_source (some e) = e.push_source

abbrev pub source_of : Bytes → Table → Bytes
source_of did t = entry_source (lookup did t)

-- A loop body sets neither the state nor the push source of an entry: recomputing does.
abbrev pub Keeps : (Option DeviceEntry → Option DeviceEntry) → Type 0
Keeps body =
    (o : Option DeviceEntry) (e : DeviceEntry)
    → body o ≡ some e
    → (e.state ≡ entry_state o) × (e.push_source ≡ entry_source o)

abbrev pub AllKeep : List Visit → Type 0
AllKeep [] = Unit
AllKeep ((did, body) ∷ vs) = Keeps body × AllKeep vs

pub clear_cloud-Keeps : Keeps clear_cloud
unfolding clear_cloud
clear_cloud-Keeps none e h = ground arith
clear_cloud-Keeps (some x) e h = ground arith

pub set_cloud-Keeps : (did : Bytes) (info : DeviceInfo) → Keeps (set_cloud did info)
unfolding set_cloud ensure_device_entry
set_cloud-Keeps did info none e h = ground arith
set_cloud-Keeps did info (some x) e h = ground arith

pub set_detail-Keeps : (did : Bytes) (detail : Option DeviceInfo) → Keeps (set_detail did detail)
unfolding set_detail ensure_device_entry
set_detail-Keeps did none none e h = ground arith
set_detail-Keeps did none (some x) e h = ground arith
set_detail-Keeps did (some i) none e h = ground arith
set_detail-Keeps did (some i) (some x) e h = ground arith

pub gateway_known-Keeps :
    (group_id : Bytes) (s : Option LocalDeviceSummary) → Keeps (gateway_known group_id s)
unfolding gateway_known
gateway_known-Keeps group_id s none e h = ground arith
gateway_known-Keeps group_id none (some x) e h = ground arith
gateway_known-Keeps group_id (some s) (some x) e h = ground arith

pub gateway_new-Keeps :
    (group_id : Bytes) (seen : List Bytes) (did : Bytes) (s : LocalDeviceSummary)
    → Keeps (gateway_new group_id seen did s)
unfolding gateway_new ensure_device_entry
gateway_new-Keeps group_id seen did s none e h = ground arith
gateway_new-Keeps group_id seen did s (some x) e h = ground arith

pub lan_known-Keeps : (s : Option LanDeviceSummary) → Keeps (lan_known s)
unfolding lan_known
lan_known-Keeps s none e h = ground arith
lan_known-Keeps none (some x) e h = ground arith
lan_known-Keeps (some s) (some x) e h = ground arith

pub lan_new-Keeps :
    (seen : List Bytes) (did : Bytes) (s : LanDeviceSummary) → Keeps (lan_new seen did s)
unfolding lan_new ensure_device_entry
lan_new-Keeps seen did s none e h = ground arith
lan_new-Keeps seen did s (some x) e h = ground arith

pub set_cloud_state-Keeps : (s : DeviceState) → Keeps (set_cloud_state s)
unfolding set_cloud_state
set_cloud_state-Keeps s none e h = ground arith
set_cloud_state-Keeps s (some x) e h = ground arith

pub on_keys-AllKeep :
    (body : Bytes → Option DeviceEntry → Option DeviceEntry) (t : Table)
    → ((did : Bytes) → Keeps (body did))
    → AllKeep (on_keys body t)
on_keys-AllKeep body [] h = tt
on_keys-AllKeep body ((did, e) ∷ t) h = (h did, on_keys-AllKeep body t h)

pub snapshot-AllKeep : (snapshot : Dict DeviceInfo) → AllKeep (snapshot_visits snapshot)
snapshot-AllKeep [] = tt
snapshot-AllKeep ((did, info) ∷ rest) = (set_cloud-Keeps did info, snapshot-AllKeep rest)

pub detail-AllKeep : (m : Dict DeviceInfo) (dids : List Bytes) → AllKeep (detail_visits m dids)
detail-AllKeep m [] = tt
detail-AllKeep m (did ∷ dids) = (set_detail-Keeps did (lookup did m), detail-AllKeep m dids)

pub new-AllKeep :
    (group_id : Bytes) (seen : List Bytes) (m : Dict LocalDeviceSummary)
    → AllKeep (new_visits group_id seen m)
new-AllKeep group_id seen [] = tt
new-AllKeep group_id seen ((did, s) ∷ m) =
    (gateway_new-Keeps group_id seen did s, new-AllKeep group_id seen m)

pub lan_new-AllKeep :
    (seen : List Bytes) (m : Dict LanDeviceSummary) → AllKeep (lan_new_visits seen m)
lan_new-AllKeep seen [] = tt
lan_new-AllKeep seen ((did, s) ∷ m) = (lan_new-Keeps seen did s, lan_new-AllKeep seen m)
