-- ===== src/Miot/Refresh.antt =====
-- client.go: how the views of the cloud, of a gateway and of the LAN are written into the table of
-- devices. A loop over the table visits the keys it has at the start; each visit either goes on or writes
-- the entry and records the change. What the calls after the lock is released do is in Miot.Subs.
use go_mihome.Common.{
  List, [], ◌∷◌, ◌++◌, Option, none, some, Bool, true, false, ◌||◌, if◌then◌else◌,
}
use go_mihome.Common.Bytes.{Bytes, bytes_eq}
use go_mihome.Common.Dict.{Dict, lookup, insert}
use go_mihome.Miot.Entry.{
  DeviceInfo, DeviceEntry, Change, recompute_entry, ensure_device_entry, merge_device_info,
}

-- LocalDeviceSummary and LANDeviceSummary, less the fields that the client does not read.
pub record LocalDeviceSummary : Type 0 where
  pub did : Bytes
  pub name : Bytes
  pub urn : Bytes
  pub model : Bytes
  pub is_online : Bool
  pub spec_v2_access : Bool
  pub push_available : Bool

pub record LanDeviceSummary : Type 0 where
  pub did : Bytes
  pub is_online : Bool
  pub push_available : Bool

abbrev pub Table : Type 0
Table = Dict DeviceEntry

-- The body of a loop for one device: `none` is `continue`, `some e` the entry with its fields set, which
-- is recomputed and written.
abbrev pub Visit : Type 0
Visit = Bytes × (Option DeviceEntry → Option DeviceEntry)

unfoldable pub write : Bool → Bytes → Option DeviceEntry → Table → Table × List Change
write auto did none t = (t, [])
write auto did (some e) t =
    let (u, change) = recompute_entry auto did e in (insert did u t, change ∷ [])

unfoldable pub for_each : Bool → List Visit → Table → Table × List Change
unfolding write
for_each auto [] t = (t, [])
for_each auto ((did, body) ∷ rest) t =
    let (u, first) = write auto did (body (lookup did t)) t in
    let (v, later) = for_each auto rest u in (v, first ++ later)

-- Two loops, one after the other.
unfoldable pub both_loops : Bool → List Visit → List Visit → Table → Table × List Change
unfolding for_each
both_loops auto first second t =
    let (u, before) = for_each auto first t in
    let (v, after) = for_each auto second u in (v, before ++ after)

-- The visits of a loop over the table.
abbrev pub on_keys : (Bytes → Option DeviceEntry → Option DeviceEntry) → Table → List Visit
on_keys body [] = []
on_keys body ((did, e) ∷ t) = (did, body did) ∷ on_keys body t

-- RefreshCloudDevices: the loop over the table, and the loop over the snapshot.
unfoldable pub clear_cloud : Option DeviceEntry → Option DeviceEntry
clear_cloud none = none
clear_cloud (some e) = if e.cloud_present then some (record e { cloud_present = false }) else none

unfoldable pub set_cloud : Bytes → DeviceInfo → Option DeviceEntry → Option DeviceEntry
set_cloud did info o = some (record (ensure_device_entry did o) {
  info = info;
  cloud_present = true;
  cloud_online = info.is_online;
})

abbrev pub clear_visits : Table → List Visit
clear_visits t = on_keys (λ did. clear_cloud) t

abbrev pub snapshot_visits : Dict DeviceInfo → List Visit
snapshot_visits [] = []
snapshot_visits ((did, info) ∷ rest) = (did, set_cloud did info) ∷ snapshot_visits rest

unfoldable pub refresh_cloud : Bool → Dict DeviceInfo → Table → Table × List Change
unfolding both_loops clear_cloud set_cloud
refresh_cloud auto snapshot t = both_loops auto (clear_visits t) (snapshot_visits snapshot) t

-- RefreshCloudDevicesByDID: the table of the details, and the loop over the distinct identifiers.
abbrev pub by_did : List DeviceInfo → Dict DeviceInfo → Dict DeviceInfo
by_did [] m = m
by_did (info ∷ rest) m = by_did rest (insert info.did info m)

unfoldable pub contains : Bytes → List Bytes → Bool
contains did [] = false
contains did (x ∷ xs) = let rest = contains did xs in if bytes_eq x did then true else rest

-- uniqueStrings of cloud.go, with the texts seen before.
unfoldable pub unique_strings : List Bytes → List Bytes → List Bytes
unfolding contains
unique_strings [] seen = []
unique_strings (x ∷ xs) seen =
    let rest = unique_strings xs (x ∷ seen) in
    let skip = unique_strings xs seen in if bytes_eq x [] || contains x seen then skip else x ∷ rest

unfoldable pub set_detail : Bytes → Option DeviceInfo → Option DeviceEntry → Option DeviceEntry
set_detail did (some info) o =
    let e = ensure_device_entry did o in
    some (record e {
      info = merge_device_info e.info info;
      cloud_present = true;
      cloud_online = info.is_online;
    })
set_detail did none o =
    some (record (ensure_device_entry did o) { cloud_present = false; cloud_online = false })

abbrev pub detail_visits : Dict DeviceInfo → List Bytes → List Visit
detail_visits details [] = []
detail_visits details (did ∷ dids) =
    (did, set_detail did (lookup did details)) ∷ detail_visits details dids

unfoldable pub refresh_cloud_by_did :
    Bool → List Bytes → List DeviceInfo → Table → Table × List Change
unfolding for_each set_detail unique_strings
refresh_cloud_by_did auto dids details t =
    for_each auto (detail_visits (by_did details []) (unique_strings dids [])) t
