-- ===== src/Tests/Client.antt =====
-- The runtime client on a lamp that the cloud, a gateway and the LAN know.
use go_mihome.Common.{◌≡◌, refl, List, [], ◌∷◌, none, some, true, false, arith, length}
use go_mihome.Common.Int.{pos}
use go_mihome.Common.Result.{Result, ok, err, opaque}
use go_mihome.Common.Bytes.{Bytes, codes, bytes_eq, bytes_eq_refl, bytes_eq_iff}
use go_mihome.Common.Dict.{Dict, lookup, insert}
use go_mihome.Miot.Entry.{disable, online, offline, DeviceInfo, DeviceEntry, recompute_entry}
use go_mihome.Miot.Refresh.{Table, LocalDeviceSummary, refresh_cloud, write, for_each, both_loops}
use go_mihome.Miot.Local.{update_lan_devices, update_gateway_devices, handle_cloud_device_state}
use go_mihome.Miot.Update.{Update, cloud, gateway, lan, cloud_state, apply, apply_all}
use go_mihome.Miot.Update.Current.{AllCurrent, updates-AllCurrent}
use go_mihome.Miot.Update.Keeps.{state_of}
use go_mihome.Miot.Update.Told.{told, told-updates}
use go_mihome.Miot.Update.Flap.{calls_with, IsCloudOnly, refresh-flaps}
use go_mihome.Miot.Subs.{Sources, new_miot_client, update, subscribe_property}
use go_mihome.Miot.Subs.Bound.{IsBound, Reach, here, next, updated, property, Reach-IsBound}
use go_mihome.Miot.Route.{
  Request, Reply, to_cloud, to_lan, to_gateway, Backends, set_property, get_property, invoke_action,
}
use go_mihome.Miot.Route.Laws.{IsAnswer, get_property-IsAnswer, CloudOnly, cloud_mode}
use go_mihome.Miot.Queue.{PropertyQuery, PropertyResult, Queue, Readers, property_key}
use go_mihome.Miot.Queue.Keyed.{AnswersAsked}
use go_mihome.Miot.Queue.Drain.{IsQueue, fire_all, queue_drains}

abbrev lamp_did : Bytes
lamp_did = codes "42"

abbrev lamp_info : DeviceInfo
lamp_info = record {
  did = lamp_did;
  name = codes "lamp";
  urn = [];
  model = [];
  connect_type = pos 0;
  token = [];
  is_online = true;
  home_id = [];
  home_name = [];
  room_id = [];
  room_name = [];
  group_id = codes "g1";
  other = [];
}

abbrev snapshot : Dict DeviceInfo
snapshot = (lamp_did, lamp_info) ∷ []

abbrev summary : LocalDeviceSummary
summary = record {
  did = lamp_did;
  name = codes "lamp";
  urn = [];
  model = [];
  is_online = true;
  spec_v2_access = true;
  push_available = true;
}

abbrev updates : List Update
updates =
    cloud snapshot
    ∷ gateway (codes "g1") (summary ∷ [])
    ∷ lan []
    ∷ cloud_state lamp_did offline
    ∷ gateway (codes "g1") []
    ∷ []

updates-AllCurrent_example : AllCurrent true (apply_all true updates []).0
updates-AllCurrent_example = updates-AllCurrent true updates [] tt

told-updates_example :
    told lamp_did (state_of lamp_did []) (apply_all true updates []).1
    ≡ state_of lamp_did (apply_all true updates []).0
told-updates_example = told-updates true lamp_did updates []

-- The lamp is offline at the end, and its subscribers have been told each change.
updates_end : state_of lamp_did (apply_all true updates []).0 ≡ offline
unfolding apply_all apply refresh_cloud update_gateway_devices update_lan_devices
    handle_cloud_device_state both_loops for_each write recompute_entry lookup insert bytes_eq
updates_end = refl

abbrev lamp_entry : DeviceEntry
lamp_entry = record {
  info = lamp_info;
  state = online;
  cloud_present = true;
  cloud_online = true;
  gateway_online = false;
  gateway_push_available = false;
  gateway_spec_v2_access = false;
  lan_online = false;
  lan_push_available = false;
  push_source = codes "cloud";
}

abbrev home : Table
home = (lamp_did, lamp_entry) ∷ []

lamp_found : lookup lamp_did home ≡ some lamp_entry
unfolding lookup bytes_eq
lamp_found = refl

lamp-IsCloudOnly : IsCloudOnly lamp_entry
lamp-IsCloudOnly = record { is_online = refl; by_cloud = refl; no_gateway = refl; no_lan = refl }

refresh-flaps_example : calls_with lamp_did disable (refresh_cloud true snapshot home).1 ≡ true
refresh-flaps_example =
    refresh-flaps true lamp_did lamp_entry snapshot home lamp_found lamp-IsCloudOnly

-- After the refresh the lamp is online, as it was before.
refresh_end : state_of lamp_did (refresh_cloud true snapshot home).0 ≡ online
unfolding refresh_cloud both_loops for_each write recompute_entry lookup insert bytes_eq
refresh_end = refl

abbrev sources : Sources
sources = record {
  has_cloud_push = true;
  has_lan = true;
  local_routes = codes "g1" ∷ [];
  accepts = λ source s. true;
}

abbrev client_run :
    Reach
      (new_miot_client true)
      (update sources
        (gateway (codes "g1") (summary ∷ []))
        (subscribe_property sources lamp_did 2 1
          (update sources (cloud snapshot) (new_miot_client true)).0).0).0
client_run =
    next (next (next here (updated sources (cloud snapshot))) (property sources lamp_did 2 1))
      (updated sources (gateway (codes "g1") (summary ∷ [])))

Reach-IsBound_example :
    IsBound
      (update sources
        (gateway (codes "g1") (summary ∷ []))
        (subscribe_property sources lamp_did 2 1
          (update sources (cloud snapshot) (new_miot_client true)).0).0).0
Reach-IsBound_example = Reach-IsBound true client_run

abbrev done : Reply
done = record { code = pos 0; content = codes "1" }

abbrev backends : Backends
backends = record {
  has_cloud = true;
  has_lan = true;
  local_routes = codes "g1" ∷ [];
  get_prop =
      λ x q. elim x [ to_cloud ↦ err (opaque "HTTP") | to_lan ↦ ok done | to_gateway g ↦ ok done ];
  set_prop = λ x q. ok done;
  set_props = λ q. ok (done ∷ []);
  invoke_action = λ x q. ok done;
}

abbrev turn_on : Request
turn_on = record { did = lamp_did; siid = 2; iid = 1; value = codes "true" }

get_property-IsAnswer_example : IsAnswer backends turn_on (get_property true backends home turn_on)
get_property-IsAnswer_example = get_property-IsAnswer true backends home turn_on

cloud_mode_example :
    CloudOnly (get_property false backends home turn_on)
    × CloudOnly (set_property false backends home turn_on)
    × CloudOnly (invoke_action false backends home turn_on)
cloud_mode_example = cloud_mode backends home turn_on

abbrev power : PropertyQuery
power = record { did = lamp_did; siid = 2; piid = 1 }

-- A cloud that answers the first query that it is asked.
abbrev first_answer : List PropertyQuery → Result (List PropertyResult)
first_answer [] = err (opaque "HTTP")
first_answer (q ∷ qs) =
    ok (record { did = q.did; siid = q.siid; piid = q.piid; content = codes "1" } ∷ [])

abbrev readers : Readers
readers = record {
  auto = true;
  devices = home;
  has_cloud = true;
  has_lan = true;
  local_routes = codes "g1" ∷ [];
  get_props = first_answer;
  get_prop_safe = λ g q. err (opaque "MIPS");
  lan_get_prop = λ q. err (opaque "LAN");
}

readers-AnswersAsked : AnswersAsked readers
readers-AnswersAsked [] r rs h = absurd (ground arith)
readers-AnswersAsked (q ∷ qs) r rs h = ground (arith, bytes_eq_refl q.did, bytes_eq_iff q.did r.did)

abbrev waiting : Queue
waiting = record {
  queued_props = (property_key lamp_did 2 1, power) ∷ [];
  prop_retry = 0;
  timer = some 200000000;
}

waiting-IsQueue : IsQueue waiting
waiting-IsQueue = record {
  keyed = (refl, tt);
  few_retries = omega arith;
  timed = λ x. absurd (ground arith);
}

queue_drains_example :
    ((fire_all 6 (λ k. readers) waiting).timer ≡ none)
    × (length (fire_all 6 (λ k. readers) waiting).queued_props ≡ 0)
queue_drains_example =
    queue_drains 6 (λ k. readers) waiting (λ k. readers-AnswersAsked) waiting-IsQueue (omega arith)
