-- ===== src/Miot/Route.antt =====
-- client.go: the routing of reads, writes and actions. The backends are functions, and a result comes with
-- the calls that were made, in turn.
pub mod Laws
use go_mihome.Common.{
  ℕ, List, [], ◌∷◌, ◌++◌, Option, none, some, Bool, true, false, ◌&&◌, ◌||◌, not, if◌then◌else◌,
  length, ◌==◌,
}
use go_mihome.Common.Int.{ℤ, equals}
use go_mihome.Common.Result.{
  Result, ok, err, Fault, fault, protocol_failure, invalid_response, invalid_argument,
}
use go_mihome.Common.Bytes.{Bytes, bytes_eq}
use go_mihome.Common.Dict.{Dict, lookup}
use go_mihome.Miot.Entry.{DeviceEntry}
use go_mihome.Miot.Refresh.{Table}

-- PropertyQuery, and with a value SetPropertyRequest; with the input ActionRequest, `iid` being the AIID.
pub record Request : Type 0 where
  pub did : Bytes
  pub siid : ℕ
  pub iid : ℕ
  pub value : Bytes

-- PropertyResult, SetPropertyResult and ActionResult: the code, and all else.
pub record Reply : Type 0 where
  pub code : ℤ
  pub content : Bytes

-- The backend that a call goes to; a gateway is known by its group.
pub data Backend : Type 0 where
  to_cloud to_lan : Backend
  to_gateway : Bytes → Backend

-- The backends of the client. The cloud's SetProps returns a list of results, its GetProp and InvokeAction
-- one.
pub record Backends : Type 0 where
  pub has_cloud : Bool
  pub has_lan : Bool
  pub local_routes : List Bytes
  pub get_prop : Backend → Request → Result Reply
  pub set_prop : Backend → Request → Result Reply
  pub set_props : Request → Result (List Reply)
  pub invoke_action : Backend → Request → Result Reply

abbrev pub Routed : Type 0
Routed = Result Reply × List Backend

abbrev pub no_device : Fault
no_device = fault invalid_argument "miot client device" "device not found"

abbrev pub no_route : Fault
no_route = fault protocol_failure "miot client" "no available route"

abbrev bad_code : Fault
bad_code = fault protocol_failure "miot client" "result code"

unfoldable pub action_code_ok : ℤ → Bool
action_code_ok code = equals code 0 || equals code 1

unfoldable pub has_route : Bytes → List Bytes → Bool
has_route group [] = false
has_route group (g ∷ gs) = let rest = has_route group gs in if bytes_eq g group then true else rest

-- The test of the gateway's branch, and that of the LAN's.
unfoldable pub by_gateway : Backends → DeviceEntry → Bool
unfolding has_route
by_gateway b e =
    e.gateway_online && (e.gateway_spec_v2_access && has_route e.info.group_id b.local_routes)

unfoldable pub by_lan : Backends → DeviceEntry → Bool
by_lan b e = e.lan_online && b.has_lan

-- What GetProperty does after the cloud has not answered.
abbrev pub local_or : Bool → Backends → DeviceEntry → Request → Fault → List Backend → Routed
local_or auto b e q first calls =
    if auto && by_gateway b e
    then (b.get_prop (to_gateway e.info.group_id) q, calls ++ to_gateway e.info.group_id ∷ [])
    else if auto && by_lan b e
    then (b.get_prop to_lan q, calls ++ to_lan ∷ [])
    else (err first, calls)

abbrev pub after_cloud : Bool → Backends → DeviceEntry → Request → Result Reply → Routed
after_cloud auto b e q (ok r) = (ok r, to_cloud ∷ [])
after_cloud auto b e q (err first) = local_or auto b e q first (to_cloud ∷ [])

abbrev pub get_from : Bool → Backends → Request → Option DeviceEntry → Routed
get_from auto b q none = (err no_device, [])
get_from auto b q (some e) =
    if b.has_cloud
    then after_cloud auto b e q (b.get_prop to_cloud q)
    else local_or auto b e q no_route []

unfoldable pub get_property : Bool → Backends → Table → Request → Routed
unfolding by_gateway by_lan
get_property auto b t q = get_from auto b q (lookup q.did t)

-- `result, err := ...`, then the tests of the code.
unfoldable pub checked : Result Reply → Result Reply
unfolding action_code_ok
checked (err e) = err e
checked (ok r) = if action_code_ok r.code then ok r else err bad_code

unfoldable pub single : Result (List Reply) → Result Reply
single (err e) = err e
single (ok []) = err (fault invalid_response "miot client set property" "invalid result length")
single (ok (r ∷ [])) = ok r
single (ok (r ∷ s ∷ rs)) =
    err (fault invalid_response "miot client set property" "invalid result length")

-- The three branches that SetProperty and InvokeAction share: the gateway, the LAN, the cloud.
abbrev pub command :
    Bool → Backends → (Backend → Request → Result Reply) → Request → Option DeviceEntry → Routed
command auto b call q none = (err no_device, [])
command auto b call q (some e) =
    if auto && by_gateway b e
    then (checked (call (to_gateway e.info.group_id) q), to_gateway e.info.group_id ∷ [])
    else if auto && by_lan b e
    then (checked (call to_lan q), to_lan ∷ [])
    else if b.has_cloud && e.cloud_present
    then (checked (call to_cloud q), to_cloud ∷ [])
    else (err no_route, [])

abbrev pub set_by : Backends → Backend → Request → Result Reply
set_by b to_cloud q = single (b.set_props q)
set_by b to_lan q = b.set_prop to_lan q
set_by b (to_gateway g) q = b.set_prop (to_gateway g) q

unfoldable pub set_property : Bool → Backends → Table → Request → Routed
unfolding by_gateway by_lan checked single
set_property auto b t q = command auto b (set_by b) q (lookup q.did t)

unfoldable pub invoke_action : Bool → Backends → Table → Request → Routed
unfolding by_gateway by_lan checked
invoke_action auto b t q = command auto b b.invoke_action q (lookup q.did t)
