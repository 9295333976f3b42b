-- ===== src/Miot/Update.antt =====
-- client.go: the updates of the table of devices, in any order.
pub mod Current
pub mod Keeps
pub mod Rule
pub mod Told
pub mod Announced
pub mod Flap
use go_mihome.Common.{List, [], ◌∷◌, ◌++◌, Bool}
use go_mihome.Common.Bytes.{Bytes}
use go_mihome.Common.Dict.{Dict}
use go_mihome.Miot.Entry.{DeviceState, DeviceInfo, Change}
use go_mihome.Miot.Refresh.{
  Table, LocalDeviceSummary, LanDeviceSummary, refresh_cloud, refresh_cloud_by_did,
}
use go_mihome.Miot.Local.{update_gateway_devices, update_lan_devices, handle_cloud_device_state}

-- A method that updates the table, with what the cloud, the gateway or the LAN has answered.
pub data Update : Type 0 where
  cloud : Dict DeviceInfo → Update
  cloud_by_did : List Bytes → List DeviceInfo → Update
  gateway : Bytes → List LocalDeviceSummary → Update
  lan : List LanDeviceSummary → Update
  cloud_state : Bytes → DeviceState → Update

unfoldable pub apply : Bool → Update → Table → Table × List Change
apply auto (cloud snapshot) t = refresh_cloud auto snapshot t
apply auto (cloud_by_did dids details) t = refresh_cloud_by_did auto dids details t
apply auto (gateway group_id items) t = update_gateway_devices auto group_id items t
apply auto (lan items) t = update_lan_devices auto items t
apply auto (cloud_state did s) t = handle_cloud_device_state auto did s t

unfoldable pub apply_all : Bool → List Update → Table → Table × List Change
unfolding apply
apply_all auto [] t = (t, [])
apply_all auto (u ∷ us) t =
    let (t1, first) = apply auto u t in
    let (t2, later) = apply_all auto us t1 in (t2, first ++ later)
