-- ===== src/Cloud/Base.antt =====
-- cloud.go: which devices GetDevices asks for, and the home and the room that it writes into each. A map is
-- walked in the order of its list; a filter of homes that is nil is none.
pub mod Tables
pub mod Found
pub mod Homely
pub mod Filter
pub mod Listed
use go_mihome.Common.{
  ℕ, List, [], ◌∷◌, ◌++◌, Option, none, some, Bool, true, false, ◌&&◌, ◌||◌, not, if◌then◌else◌,
  ◌==◌, ltb,
}
use go_mihome.Common.Result.{Result, ok, err}
use go_mihome.Common.Bytes.{Bytes, bytes_eq, codes}
use go_mihome.Common.Dict.{Dict, lookup, insert}
use go_mihome.Miot.Entry.{DeviceInfo}
use go_mihome.Miot.Refresh.{contains, by_did}
use go_mihome.Cloud.Pages.{Fetch, get_devices_by_did}
use go_mihome.Cloud.Homes.{RoomInfo, HomeInfo, HomeInfos}

-- The three tables of homes that buildHomeDeviceBase makes, with the set of identifiers.
pub record HomeBase : Type 0 where
  pub home_list : Dict HomeInfo
  pub share_home_list : Dict HomeInfo
  pub separated_shared_list : Dict HomeInfo
  pub dids : List Bytes

unfoldable pub add_dids : List Bytes → List Bytes → List Bytes
unfolding contains
add_dids [] set = set
add_dids (did ∷ dids) set = add_dids dids (if contains did set then set else did ∷ set)

unfoldable pub add_rooms : Dict RoomInfo → List Bytes → List Bytes
unfolding add_dids
add_rooms [] set = set
add_rooms ((id, room) ∷ rooms) set = add_rooms rooms (add_dids room.dids set)

unfoldable pub collect_home_dids : HomeInfo → List Bytes → List Bytes
unfolding add_rooms add_dids
collect_home_dids home set = add_rooms home.rooms (add_dids home.dids set)

unfoldable pub is_selected : Option (List Bytes) → Bytes → Bool
unfolding contains
is_selected none id = true
is_selected (some ids) id = contains id ids

-- The loop that calls addHome for a table of homes.
unfoldable pub add_homes :
    Option (List Bytes) → Dict HomeInfo → Dict HomeInfo × List Bytes → Dict HomeInfo × List Bytes
unfolding is_selected collect_home_dids
add_homes wanted [] acc = acc
add_homes wanted ((id, home) ∷ homes) (bucket, set) = add_homes wanted homes (
    if is_selected wanted home.home_id
    then (insert home.home_id home bucket, collect_home_dids home set)
    else (bucket, set))

-- `<` on strings.
unfoldable pub bytes_ltb : Bytes → Bytes → Bool
bytes_ltb [] [] = false
bytes_ltb [] (b ∷ bs) = true
bytes_ltb (x ∷ xs) [] = false
bytes_ltb (x ∷ xs) (b ∷ bs) = ltb x b || (x == b && bytes_ltb xs bs)

-- sort.Strings.
unfoldable pub sort_into : Bytes → List Bytes → List Bytes
unfolding bytes_ltb
sort_into x [] = x ∷ []
sort_into x (y ∷ ys) = let rest = sort_into x ys in if bytes_ltb y x then y ∷ rest else x ∷ y ∷ ys

unfoldable pub sort_strings : List Bytes → List Bytes
unfolding sort_into
sort_strings [] = []
sort_strings (x ∷ xs) = sort_into x (sort_strings xs)

-- buildHomeDeviceBase, after GetHomeInfos.
unfoldable pub build_home_device_base : Option (List Bytes) → HomeInfos → HomeBase
unfolding add_homes sort_strings
build_home_device_base wanted infos =
    let (homes, set) = add_homes wanted infos.home_list ([], []) in
    let (shared, all) = add_homes wanted infos.share_home_list ([], set) in
    record {
      home_list = homes;
      share_home_list = shared;
      separated_shared_list = [];
      dids = sort_strings all;
    }

-- What baseDeviceByDID returns, less the user and the identifier, which GetDevices does not read.
pub record BaseDevice : Type 0 where
  pub home_id : Bytes
  pub home_name : Bytes
  pub room_id : Bytes
  pub room_name : Bytes
  pub group_id : Bytes

unfoldable pub room_of : Bytes → Dict RoomInfo → Option (Bytes × Bytes)
unfolding contains
room_of did [] = none
room_of did ((id, room) ∷ rooms) =
    let rest = room_of did rooms in
    if contains did room.dids then some (id, room.room_name) else rest

abbrev pub in_room : HomeInfo → Option (Bytes × Bytes) → Option BaseDevice
in_room home none = none
in_room home (some (id, name)) = some (record {
  home_id = home.home_id;
  home_name = home.home_name;
  room_id = id;
  room_name = name;
  group_id = home.group_id;
})

-- A search that returns the first that it finds.
abbrev pub or_else {ℓ} : {A : Type ℓ} → Option A → Option A → Option A
or_else none o = o
or_else (some a) o = some a

unfoldable pub base_in_home : Bytes → HomeInfo → Option BaseDevice
unfolding room_of contains
base_in_home did home =
    or_else (in_room home (room_of did home.rooms))
      (if contains did home.dids then in_room home (some (home.home_id, home.home_name)) else none)

unfoldable pub base_in_bucket : Bytes → Dict HomeInfo → Option BaseDevice
unfolding base_in_home
base_in_bucket did [] = none
base_in_bucket did ((id, home) ∷ homes) = or_else (base_in_home did home) (base_in_bucket did homes)

unfoldable pub base_device_by_did : Bytes → HomeBase → Option BaseDevice
unfolding base_in_bucket
base_device_by_did did b =
    or_else (base_in_bucket did b.home_list)
      (or_else (base_in_bucket did b.share_home_list) (base_in_bucket did b.separated_shared_list))

abbrev pub with_base : DeviceInfo → BaseDevice → DeviceInfo
with_base detail base = record detail {
  home_id = base.home_id;
  home_name = base.home_name;
  room_id = base.room_id;
  room_name = base.room_name;
  group_id = base.group_id;
}

abbrev pub place : Bytes → DeviceInfo → Option BaseDevice → Dict DeviceInfo → Dict DeviceInfo
place did detail none rest = rest
place did detail (some base) rest = (did, with_base detail base) ∷ rest

-- The loop of GetDevices over the details. The keys of a map are distinct, so that their order is that of
-- the new map only.
unfoldable pub place_devices : HomeBase → Dict DeviceInfo → Dict DeviceInfo
unfolding base_device_by_did
place_devices b [] = []
place_devices b ((did, detail) ∷ m) =
    place did detail (base_device_by_did did b) (place_devices b m)

abbrev pub placed : HomeBase → Option (Result (List DeviceInfo)) → Option (Result (Dict DeviceInfo))
placed b none = none
placed b (some (err e)) = some (err e)
placed b (some (ok detailed)) = some (ok (place_devices b (by_did detailed [])))

-- GetDevices up to the shared devices, from the homes of the account on.
unfoldable pub own_devices :
    Fetch → ℕ → Option (List Bytes) → HomeInfos → Option (Result (Dict DeviceInfo))
unfolding place_devices build_home_device_base get_devices_by_did
own_devices fetch fuel wanted infos =
    let b = build_home_device_base wanted infos in placed b (get_devices_by_did fetch fuel b.dids)
