-- ===== src/Cloud/Homes.antt =====
-- cloud.go: the homes of an account, and the devices in them. The group identifier, which CalcGroupID
-- computes with SHA-1, is a parameter; of a home the fields that the client reads are there, the others are
-- `other`.
use go_mihome.Common.{◌+◌, List, [], ◌∷◌, ◌++◌, Option, none, some, ◌||◌, if◌then◌else◌}
use go_mihome.Common.Int.{ℤ, pos, negsuc}
use go_mihome.Common.Bytes.{Bytes, bytes_eq, codes}
use go_mihome.Common.Decimal.{format_uint}
use go_mihome.Common.Dict.{Dict, lookup, insert}
use go_mihome.Miot.Refresh.{contains}

pub record RoomInfo : Type 0 where
  pub room_id : Bytes
  pub room_name : Bytes
  pub dids : List Bytes

pub record HomeInfo : Type 0 where
  pub home_id : Bytes
  pub home_name : Bytes
  pub dids : List Bytes
  pub rooms : Dict RoomInfo
  pub group_id : Bytes
  pub uid : Bytes
  pub other : Bytes

pub record HomeInfos : Type 0 where
  pub uid : Bytes
  pub home_list : Dict HomeInfo
  pub share_home_list : Dict HomeInfo

-- GetHomeCloudRoom and GetHomeCloudHome.
pub record CloudRoom : Type 0 where
  pub id : Bytes
  pub name : Bytes
  pub dids : List Bytes

pub record CloudHome : Type 0 where
  pub id : Bytes
  pub uid : ℤ
  pub name : Bytes
  pub dids : List Bytes
  pub room_list : List CloudRoom
  pub other : Bytes

-- strconv.FormatInt.
abbrev format_int : ℤ → Bytes
format_int (pos n) = format_uint n
format_int (negsuc n) = codes "-" ++ format_uint (n + 1)

unfoldable pub normalize_rooms : List CloudRoom → Dict RoomInfo → Dict RoomInfo
normalize_rooms [] rooms = rooms
normalize_rooms (room ∷ rest) rooms = normalize_rooms rest (
    if bytes_eq room.id []
    then rooms
    else insert room.id (record { room_id = room.id; room_name = room.name; dids = room.dids })
        rooms)

unfoldable pub normalize_home_record : (Bytes → Bytes → Bytes) → CloudHome → Option HomeInfo
unfolding normalize_rooms
normalize_home_record calc_group_id home =
    if bytes_eq home.id [] || bytes_eq home.name []
    then none
    else some (record {
      home_id = home.id;
      home_name = home.name;
      dids = home.dids;
      rooms = normalize_rooms home.room_list [];
      group_id = calc_group_id (format_int home.uid) home.id;
      uid = format_int home.uid;
      other = home.other;
    })

-- The loops of normalizeHomeInfos over the homes and over the shared homes.
abbrev pub note_home : Option HomeInfo → Dict HomeInfo → Dict HomeInfo
note_home none m = m
note_home (some h) m = insert h.home_id h m

unfoldable pub home_table : (Bytes → Bytes → Bytes) → List CloudHome → Dict HomeInfo → Dict HomeInfo
unfolding normalize_home_record
home_table calc [] m = m
home_table calc (home ∷ rest) m =
    home_table calc rest (note_home (normalize_home_record calc home) m)

abbrev note_uid : Bytes → Option HomeInfo → Bytes
note_uid uid none = uid
note_uid uid (some h) = if bytes_eq uid [] then h.uid else uid

-- The first user identifier of a home that is not empty.
unfoldable pub first_uid : (Bytes → Bytes → Bytes) → List CloudHome → Bytes → Bytes
unfolding normalize_home_record
first_uid calc [] uid = uid
first_uid calc (home ∷ rest) uid =
    first_uid calc rest (note_uid uid (normalize_home_record calc home))

unfoldable pub normalize_home_infos :
    (Bytes → Bytes → Bytes) → List CloudHome → List CloudHome → HomeInfos
unfolding home_table first_uid
normalize_home_infos calc homes shared = record {
  uid = first_uid calc homes [];
  home_list = home_table calc homes [];
  share_home_list = home_table calc shared [];
}

unfoldable pub append_unique : List Bytes → List Bytes → List Bytes
unfolding contains
append_unique base [] = base
append_unique base (x ∷ xs) =
    append_unique (if bytes_eq x [] || contains x base then base else base ++ x ∷ []) xs

abbrev or_blank : Option RoomInfo → RoomInfo
or_blank none = record { room_id = []; room_name = []; dids = [] }
or_blank (some r) = r

unfoldable pub merge_room : CloudRoom → RoomInfo → RoomInfo
unfolding append_unique
merge_room room current = record {
  room_id = if bytes_eq current.room_id [] then room.id else current.room_id;
  room_name = if bytes_eq current.room_name [] then room.name else current.room_name;
  dids = append_unique current.dids room.dids;
}

unfoldable pub merge_rooms : List CloudRoom → Dict RoomInfo → Dict RoomInfo
unfolding merge_room
merge_rooms [] rooms = rooms
merge_rooms (room ∷ rest) rooms = merge_rooms rest (
    if bytes_eq room.id []
    then rooms
    else insert room.id (merge_room room (or_blank (lookup room.id rooms))) rooms)

unfoldable pub merge_home_record : CloudHome → HomeInfo → HomeInfo
unfolding append_unique merge_rooms
merge_home_record home dst = record dst {
  dids = append_unique dst.dids home.dids;
  rooms = merge_rooms home.room_list dst.rooms;
}

-- The loops of mergeHomeExtras over one table: a home that is not there is left out.
unfoldable pub merge_extra : CloudHome → Dict HomeInfo → Dict HomeInfo
unfolding merge_home_record
merge_extra home m = elim (lookup home.id m) [
  | none ↦ m
  | some existing ↦ insert home.id (merge_home_record home existing) m
]

unfoldable pub merge_home_extras : List CloudHome → HomeInfos → HomeInfos
unfolding merge_extra
merge_home_extras [] infos = infos
merge_home_extras (home ∷ rest) infos = merge_home_extras rest (record infos {
  home_list = merge_extra home infos.home_list;
  share_home_list = merge_extra home infos.share_home_list;
})
