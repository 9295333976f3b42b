-- ===== src/Cloud/Base/Homely.antt =====
-- cloud.go: where a device is by the homes of the account, and what baseDeviceByDID finds of it.
use go_mihome.Common.{
  ◌≡◌, ◌⊎◌, refl, sym, ap, subst, List, [], ◌∷◌, Option, none, some, true, arith, Bool-cases,
  Option-cases, inl, inr,
}
use go_mihome.Common.Bytes.{Bytes, bytes_eq, bytes_eq_iff}
use go_mihome.Common.Dict.{Dict}
use go_mihome.Miot.Entry.{DeviceInfo}
use go_mihome.Miot.Refresh.{contains}
use go_mihome.Cloud.Homes.{RoomInfo, HomeInfo}
use go_mihome.Cloud.Base.{BaseDevice, room_of, in_room, base_in_home, base_in_bucket, with_base}

-- Membership.
abbrev pub In : {A : Type 0} → A → List A → Type 0
In x [] = ⊥
In x (y ∷ ys) = (y ≡ x) ⊎ In x ys

-- The homes of a table.
abbrev pub Holds : Dict HomeInfo → HomeInfo → Type 0
Holds [] home = ⊥
Holds ((id, h) ∷ m) home = (h ≡ home) ⊎ Holds m home

-- The home passes the filter.
abbrev pub Wanted : Option (List Bytes) → HomeInfo → Type 0
Wanted none home = Unit
Wanted (some ids) home = In home.home_id ids

abbrev pub InRoom : Bytes → Dict RoomInfo → Type 0
InRoom did rooms = (id : Bytes) × (room : RoomInfo) × In (id, room) rooms × In did room.dids

-- A device is in a home if a room of the home or the home itself lists it.
abbrev pub Lives : Bytes → HomeInfo → Type 0
Lives did home = InRoom did home.rooms ⊎ In did home.dids

-- The device d is the detail with the home, and with a room of the home that lists the device or, where no
-- room does but the home, with the home as its room.
pub record Placed (did : Bytes) (home : HomeInfo) (detail d : DeviceInfo) : Type 0 where
  pub home_id : d.home_id ≡ home.home_id
  pub home_name : d.home_name ≡ home.home_name
  pub group_id : d.group_id ≡ home.group_id
  pub room :
      ((id : Bytes) × (room : RoomInfo) × In (id, room) home.rooms
        × In did room.dids
        × (d.room_id ≡ id)
        × (d.room_name ≡ room.room_name))
      ⊎ (¬ InRoom did home.rooms
          × In did home.dids
          × (d.room_id ≡ home.home_id)
          × (d.room_name ≡ home.home_name))
  pub others :
      record d {
        home_id = detail.home_id;
        home_name = detail.home_name;
        room_id = detail.room_id;
        room_name = detail.room_name;
        group_id = detail.group_id;
      }
      ≡ detail

pub contains→In : (did : Bytes) (xs : List Bytes) → contains did xs ≡ true → In did xs
unfolding contains
contains→In did [] h = absurd (ground arith)
contains→In did (x ∷ xs) h = elim (Bool-cases (bytes_eq x did)) [
  | inl e ↦ inl ((bytes_eq_iff x did).0 e)
  | inr e ↦ inr (contains→In did xs (rw (e, contains) at h))
]

pub In→contains : (did : Bytes) (xs : List Bytes) → In did xs → contains did xs ≡ true
unfolding contains
In→contains did [] h = absurd h
In→contains did (x ∷ xs) (inl e) = rw ((bytes_eq_iff x did).1 e) refl
In→contains did (x ∷ xs) (inr h) = ground (arith, In→contains did xs h)

room_of_found :
    (did id name : Bytes) (rooms : Dict RoomInfo)
    → room_of did rooms ≡ some (id, name)
    → (room : RoomInfo) × In (id, room) rooms × In did room.dids × (name ≡ room.room_name)
unfolding room_of
room_of_found did id name [] h = absurd (ground arith)
room_of_found did id name ((j, room) ∷ rooms) h = elim (Bool-cases (contains did room.dids)) [
  | inl e ↦
      let is : some (j, room.room_name) ≡ some (id, name) = rw (e, room_of) at h in
      let same : j ≡ id = ground arith in
      (room, inl (ap (λ x. (x, room)) same), contains→In did room.dids e, ground arith)
  | inr e ↦
      let (r, at, has, is) = room_of_found did id name rooms (rw (e, room_of) at h) in
      (r, inr at, has, is)
]

-- A room that lists the device is found, or another one.
room_of_missing :
    (did : Bytes) (rooms : Dict RoomInfo) → room_of did rooms ≡ none → ¬ InRoom did rooms
unfolding room_of
room_of_missing did [] h (id, room, at, has) = absurd at
room_of_missing did ((j, x) ∷ rooms) h (id, room, inl e, has) =
    let same : x ≡ room = ap (λ p. p.1) e in
    let listed : contains did x.dids ≡ true =
      In→contains did x.dids (subst (λ r. In did r.dids) (sym same) has) in
    let no : some (j, x.room_name) ≡ none = rw (listed, room_of) at h in absurd (ground arith)
room_of_missing did ((j, x) ∷ rooms) h (id, room, inr at, has) =
    elim (Bool-cases (contains did x.dids)) [
      | inl e ↦
          let no : some (j, x.room_name) ≡ none = rw (e, room_of) at h in absurd (ground arith)
      | inr e ↦ room_of_missing did rooms (rw (e, room_of) at h) (id, room, at, has)
    ]

pub base_in_home-Placed :
    (did : Bytes) (home : HomeInfo) (base : BaseDevice) (detail : DeviceInfo)
    → base_in_home did home ≡ some base
    → Placed did home detail (with_base detail base)
unfolding base_in_home
base_in_home-Placed did home base detail h = elim (Option-cases (room_of did home.rooms)) [
  | inr ((id, name), e) ↦
      let (room, at, has, is) = room_of_found did id name home.rooms e in
      let own : in_room home (some (id, name)) ≡ some base = rw (e, base_in_home) at h in
      record {
        home_id = ground arith;
        home_name = ground arith;
        group_id = ground arith;
        room = inl (id, room, at, has, ground arith, ground arith);
        others = refl;
      }
  | inl e ↦ elim (Bool-cases (contains did home.dids)) [
    | inr c ↦ let no : none ≡ some base = rw (e, c, base_in_home) at h in absurd (ground arith)
    | inl c ↦
        let own : in_room home (some (home.home_id, home.home_name)) ≡ some base =
          rw (e, c, base_in_home) at h in
        record {
          home_id = ground arith;
          home_name = ground arith;
          group_id = ground arith;
          room = inr (
            room_of_missing did home.rooms e,
            contains→In did home.dids c,
            ground arith,
            ground arith,
          );
          others = refl;
        }
  ]
]

pub base_in_home_missing :
    (did : Bytes) (home : HomeInfo) → base_in_home did home ≡ none → ¬ Lives did home
unfolding base_in_home
base_in_home_missing did home h lives = elim (Option-cases (room_of did home.rooms)) [
  | inr (r, e) ↦
      let no : in_room home (some r) ≡ none = rw (e, base_in_home) at h in absurd (ground arith)
  | inl e ↦ elim lives [
    | inl room ↦ room_of_missing did home.rooms e room
    | inr own ↦
        let c = In→contains did home.dids own in
        let no : in_room home (some (home.home_id, home.home_name)) ≡ none =
          rw (e, c, base_in_home) at h in
        absurd (ground arith)
  ]
]

pub base_in_bucket_found :
    (did : Bytes) (base : BaseDevice) (m : Dict HomeInfo)
    → base_in_bucket did m ≡ some base
    → (home : HomeInfo) × Holds m home × (base_in_home did home ≡ some base)
unfolding base_in_bucket
base_in_bucket_found did base [] h = absurd (ground arith)
base_in_bucket_found did base ((id, home) ∷ m) h = elim (Option-cases (base_in_home did home)) [
  | inr (b, e) ↦
      let is : some b ≡ some base = rw (e, base_in_bucket) at h in (home, inl refl, ground arith)
  | inl e ↦
      let (other, at, is) = base_in_bucket_found did base m (rw (e, base_in_bucket) at h) in
      (other, inr at, is)
]
