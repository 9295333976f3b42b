-- ===== src/Cloud/Base/Found.antt =====
-- cloud.go: the identifiers that GetDevices asks for, and the devices that have a home.
use go_mihome.Common.{
  ◌≡◌, refl, sym, ap, ◌∙◌, List, [], ◌∷◌, Option, none, some, Bool, true, false, ◌||◌, arith,
  if◌then◌else◌, Bool-cases, inl, inr,
}
use go_mihome.Common.Bytes.{Bytes, bytes_eq, bytes_eq_iff}
use go_mihome.Common.Dict.{Dict, lookup, insert, lookup-insert}
use go_mihome.Miot.Refresh.{contains}
use go_mihome.Cloud.Homes.{RoomInfo, HomeInfo, HomeInfos}
use go_mihome.Cloud.Base.{
  add_dids, add_rooms, collect_home_dids, is_selected, add_homes, sort_into, sort_strings,
  build_home_device_base, BaseDevice, room_of, in_room, or_else, base_in_home, base_in_bucket,
  base_device_by_did,
}
use go_mihome.Cloud.Base.Tables.{IsTable, AreTables, differs_flip}

abbrev pub is_some {ℓ} : {A : Type ℓ} → Option A → Bool
is_some none = false
is_some (some a) = true

contains-sort_into :
    (k x : Bytes) (xs : List Bytes) → contains k (sort_into x xs) ≡ contains k (x ∷ xs)
unfolding sort_into contains
contains-sort_into k x [] = refl
contains-sort_into k x (y ∷ ys) = ground (arith, contains-sort_into k x ys)

pub contains-sort : (k : Bytes) (xs : List Bytes) → contains k (sort_strings xs) ≡ contains k xs
unfolding sort_strings contains
contains-sort k [] = refl
contains-sort k (x ∷ xs) =
    contains-sort_into k x (sort_strings xs) ∙ ground (arith, contains-sort k xs)

contains-add_dids :
    (k : Bytes) (dids set : List Bytes)
    → contains k (add_dids dids set) ≡ (contains k dids || contains k set)
unfolding add_dids contains
contains-add_dids k [] set = refl
contains-add_dids k (d ∷ ds) set =
    ground (arith, bytes_eq_iff d k, contains-add_dids k ds set, contains-add_dids k ds (d ∷ set))

contains-add_rooms :
    (k : Bytes) (rooms : Dict RoomInfo) (set : List Bytes)
    → contains k (add_rooms rooms set) ≡ (is_some (room_of k rooms) || contains k set)
unfolding add_rooms room_of
contains-add_rooms k [] set = refl
contains-add_rooms k ((id, room) ∷ rooms) set =
    contains-add_rooms k rooms (add_dids room.dids set)
    ∙ ap (λ b. is_some (room_of k rooms) || b) (contains-add_dids k room.dids set)
    ∙ split (contains k room.dids) (contains k set) (room_of k rooms)
  where
    split :
        (b c : Bool) (o : Option (Bytes × Bytes))
        → (is_some o || (b || c)) ≡ (is_some (if b then some (id, room.room_name) else o) || c)
    split true c none = refl
    split true c (some r) = refl
    split false c none = refl
    split false c (some r) = refl

pub contains-collect :
    (k : Bytes) (home : HomeInfo) (set : List Bytes)
    → contains k (collect_home_dids home set) ≡ (is_some (base_in_home k home) || contains k set)
unfolding collect_home_dids base_in_home
contains-collect k home set =
    contains-add_rooms k home.rooms (add_dids home.dids set)
    ∙ ap (λ b. is_some (room_of k home.rooms) || b) (contains-add_dids k home.dids set)
    ∙ split (contains k home.dids) (contains k set) (room_of k home.rooms)
  where
    split :
        (b c : Bool) (o : Option (Bytes × Bytes))
        → (is_some o || (b || c)) ≡ (
            is_some (
              or_else
                (in_room home o)
                (if b then in_room home (some (home.home_id, home.home_name)) else none))
            || c)
    split true c none = refl
    split true c (some r) = refl
    split false c none = refl
    split false c (some r) = refl

found : Bytes → Dict HomeInfo → Bool
found k bucket = is_some (base_in_bucket k bucket)

or_else-is_some : {A : Type 0} (a b : Option A) → is_some (or_else a b) ≡ (is_some a || is_some b)
or_else-is_some none b = refl
or_else-is_some (some x) b = refl

-- A home that is new in a table adds its devices.
found-insert :
    (k id : Bytes) (h : HomeInfo) (bucket : Dict HomeInfo)
    → lookup id bucket ≡ none
    → found k (insert id h bucket) ≡ (is_some (base_in_home k h) || found k bucket)
unfolding base_in_bucket insert lookup found
found-insert k id h [] new = or_else-is_some (base_in_home k h) none
found-insert k id h ((j, x) ∷ rest) new = elim (Bool-cases (bytes_eq j id)) [
  | inl same ↦ absurd (ground (arith, rw same at new))
  | inr other ↦
      let later = found-insert k id h rest (rw other at new) in
      rw other (
        or_else-is_some (base_in_home k x) (base_in_bucket k (insert id h rest))
        ∙ ap (λ b. is_some (base_in_home k x) || b) later
        ∙ swap (is_some (base_in_home k x)) (is_some (base_in_home k h)) (base_in_bucket k rest)
        ∙ ap (λ b. is_some (base_in_home k h) || b)
            (sym (or_else-is_some (base_in_home k x) (base_in_bucket k rest))))
]
  where
    swap : (a b : Bool) (o : Option BaseDevice) → (a || (b || is_some o)) ≡ (b || (a || is_some o))
    swap true true o = refl
    swap true false o = refl
    swap false true o = refl
    swap false false o = refl

-- None of the homes is in the bucket.
AreNew : Dict HomeInfo → Dict HomeInfo → Type 0
AreNew [] bucket = Unit
AreNew ((id, h) ∷ homes) bucket = (lookup id bucket ≡ none) × AreNew homes bucket

AreNew-empty : (homes : Dict HomeInfo) → AreNew homes []
unfolding AreNew lookup
AreNew-empty [] = tt
AreNew-empty ((id, h) ∷ homes) = (refl, AreNew-empty homes)

AreNew-insert :
    (id : Bytes) (h : HomeInfo) (homes bucket : Dict HomeInfo)
    → lookup id homes ≡ none
    → AreNew homes bucket
    → AreNew homes (insert id h bucket)
unfolding AreNew lookup
AreNew-insert id h [] bucket absent new = tt
AreNew-insert id h ((j, x) ∷ homes) bucket absent (fresh, new) = elim (Bool-cases (bytes_eq j id)) [
  | inl same ↦ absurd (ground (arith, rw same at absent))
  | inr other ↦ (
    lookup-insert id j h bucket ∙ rw (differs_flip j id other) fresh,
    AreNew-insert id h homes bucket (rw other at absent) new,
  )
]

-- What a loop of addHome leaves: the set has grown by the devices that the bucket has got.
add_homes-found :
    (k : Bytes) (wanted : Option (List Bytes)) (before : Bool) (homes bucket : Dict HomeInfo)
    (set : List Bytes)
    → IsTable homes
    → AreNew homes bucket
    → contains k set ≡ (found k bucket || before)
    → let (b, s) = add_homes wanted homes (bucket, set) in contains k s ≡ (found k b || before)
unfolding add_homes IsTable AreNew
add_homes-found k wanted before [] bucket set t new h = h
add_homes-found k wanted before ((id, home) ∷ homes) bucket set (mine, once, t) (fresh, new) h =
    elim (Bool-cases (is_selected wanted home.home_id)) [
      | inr out ↦ rw (out, add_homes) (add_homes-found k wanted before homes bucket set t new h)
      | inl taken ↦
          let own : lookup home.home_id bucket ≡ none = ap (λ j. lookup j bucket) mine ∙ fresh in
          let absent : lookup home.home_id homes ≡ none = ap (λ j. lookup j homes) mine ∙ once in
          rw (taken, add_homes)
            (add_homes-found k wanted before homes (insert home.home_id home bucket)
              (collect_home_dids home set) t
              (AreNew-insert home.home_id home homes bucket absent new)
              (contains-collect k home set
                ∙ ap (λ b. is_some (base_in_home k home) || b) h
                ∙ assoc (is_some (base_in_home k home)) (found k bucket)
                ∙ ap (λ b. b || before) (sym (found-insert k home.home_id home bucket own))))
    ]
  where
    assoc : (a b : Bool) → (a || (b || before)) ≡ ((a || b) || before)
    assoc true b = refl
    assoc false b = refl

-- An identifier is asked for exactly if it has a home.
pub asked-found :
    (k : Bytes) (wanted : Option (List Bytes)) (infos : HomeInfos)
    → AreTables infos
    → let b = build_home_device_base wanted infos in
      contains k b.dids ≡ is_some (base_device_by_did k b)
unfolding build_home_device_base base_device_by_did base_in_bucket found contains
asked-found k wanted infos (own, shared) =
    let (homes, set) = add_homes wanted infos.home_list ([], []) in
    let (others, all) = add_homes wanted infos.share_home_list ([], set) in
    let first : contains k set ≡ (found k homes || false) =
      add_homes-found k wanted false infos.home_list [] [] own (AreNew-empty infos.home_list)
        refl in
    let second : contains k all ≡ (found k others || contains k set) =
      add_homes-found k wanted (contains k set) infos.share_home_list [] set shared
        (AreNew-empty infos.share_home_list) refl in
    contains-sort k all
    ∙ second
    ∙ ap (λ b. found k others || b) first
    ∙ ends (base_in_bucket k homes) (base_in_bucket k others)
  where
    ends :
        (o p : Option BaseDevice)
        → (is_some p || (is_some o || false)) ≡ is_some (or_else o (or_else p none))
    ends none none = refl
    ends none (some b) = refl
    ends (some a) none = refl
    ends (some a) (some b) = refl
