-- ===== src/Cloud/Base/Listed.antt =====
-- cloud.go: the devices of the homes of the account, as GetDevices lists them.
use go_mihome.Common.{
  ℕ, ◌≡◌, ◌≢◌, refl, sym, subst, ap, ◌∙◌, List, [], ◌∷◌, Option, none, some, Bool, true, false,
  ◌&&◌, not, arith, if◌then◌else◌, Bool-cases, Option-cases, inl, inr,
}
use go_mihome.Common.Result.{ok}
use go_mihome.Common.Bytes.{Bytes, bytes_eq, bytes_eq_iff}
use go_mihome.Common.Dict.{Dict, lookup}
use go_mihome.Miot.Entry.{DeviceInfo}
use go_mihome.Miot.Refresh.{by_did}
use go_mihome.Cloud.Homes.{HomeInfo, HomeInfos, CloudHome, normalize_home_infos, merge_home_extras}
use go_mihome.Cloud.Pages.{Fetch}
use go_mihome.Cloud.Pages.Laws.{Serves, details_found}
use go_mihome.Cloud.Base.{
  HomeBase, build_home_device_base, BaseDevice, base_device_by_did, with_base, place, place_devices,
  placed, own_devices,
}
use go_mihome.Cloud.Base.Tables.{AreTables, homes-AreTables}
use go_mihome.Cloud.Base.Found.{is_some, asked-found}
use go_mihome.Cloud.Base.Homely.{Wanted, Lives, Placed, base_in_home-Placed}
use go_mihome.Cloud.Base.Filter.{AccountHolds, base_found, base_missing}

-- A device of the account with its home, if it has one.
abbrev pub at_home : Option BaseDevice → Option DeviceInfo → Option DeviceInfo
at_home none o = none
at_home (some base) none = none
at_home (some base) (some detail) = some (with_base detail base)

lookup-place :
    (k did : Bytes) (detail : DeviceInfo) (o : Option BaseDevice) (rest : Dict DeviceInfo)
    → lookup k (place did detail o rest)
      ≡ (if bytes_eq did k && is_some o then at_home o (some detail) else lookup k rest)
unfolding lookup
lookup-place k did detail none rest = ground arith
lookup-place k did detail (some base) rest = ground arith

lookup-place_devices :
    (k : Bytes) (b : HomeBase) (m : Dict DeviceInfo)
    → lookup k (place_devices b m) ≡ at_home (base_device_by_did k b) (lookup k m)
unfolding place_devices lookup
lookup-place_devices k b [] = nothing (base_device_by_did k b)
  where
    nothing : (o : Option BaseDevice) → none ≡ at_home o none
    nothing none = refl
    nothing (some base) = refl
lookup-place_devices k b ((did, detail) ∷ m) =
    lookup-place k did detail (base_device_by_did did b) (place_devices b m)
    ∙ elim (Bool-cases (bytes_eq did k)) [
      | inr other ↦ rw other (lookup-place_devices k b m)
      | inl same ↦
          ap
            (λ x.
              if bytes_eq did k && is_some (base_device_by_did x b)
              then at_home (base_device_by_did x b) (some detail)
              else lookup k (place_devices b m))
            ((bytes_eq_iff did k).0 same)
          ∙ rw same (
              ap
                (λ o.
                  if is_some (base_device_by_did k b)
                  then at_home (base_device_by_did k b) (some detail)
                  else o)
                (lookup-place_devices k b m)
              ∙ own (base_device_by_did k b) (lookup k m))
    ]
  where
    own :
        (o : Option BaseDevice) (p : Option DeviceInfo)
        → (if is_some o then at_home o (some detail) else at_home o p) ≡ at_home o (some detail)
    own none p = refl
    own (some base) p = refl

-- What is listed, by what is found of each device.
own_devices_base :
    (calc : Bytes → Bytes → Bytes) (homes shared extras : List CloudHome)
    (wanted : Option (List Bytes)) (fetch : Fetch) (account : Dict DeviceInfo) (fuel : ℕ)
    → Serves fetch account fuel
    → let infos = merge_home_extras extras (normalize_home_infos calc homes shared) in
      (devices : Dict DeviceInfo) × (own_devices fetch fuel wanted infos ≡ some (ok devices))
      × ((did : Bytes)
          → lookup did devices ≡ (
              if bytes_eq did []
              then none
              else at_home
                  (base_device_by_did did (build_home_device_base wanted infos))
                  (lookup did account)))
unfolding own_devices
own_devices_base calc homes shared extras wanted fetch account fuel server =
    let infos = merge_home_extras extras (normalize_home_infos calc homes shared) in
    let b = build_home_device_base wanted infos in
    let (out, got, right) = details_found fetch account fuel b.dids server in
    (
      place_devices b (by_did out []),
      ap (placed b) got,
      λ did.
          lookup-place_devices did b (by_did out [])
          ∙ ap (at_home (base_device_by_did did b)) (
              right did
              ∙ ap (λ c. if c && not (bytes_eq did []) then lookup did account else none)
                  (asked-found did wanted infos (homes-AreTables calc homes shared extras)))
          ∙ asked (base_device_by_did did b) (bytes_eq did []) (lookup did account),
    )
  where
    asked :
        (o : Option BaseDevice) (empty : Bool) (p : Option DeviceInfo)
        → at_home o (if is_some o && not empty then p else none)
          ≡ (if empty then none else at_home o p)
    asked none true p = refl
    asked none false p = refl
    asked (some base) true p = refl
    asked (some base) false p = refl

-- What GetDevices has under an identifier: nothing if it is empty, if the account has no device of it, or if
-- the device is in no home that is wanted; or else the device of the account with a home that is wanted and
-- that has it.
pub data Listing (wanted : Option (List Bytes)) (infos : HomeInfos) (account : Dict DeviceInfo)
    (did : Bytes) : Option DeviceInfo → Type 0 where
  unnamed : did ≡ [] → Listing wanted infos account did none
  unknown : lookup did account ≡ none → Listing wanted infos account did none
  homeless :
      ((home : HomeInfo) → ¬ (AccountHolds infos home × Wanted wanted home × Lives did home))
      → Listing wanted infos account did none
  listed :
      (detail d : DeviceInfo) (home : HomeInfo)
      → did ≢ []
      → lookup did account ≡ some detail
      → AccountHolds infos home
      → Wanted wanted home
      → Placed did home detail d
      → Listing wanted infos account did (some d)

found-Listing :
    (wanted : Option (List Bytes)) (infos : HomeInfos) (account : Dict DeviceInfo) (did : Bytes)
    → AreTables infos
    → Listing wanted infos account did (
        if bytes_eq did []
        then none
        else at_home
            (base_device_by_did did (build_home_device_base wanted infos))
            (lookup did account))
found-Listing wanted infos account did tables = elim (Bool-cases (bytes_eq did [])) [
  | inl e ↦ rw e (unnamed ((bytes_eq_iff did []).0 e))
  | inr e ↦ elim (Option-cases (base_device_by_did did (build_home_device_base wanted infos))) [
    | inl none_found ↦
        rw (e, none_found) (homeless (λ home. base_missing did wanted infos home tables none_found))
    | inr (base, found) ↦ elim (Option-cases (lookup did account)) [
      | inl absent ↦ rw (e, found, absent) (unknown absent)
      | inr (detail, has) ↦
          let (home, at, w, is) = base_found did wanted infos base found in
          rw (e, found, has)
            (listed detail (with_base detail base) home (ground (arith, bytes_eq_iff did [])) has at
              w (base_in_home-Placed did home base detail is))
    ]
  ]
]

-- If the cloud serves the devices of the account, GetDevices returns, before it adds the shared devices,
-- exactly the devices of the account that are in a room or a home of the homes wanted: a device listed is the
-- one of the account with the identifiers, the names and the group of such a home and of a room of it that
-- lists the device, or of the home where none of its rooms does, its other fields unchanged; and an identifier
-- is missing only if it is empty, if the account has no device of it, or if no home that is wanted has it. Of
-- a device in more than one home it is not said which home is taken.
pub own_devices_listed :
    (calc : Bytes → Bytes → Bytes) (homes shared extras : List CloudHome)
    (wanted : Option (List Bytes)) (fetch : Fetch) (account : Dict DeviceInfo) (fuel : ℕ)
    → Serves fetch account fuel
    → let infos = merge_home_extras extras (normalize_home_infos calc homes shared) in
      (devices : Dict DeviceInfo) × (own_devices fetch fuel wanted infos ≡ some (ok devices))
      × ((did : Bytes) → Listing wanted infos account did (lookup did devices))
own_devices_listed calc homes shared extras wanted fetch account fuel server =
    let infos = merge_home_extras extras (normalize_home_infos calc homes shared) in
    let (devices, got, found) =
      own_devices_base calc homes shared extras wanted fetch account fuel server in
    (
      devices,
      got,
      λ did.
          subst (Listing wanted infos account did) (sym (found did))
            (found-Listing wanted infos account did (homes-AreTables calc homes shared extras)),
    )
