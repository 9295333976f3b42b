-- ===== src/Cloud/Base/Filter.antt =====
-- cloud.go: the homes and the identifiers that buildHomeDeviceBase collects from the homes wanted.
use go_mihome.Common.{
  ◌≡◌, ◌⊎◌, refl, sym, ap, subst, ◌∙◌, List, [], ◌∷◌, Option, none, some, true, false, arith,
  Bool-cases, Option-cases, inl, inr,
}
use go_mihome.Common.Bytes.{Bytes, bytes_eq}
use go_mihome.Common.Dict.{Dict, insert}
use go_mihome.Miot.Refresh.{contains}
use go_mihome.Cloud.Homes.{HomeInfo, HomeInfos}
use go_mihome.Cloud.Base.{
  collect_home_dids, is_selected, add_homes, build_home_device_base, base_device_by_did, BaseDevice,
  base_in_home, base_in_bucket,
}
use go_mihome.Cloud.Base.Tables.{AreTables}
use go_mihome.Cloud.Base.Found.{is_some, contains-sort, contains-collect, asked-found}
use go_mihome.Cloud.Base.Homely.{
  Holds, Wanted, Lives, contains→In, In→contains, base_in_home_missing, base_in_bucket_found,
}

is_selected-Wanted :
    (wanted : Option (List Bytes)) (home : HomeInfo)
    → is_selected wanted home.home_id ≡ true
    → Wanted wanted home
unfolding is_selected
is_selected-Wanted none home h = tt
is_selected-Wanted (some ids) home h = contains→In home.home_id ids h

Wanted-is_selected :
    (wanted : Option (List Bytes)) (home : HomeInfo)
    → Wanted wanted home
    → is_selected wanted home.home_id ≡ true
unfolding is_selected
Wanted-is_selected none home h = refl
Wanted-is_selected (some ids) home h = In→contains home.home_id ids h

insert-Holds :
    (key : Bytes) (h : HomeInfo) (m : Dict HomeInfo) (home : HomeInfo)
    → Holds (insert key h m) home
    → (h ≡ home) ⊎ Holds m home
unfolding insert
insert-Holds key h [] home at = at
insert-Holds key h ((j, x) ∷ m) home at = elim (Bool-cases (bytes_eq j key)) [
  | inl e ↦
      let now : (h ≡ home) ⊎ Holds m home = rw (e, insert) at at in
      elim now [ inl is ↦ inl is | inr r ↦ inr (inr r) ]
  | inr e ↦
      let now : (x ≡ home) ⊎ Holds (insert key h m) home = rw (e, insert) at at in
      elim now [
        | inl is ↦ inr (inl is)
        | inr r ↦ elim (insert-Holds key h m home r) [ inl is ↦ inl is | inr q ↦ inr (inr q) ]
      ]
]

-- A home of the new table was there before, or it is one of the homes wanted.
add_homes-Holds :
    (wanted : Option (List Bytes)) (homes bucket : Dict HomeInfo) (set : List Bytes)
    (home : HomeInfo)
    → Holds (add_homes wanted homes (bucket, set)).0 home
    → Holds bucket home ⊎ (Holds homes home × Wanted wanted home)
unfolding add_homes
add_homes-Holds wanted [] bucket set home at = inl at
add_homes-Holds wanted ((id, h) ∷ homes) bucket set home at =
    elim (Bool-cases (is_selected wanted h.home_id)) [
      | inr e ↦ elim (add_homes-Holds wanted homes bucket set home (rw (e, add_homes) at at)) [
        | inl old ↦ inl old
        | inr (new, w) ↦ inr (inr new, w)
      ]
      | inl e ↦
          elim (add_homes-Holds wanted homes (insert h.home_id h bucket) (collect_home_dids h set)
            home (rw (e, add_homes) at at)) [
              | inr (new, w) ↦ inr (inr new, w)
              | inl old ↦ elim (insert-Holds h.home_id h bucket home old) [
                | inr older ↦ inl older
                | inl is ↦ inr (inl is, subst (Wanted wanted) is (is_selected-Wanted wanted h e))
              ]
            ]
    ]

-- The set only grows.
add_homes_grows :
    (k : Bytes) (wanted : Option (List Bytes)) (homes bucket : Dict HomeInfo) (set : List Bytes)
    → contains k set ≡ true
    → contains k (add_homes wanted homes (bucket, set)).1 ≡ true
unfolding add_homes
add_homes_grows k wanted [] bucket set h = h
add_homes_grows k wanted ((id, home) ∷ homes) bucket set h =
    elim (Bool-cases (is_selected wanted home.home_id)) [
      | inr e ↦ rw (e, add_homes) (add_homes_grows k wanted homes bucket set h)
      | inl e ↦
          let more : contains k (collect_home_dids home set) ≡ true =
            contains-collect k home set ∙ ground arith in
          rw (e, add_homes)
            (add_homes_grows k wanted homes (insert home.home_id home bucket)
              (collect_home_dids home set) more)
    ]

Lives-is_some : (k : Bytes) (home : HomeInfo) → Lives k home → is_some (base_in_home k home) ≡ true
Lives-is_some k home lives = elim (Option-cases (base_in_home k home)) [
  | inl e ↦ absurd (base_in_home_missing k home e lives)
  | inr (b, e) ↦ rw e refl
]

-- A device of a home that is wanted gets into the set.
add_homes_gets :
    (k : Bytes) (wanted : Option (List Bytes)) (homes bucket : Dict HomeInfo) (set : List Bytes)
    (home : HomeInfo)
    → Holds homes home
    → Wanted wanted home
    → Lives k home
    → contains k (add_homes wanted homes (bucket, set)).1 ≡ true
unfolding add_homes
add_homes_gets k wanted [] bucket set home at w lives = absurd at
add_homes_gets k wanted ((id, h) ∷ homes) bucket set home (inl is) w lives =
    let e = Wanted-is_selected wanted h (subst (Wanted wanted) (sym is) w) in
    let own = Lives-is_some k h (subst (Lives k) (sym is) lives) in
    let more : contains k (collect_home_dids h set) ≡ true =
      contains-collect k h set ∙ ground arith in
    rw (e, add_homes)
      (add_homes_grows k wanted homes (insert h.home_id h bucket) (collect_home_dids h set) more)
add_homes_gets k wanted ((id, h) ∷ homes) bucket set home (inr at) w lives =
    elim (Bool-cases (is_selected wanted h.home_id)) [
      | inr e ↦ rw (e, add_homes) (add_homes_gets k wanted homes bucket set home at w lives)
      | inl e ↦
          rw (e, add_homes)
            (add_homes_gets k wanted homes (insert h.home_id h bucket) (collect_home_dids h set)
              home at w lives)
    ]

-- The homes of the account, own and shared.
abbrev pub AccountHolds : HomeInfos → HomeInfo → Type 0
AccountHolds infos home = Holds infos.home_list home ⊎ Holds infos.share_home_list home

-- What is found of a device is in a home of the account that is wanted.
pub base_found :
    (k : Bytes) (wanted : Option (List Bytes)) (infos : HomeInfos) (base : BaseDevice)
    → base_device_by_did k (build_home_device_base wanted infos) ≡ some base
    → (home : HomeInfo) × AccountHolds infos home
      × Wanted wanted home
      × (base_in_home k home ≡ some base)
unfolding base_device_by_did build_home_device_base base_in_bucket
base_found k wanted infos base h =
    let (homes, set) = add_homes wanted infos.home_list ([], []) in
    let (others, all) = add_homes wanted infos.share_home_list ([], set) in
    elim (Option-cases (base_in_bucket k homes)) [
      | inr (b, e) ↦
          let is : some b ≡ some base = rw (e, base_device_by_did) at h in
          let (home, at, found) = base_in_bucket_found k base homes (ground arith) in
          elim (add_homes-Holds wanted infos.home_list [] [] home at) [
            | inl old ↦ absurd old
            | inr (own, w) ↦ (home, inl own, w, found)
          ]
      | inl e ↦ elim (Option-cases (base_in_bucket k others)) [
        | inr (b, f) ↦
            let is : some b ≡ some base = rw (e, f, base_device_by_did) at h in
            let (home, at, found) = base_in_bucket_found k base others (ground arith) in
            elim (add_homes-Holds wanted infos.share_home_list [] set home at) [
              | inl old ↦ absurd old
              | inr (own, w) ↦ (home, inr own, w, found)
            ]
        | inl f ↦
            let no : none ≡ some base = rw (e, f, base_device_by_did) at h in absurd (ground arith)
      ]
    ]

-- A device of which nothing is found is in no home that is wanted.
pub base_missing :
    (k : Bytes) (wanted : Option (List Bytes)) (infos : HomeInfos) (home : HomeInfo)
    → AreTables infos
    → base_device_by_did k (build_home_device_base wanted infos) ≡ none
    → ¬ (AccountHolds infos home × Wanted wanted home × Lives k home)
unfolding build_home_device_base
base_missing k wanted infos home tables h (at, w, lives) =
    let (homes, set) = add_homes wanted infos.home_list ([], []) in
    let (others, all) = add_homes wanted infos.share_home_list ([], set) in
    let not_asked = asked-found k wanted infos tables ∙ ap is_some h in
    let in_all : contains k all ≡ true = elim at [
      | inl own ↦
          add_homes_grows k wanted infos.share_home_list [] set
            (add_homes_gets k wanted infos.home_list [] [] home own w lives)
      | inr shared ↦ add_homes_gets k wanted infos.share_home_list [] set home shared w lives
    ] in
    let no : false ≡ true = sym not_asked ∙ contains-sort k all ∙ in_all in absurd (ground arith)
