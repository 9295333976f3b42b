-- ===== src/Tests/Cloud.antt =====
-- An account with a lamp in the kitchen of its home.
use go_mihome.Common.{
  ◌≡◌, refl, List, [], ◌∷◌, Option, none, some, Bool, true, false, ◌&&◌, not, if◌then◌else◌, arith,
  Bool-cases, inl, inr, subst,
}
use go_mihome.Common.Int.{pos}
use go_mihome.Common.Result.{ok}
use go_mihome.Common.Bytes.{Bytes, bytes_eq, bytes_eq_iff, codes}
use go_mihome.Common.Dict.{Dict, lookup, insert}
use go_mihome.Miot.Entry.{DeviceInfo}
use go_mihome.Miot.Refresh.{contains, by_did}
use go_mihome.Cloud.Pages.{Fetch, get_devices_by_did}
use go_mihome.Cloud.Pages.Laws.{Pages, Serves, details_found}
use go_mihome.Cloud.Homes.{CloudHome, normalize_home_infos, merge_home_extras}
use go_mihome.Cloud.Base.{own_devices}
use go_mihome.Cloud.Base.Listed.{Listing, own_devices_listed}

abbrev lamp : DeviceInfo
lamp = record {
  did = codes "42";
  name = codes "lamp";
  urn = [];
  model = [];
  connect_type = pos 8;
  token = [];
  is_online = true;
  home_id = [];
  home_name = [];
  room_id = [];
  room_name = [];
  group_id = [];
  other = [];
}

abbrev account : Dict DeviceInfo
account = (codes "42", lamp) ∷ []

abbrev listing : List Bytes → List DeviceInfo
listing chunk = if contains (codes "42") chunk then lamp ∷ [] else []

-- The first page is empty, the second one has the devices.
abbrev two_pages : Fetch
two_pages chunk [] = ok ([], true, codes "next")
two_pages chunk (c ∷ cs) = ok (listing chunk, false, [])

abbrev nothing : Option DeviceInfo
nothing = none

same_branch : (b : Bool) → nothing ≡ (if b then nothing else nothing)
same_branch true = refl
same_branch false = refl

listing-own :
    (chunk : List Bytes)
    → lookup (codes "42") (by_did (listing chunk) [])
      ≡ (if contains (codes "42") chunk then lookup (codes "42") account else none)
unfolding lookup insert bytes_eq
listing-own chunk = elim (Bool-cases (contains (codes "42") chunk)) [
  | inl has ↦ rw has
  | inr lacks ↦ rw lacks
]

listing-right :
    (chunk : List Bytes) (did : Bytes)
    → lookup did (by_did (listing chunk) [])
      ≡ (if contains did chunk then lookup did account else none)
unfolding lookup insert
listing-right chunk did = elim (Bool-cases (bytes_eq (codes "42") did)) [
  | inl same ↦
      subst
        (λ d.
          lookup d (by_did (listing chunk) [])
          ≡ (if contains d chunk then lookup d account else none))
        ((bytes_eq_iff (codes "42") did).0 same) (listing-own chunk)
  | inr other ↦ elim (Bool-cases (contains (codes "42") chunk)) [
    | inl has ↦ rw (has, other) (same_branch (contains did chunk))
    | inr lacks ↦ rw (lacks, other) (same_branch (contains did chunk))
  ]
]

service : Serves two_pages account 2
unfolding bytes_eq
service = record {
  count = λ chunk. 2;
  answer = listing;
  few = λ chunk. omega arith;
  paged = λ chunk h.
      Pages.more_pages 1 [] (codes "next") [] (listing chunk) true refl refl
        (Pages.last_page (codes "next") [] (listing chunk) false refl refl);
  right = listing-right;
}

details_found_example :
    (out : List DeviceInfo) × (get_devices_by_did two_pages 2 (codes "42" ∷ codes "7" ∷ [])
      ≡ some (ok out))
    × ((did : Bytes)
        → lookup did (by_did out []) ≡ (
            if contains did (codes "42" ∷ codes "7" ∷ []) && not (bytes_eq did [])
            then lookup did account
            else none))
details_found_example = details_found two_pages account 2 (codes "42" ∷ codes "7" ∷ []) service

-- A home with a kitchen, in which the lamp is.
abbrev house : CloudHome
house = record {
  id = codes "1";
  uid = pos 5;
  name = codes "home";
  dids = [];
  room_list = record { id = codes "2"; name = codes "kitchen"; dids = codes "42" ∷ [] } ∷ [];
  other = [];
}

own_devices_listed_example :
    let infos = merge_home_extras [] (normalize_home_infos (λ u h. h) (house ∷ []) []) in
    (devices : Dict DeviceInfo) × (own_devices two_pages 2 (some (codes "1" ∷ [])) infos
      ≡ some (ok devices))
    × ((did : Bytes) → Listing (some (codes "1" ∷ [])) infos account did (lookup did devices))
own_devices_listed_example =
    own_devices_listed (λ u h. h) (house ∷ []) [] [] (some (codes "1" ∷ [])) two_pages account 2
      service
