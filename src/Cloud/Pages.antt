-- ===== src/Cloud/Pages.antt =====
-- cloud.go: the devices of the account are fetched in chunks of identifiers, and each chunk page by page. A
-- page is what fetchDeviceListPage returns: the devices, whether there are more, and where they start.
pub mod Laws
use go_mihome.Common.{
  ℕ, zero, suc, List, [], ◌∷◌, ◌++◌, Option, none, some, Bool, true, false, ◌||◌, not,
  if◌then◌else◌, length, take, drop,
}
use go_mihome.Common.Result.{Result, ok, err}
use go_mihome.Common.Bytes.{Bytes, bytes_eq}
use go_mihome.Miot.Entry.{DeviceInfo}
use go_mihome.Miot.Refresh.{unique_strings}

abbrev pub cloud_device_chunk_size : ℕ
cloud_device_chunk_size = 150

abbrev pub Fetch : Type 0
Fetch = List Bytes → Bytes → Result (List DeviceInfo × Bool × Bytes)

-- The devices fetched, an error, or none if the fuel has run out.
abbrev pub Fetched : Type 0
Fetched = Option (Result (List DeviceInfo))

abbrev pub append_to : List DeviceInfo → Fetched → Fetched
append_to page none = none
append_to page (some (err e)) = some (err e)
append_to page (some (ok rest)) = some (ok (page ++ rest))

-- The inner loop: the pages of a chunk from a cursor on.
unfoldable pub fetch_pages : Fetch → List Bytes → ℕ → Bytes → Fetched
fetch_pages fetch chunk zero cursor = none
fetch_pages fetch chunk (suc n) cursor = elim (fetch chunk cursor) [
  | err e ↦ some (err e)
  | ok (page, has_more, next) ↦
      if not has_more || bytes_eq next []
      then some (ok page)
      else append_to page (fetch_pages fetch chunk n next)
]

-- The chunks; the length of the list is enough fuel.
unfoldable pub chunks : ℕ → List Bytes → List (List Bytes)
chunks n [] = []
chunks zero (did ∷ dids) = []
chunks (suc n) (did ∷ dids) =
    take cloud_device_chunk_size (did ∷ dids) ∷ chunks n (drop cloud_device_chunk_size (did ∷ dids))

-- The outer loop.
unfoldable pub fetch_chunks : Fetch → ℕ → List (List Bytes) → Fetched
unfolding fetch_pages
fetch_chunks fetch fuel [] = some (ok [])
fetch_chunks fetch fuel (chunk ∷ rest) = elim (fetch_pages fetch chunk fuel []) [
  | none ↦ none
  | some r ↦ elim r [
    | err e ↦ some (err e)
    | ok page ↦ append_to page (fetch_chunks fetch fuel rest)
  ]
]

-- GetDevicesByDID, with fuel for the pages of each chunk.
unfoldable pub get_devices_by_did : Fetch → ℕ → List Bytes → Fetched
unfolding fetch_chunks chunks unique_strings
get_devices_by_did fetch fuel dids =
    let unique = unique_strings dids [] in fetch_chunks fetch fuel (chunks (length unique) unique)
