-- ===== src/Cloud/Pages/Laws.antt =====
-- cloud.go: chunks and pages, and the devices of the account.
use go_mihome.Common.{
  ℕ, zero, suc, ◌≤◌, ◌≡◌, refl, sym, ap, ◌∙◌, List, [], ◌∷◌, ◌++◌, Option, none, some, Bool, true,
  false, ◌&&◌, ◌||◌, not, if◌then◌else◌, length, take, drop, All, arith, take-append-drop,
  length-take, length-drop,
}
use go_mihome.Common.Result.{ok}
use go_mihome.Common.Bytes.{Bytes, bytes_eq, bytes_eq_iff}
use go_mihome.Common.Dict.{Dict, lookup, insert, lookup-insert}
use go_mihome.Miot.Entry.{DeviceInfo}
use go_mihome.Miot.Refresh.{by_did, contains, unique_strings}
use go_mihome.Cloud.Pages.{
  Fetch, Fetched, append_to, fetch_pages, chunks, fetch_chunks, get_devices_by_did,
}

-- From the cursor on the server has n pages for the chunk, with these devices.
pub data Pages (fetch : Fetch) (chunk : List Bytes) : ℕ → Bytes → List DeviceInfo → Type 0 where
  last_page :
      (cursor next : Bytes) (page : List DeviceInfo) (more : Bool)
      → fetch chunk cursor ≡ ok (page, more, next)
      → (not more || bytes_eq next []) ≡ true
      → Pages fetch chunk 1 cursor page
  more_pages :
      (n : ℕ) (cursor next : Bytes) (page rest : List DeviceInfo) (more : Bool)
      → fetch chunk cursor ≡ ok (page, more, next)
      → (not more || bytes_eq next []) ≡ false
      → Pages fetch chunk n next rest
      → Pages fetch chunk (suc n) cursor (page ++ rest)

-- A server that answers each chunk of at most 150 identifiers in at most `fuel` pages, which have the
-- devices of the account with these identifiers and no others.
pub record Serves (fetch : Fetch) (account : Dict DeviceInfo) (fuel : ℕ) : Type 0 where
  pub count : List Bytes → ℕ
  pub answer : List Bytes → List DeviceInfo
  pub few : (chunk : List Bytes) → count chunk ≤ fuel
  pub paged :
      (chunk : List Bytes) → length chunk ≤ 150 → Pages fetch chunk (count chunk) [] (answer chunk)
  pub right :
      (chunk : List Bytes) (did : Bytes)
      → lookup did (by_did (answer chunk) [])
        ≡ (if contains did chunk then lookup did account else none)

Pages-fetched :
    (fetch : Fetch) (chunk : List Bytes) (fuel n : ℕ) (cursor : Bytes) (out : List DeviceInfo)
    → n ≤ fuel
    → Pages fetch chunk n cursor out
    → fetch_pages fetch chunk fuel cursor ≡ some (ok out)
unfolding fetch_pages
Pages-fetched fetch chunk zero n cursor out h (last_page _ next page more f e) =
    absurd (omega arith)
Pages-fetched fetch chunk zero n cursor out h (more_pages m _ next page rest more f e p) =
    absurd (omega arith)
Pages-fetched fetch chunk (suc k) n cursor out h (last_page _ next page more f e) =
    rw (f, fetch_pages) (rw e)
Pages-fetched fetch chunk (suc k) n cursor out h (more_pages m _ next page rest more f e p) =
    rw (f, fetch_pages)
      (rw e (ap (append_to page) (Pages-fetched fetch chunk k m next rest (omega arith) p)))

-- The first of two answers.
abbrev first_of : Option DeviceInfo → Option DeviceInfo → Option DeviceInfo
first_of none o = o
first_of (some i) o = some i

lookup-by_did :
    (did : Bytes) (infos : List DeviceInfo) (m : Dict DeviceInfo)
    → lookup did (by_did infos m) ≡ first_of (lookup did (by_did infos [])) (lookup did m)
unfolding lookup
lookup-by_did did [] m = refl
lookup-by_did did (info ∷ rest) m =
    let later = lookup did (by_did rest []) in
    lookup-by_did did rest (insert info.did info m)
    ∙ ap (first_of later) (lookup-insert info.did did info m)
    ∙ split (bytes_eq info.did did) later
    ∙ ap (λ o. first_of o (lookup did m))
        (sym (
          lookup-by_did did rest (insert info.did info [])
          ∙ ap (first_of later) (lookup-insert info.did did info [])))
  where
    split :
        (b : Bool) (o : Option DeviceInfo)
        → first_of o (if b then some info else lookup did m)
          ≡ first_of (first_of o (if b then some info else none)) (lookup did m)
    split b (some i) = refl
    split true none = refl
    split false none = refl

by_did-append :
    (did : Bytes) (xs ys : List DeviceInfo) (m : Dict DeviceInfo)
    → by_did (xs ++ ys) m ≡ by_did ys (by_did xs m)
by_did-append did [] ys m = refl
by_did-append did (x ∷ xs) ys m = by_did-append did xs ys (insert x.did x m)

lookup-append :
    (did : Bytes) (xs ys : List DeviceInfo)
    → lookup did (by_did (xs ++ ys) [])
      ≡ first_of (lookup did (by_did ys [])) (lookup did (by_did xs []))
lookup-append did xs ys =
    ap (lookup did) (by_did-append did xs ys []) ∙ lookup-by_did did ys (by_did xs [])

-- The identifier is in one of the chunks.
abbrev in_chunks : Bytes → List (List Bytes) → Bool
in_chunks did [] = false
in_chunks did (chunk ∷ rest) = contains did chunk || in_chunks did rest

contains-append :
    (did : Bytes) (xs ys : List Bytes)
    → contains did (xs ++ ys) ≡ (contains did xs || contains did ys)
unfolding contains
contains-append did [] ys = refl
contains-append did (x ∷ xs) ys = ground (arith, contains-append did xs ys)

chunks_sound :
    (did : Bytes) (n : ℕ) (dids : List Bytes)
    → length dids ≤ n
    → (in_chunks did (chunks n dids) ≡ contains did dids)
      × All (λ c. length c ≤ 150) (chunks n dids)
unfolding chunks contains
chunks_sound did n [] h = (refl, tt)
chunks_sound did zero (d ∷ ds) h = absurd (omega arith)
chunks_sound did (suc n) (d ∷ ds) h =
    let all = d ∷ ds in
    let left : length (drop 150 all) ≤ n = omega (arith, length-drop 150 all) in
    let short : length (take 150 all) ≤ 150 = omega (arith, length-take 150 all) in
    let (same, rest) = chunks_sound did n (drop 150 all) left in
    (
      ap (λ b. contains did (take 150 all) || b) same
          ∙ sym (contains-append did (take 150 all) (drop 150 all))
          ∙ ap (contains did) (take-append-drop 150 all),
      (short, rest),
    )

-- What is fetched of a list of chunks.
abbrev Found : Dict DeviceInfo → List (List Bytes) → Fetched → Type 0
Found account cs r =
    (out : List DeviceInfo) × (r ≡ some (ok out))
    × ((did : Bytes)
        → lookup did (by_did out []) ≡ (if in_chunks did cs then lookup did account else none))

joined :
    (b c : Bool) (o : Option DeviceInfo)
    → first_of (if c then o else none) (if b then o else none) ≡ (if b || c then o else none)
joined true true (some i) = refl
joined true false (some i) = refl
joined false true (some i) = refl
joined false false (some i) = refl
joined true true none = refl
joined true false none = refl
joined false true none = refl
joined false false none = refl

fetch_chunks-Found :
    (fetch : Fetch) (account : Dict DeviceInfo) (fuel : ℕ) (cs : List (List Bytes))
    → Serves fetch account fuel
    → All (λ c. length c ≤ 150) cs
    → Found account cs (fetch_chunks fetch fuel cs)
unfolding fetch_chunks lookup
fetch_chunks-Found fetch account fuel [] server h = ([], refl, λ did. refl)
fetch_chunks-Found fetch account fuel (c ∷ cs) server (short, h) =
    let (rest, got, right) = fetch_chunks-Found fetch account fuel cs server h in
    let page = server.answer c in
    let first : fetch_pages fetch c fuel [] ≡ some (ok page) =
      Pages-fetched fetch c fuel (server.count c) [] page (server.few c) (server.paged c short) in
    (
      page ++ rest,
      rw (first, fetch_chunks) (rw got),
      λ did.
          lookup-append did page rest
          ∙ ap (λ o. first_of o (lookup did (by_did page []))) (right did)
          ∙ ap (first_of (if in_chunks did cs then lookup did account else none))
              (server.right c did)
          ∙ joined (contains did c) (in_chunks did cs) (lookup did account),
    )

-- The distinct identifiers of the list that have not been seen before.
contains-unique_strings :
    (did : Bytes) (dids seen : List Bytes)
    → contains did (unique_strings dids seen)
      ≡ (contains did dids && (not (bytes_eq did []) && not (contains did seen)))
unfolding contains unique_strings
contains-unique_strings did [] seen = refl
contains-unique_strings did (x ∷ xs) seen = ground (
  arith,
  bytes_eq_iff x did,
  bytes_eq_iff x [],
  bytes_eq_iff did [],
  contains-unique_strings did xs seen,
  contains-unique_strings did xs (x ∷ seen),
)

and_true : (a b : Bool) → (a && (b && true)) ≡ (a && b)
and_true true true = refl
and_true true false = refl
and_true false b = refl

-- If the cloud answers every chunk of at most 150 identifiers with the devices that the account has of them,
-- in as many pages as it likes up to the fuel, GetDevicesByDID returns, and what it returns has a device
-- exactly if the account has it and its identifier is not empty and was asked for.
pub details_found :
    (fetch : Fetch) (account : Dict DeviceInfo) (fuel : ℕ) (dids : List Bytes)
    → Serves fetch account fuel
    → (out : List DeviceInfo) × (get_devices_by_did fetch fuel dids ≡ some (ok out))
      × ((did : Bytes)
          → lookup did (by_did out [])
            ≡ (if contains did dids && not (bytes_eq did []) then lookup did account else none))
unfolding get_devices_by_did contains
details_found fetch account fuel dids server =
    let unique = unique_strings dids [] in
    let cs = chunks (length unique) unique in
    let short = (chunks_sound [] (length unique) unique (omega arith)).1 in
    let (out, got, right) = fetch_chunks-Found fetch account fuel cs server short in
    (
      out,
      got,
      λ did.
          right did
          ∙ ap (λ b. if b then lookup did account else none)
              ((chunks_sound did (length unique) unique (omega arith)).0
                ∙ contains-unique_strings did dids []
                ∙ and_true (contains did dids) (not (bytes_eq did []))),
    )
