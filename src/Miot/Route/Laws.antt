-- ===== src/Miot/Route/Laws.antt =====
-- client.go: which backends a read, a write and an action are sent to.
use go_mihome.Common.{
  ◌≡◌, refl, List, [], ◌∷◌, ◌++◌, Option, none, some, Bool, true, false, ◌&&◌, if◌then◌else◌,
  Bool-cases, inl, inr, All,
}
use go_mihome.Common.Result.{Result, ok, err, Fault, Result-cases}
use go_mihome.Common.Dict.{lookup}
use go_mihome.Miot.Entry.{DeviceEntry}
use go_mihome.Miot.Refresh.{Table}
use go_mihome.Miot.Route.{
  Request, Reply, Backend, to_cloud, to_lan, to_gateway, Backends, Routed, no_route, by_gateway,
  by_lan, local_or, after_cloud, get_from, get_property, checked, command, set_by, set_property,
  invoke_action,
}

-- The backends that a command may use, in the order in which they are preferred.
abbrev pub available : Bool → Backends → DeviceEntry → List Backend
available auto b e =
    (if auto && by_gateway b e then to_gateway e.info.group_id ∷ [] else [])
    ++ ((if auto && by_lan b e then to_lan ∷ [] else [])
        ++ (if b.has_cloud && e.cloud_present then to_cloud ∷ [] else []))

-- The command goes to the first of the backends, and to no other.
abbrev pub send_first : (Backend → Result Reply) → List Backend → Routed
send_first call [] = (err no_route, [])
send_first call (x ∷ xs) = (checked (call x), x ∷ [])

-- The value is the answer of the last backend asked, and those asked before have failed.
abbrev pub IsAnswer : Backends → Request → Routed → Type 0
IsAnswer b q (err e, calls) = Unit
IsAnswer b q (ok r, calls) =
    (x : Backend) × (before : List Backend) × (calls ≡ before ++ x ∷ [])
    × (b.get_prop x q ≡ ok r)
    × All (λ y. (e : Fault) × (b.get_prop y q ≡ err e)) before

ask :
    (b : Backends) (q : Request) (x : Backend) (before : List Backend)
    → All (λ y. (e : Fault) × (b.get_prop y q ≡ err e)) before
    → IsAnswer b q (b.get_prop x q, before ++ x ∷ [])
ask b q x before failed = elim (Result-cases (b.get_prop x q)) [
  | inl (r, e) ↦ rw e (x, before, refl, e, failed)
  | inr (f, e) ↦ rw e tt
]

local-IsAnswer :
    (auto : Bool) (b : Backends) (e : DeviceEntry) (q : Request) (first : Fault)
    (calls : List Backend)
    → All (λ y. (f : Fault) × (b.get_prop y q ≡ err f)) calls
    → IsAnswer b q (local_or auto b e q first calls)
local-IsAnswer auto b e q first calls failed = elim (Bool-cases (auto && by_gateway b e)) [
  | inl g ↦ rw g (ask b q (to_gateway e.info.group_id) calls failed)
  | inr g ↦ elim (Bool-cases (auto && by_lan b e)) [
    | inl l ↦ rw (g, l) (ask b q to_lan calls failed)
    | inr l ↦ rw (g, l) tt
  ]
]

if-IsAnswer :
    (b : Backends) (q : Request) (test : Bool) (x y : Routed)
    → IsAnswer b q x
    → IsAnswer b q y
    → IsAnswer b q (if test then x else y)
if-IsAnswer b q true x y h k = h
if-IsAnswer b q false x y h k = k

get_from-IsAnswer :
    (auto : Bool) (b : Backends) (q : Request) (o : Option DeviceEntry)
    → IsAnswer b q (get_from auto b q o)
get_from-IsAnswer auto b q none = tt
get_from-IsAnswer auto b q (some e) =
    if-IsAnswer b q b.has_cloud _ _ (asked (b.get_prop to_cloud q) refl)
      (local-IsAnswer auto b e q no_route [] tt)
  where
    asked : (r : Result Reply) → b.get_prop to_cloud q ≡ r → IsAnswer b q (after_cloud auto b e q r)
    asked (ok r) k = (to_cloud, [], refl, k, tt)
    asked (err f) k = local-IsAnswer auto b e q f (to_cloud ∷ []) ((f, k), tt)

-- A value that GetProperty returns is the answer of the last backend that it asked, and every backend asked
-- before that one had failed.
pub get_property-IsAnswer :
    (auto : Bool) (b : Backends) (t : Table) (q : Request) → IsAnswer b q (get_property auto b t q)
unfolding get_property
get_property-IsAnswer auto b t q = get_from-IsAnswer auto b q (lookup q.did t)

abbrev pub CloudOnly : Routed → Type 0
CloudOnly r = All (λ x. x ≡ to_cloud) r.1

command-CloudOnly :
    (b : Backends) (call : Backend → Request → Result Reply) (q : Request) (o : Option DeviceEntry)
    → CloudOnly (command false b call q o)
command-CloudOnly b call q none = tt
command-CloudOnly b call q (some e) = elim (Bool-cases (b.has_cloud && e.cloud_present)) [
  | inl c ↦ rw c (refl, tt)
  | inr c ↦ rw c tt
]

get-CloudOnly :
    (b : Backends) (q : Request) (o : Option DeviceEntry) → CloudOnly (get_from false b q o)
get-CloudOnly b q none = tt
get-CloudOnly b q (some e) = elim (Bool-cases b.has_cloud) [
  | inr c ↦ rw c tt
  | inl c ↦ elim (Result-cases (b.get_prop to_cloud q)) [
    | inl (r, k) ↦ rw (c, k) (refl, tt)
    | inr (f, k) ↦ rw (c, k) (refl, tt)
  ]
]

-- Out of the automatic mode, reads, writes and actions are sent to the cloud and to nothing else.
pub cloud_mode :
    (b : Backends) (t : Table) (q : Request)
    → CloudOnly (get_property false b t q)
      × CloudOnly (set_property false b t q)
      × CloudOnly (invoke_action false b t q)
unfolding get_property set_property invoke_action
cloud_mode b t q = (
  get-CloudOnly b q (lookup q.did t),
  command-CloudOnly b (set_by b) q (lookup q.did t),
  command-CloudOnly b b.invoke_action q (lookup q.did t),
)
