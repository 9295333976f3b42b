-- ===== src/Network/Arrivals.antt =====
-- network.go: the events of the interfaces that a refresh finds.
use go_mihome.Common.{
  ◌≡◌, refl, sym, subst, ap, ◌∙◌, List, [], ◌∷◌, ◌++◌, Option, none, some, true, false,
  if◌then◌else◌, arith, All, inl, inr, Bool-cases,
}
use go_mihome.Common.Bytes.{Bytes, bytes_eq, bytes_eq_iff}
use go_mihome.Common.Dict.{Dict, lookup, insert, delete, lookup-insert, lookup-insert_self}
use go_mihome.Network.{
  NetworkInfo, added, updated, removed, Event, info_eq, table_from, arrival, arrivals,
}

-- What an event says of the table that the subscriber keeps.
abbrev pub apply : Event → Dict NetworkInfo → Dict NetworkInfo
apply (added, i) m = insert i.name i m
apply (updated, i) m = insert i.name i m
apply (removed, i) m = delete i.name m

abbrev pub replay : List Event → Dict NetworkInfo → Dict NetworkInfo
replay [] m = m
replay (e ∷ es) m = replay es (apply e m)

-- The entry of a name among the interfaces found.
unfoldable pub pick : Bytes → List NetworkInfo → Option NetworkInfo
pick k [] = none
pick k (i ∷ is) = let rest = pick k is in if bytes_eq i.name k then some i else rest

-- No name comes twice.
abbrev pub Distinct : List NetworkInfo → Type 0
Distinct [] = Unit
Distinct (i ∷ is) = (pick i.name is ≡ none) × Distinct is

-- The table is keyed by the names of its entries.
abbrev pub IsKeyed : Dict NetworkInfo → Type 0
IsKeyed = All (λ p. p.0 ≡ p.1.name)

pub info_eq→eq : (a b : NetworkInfo) → info_eq a b ≡ true → a ≡ b
unfolding info_eq
info_eq→eq a b h =
    let (n, _) = bytes_eq_iff a.name b.name in
    let (i, _) = bytes_eq_iff a.ip b.ip in
    let (m, _) = bytes_eq_iff a.netmask b.netmask in
    let (s, _) = bytes_eq_iff a.network_segment b.network_segment in
    let same_name : a.name ≡ b.name = n (ground arith) in
    let same_ip : a.ip ≡ b.ip = i (ground arith) in
    let same_mask : a.netmask ≡ b.netmask = m (ground arith) in
    let same_segment : a.network_segment ≡ b.network_segment = s (ground arith) in
    λ t. record {
      name = same_name t;
      ip = same_ip t;
      netmask = same_mask t;
      network_segment = same_segment t;
    }

abbrev pub or_else : Option NetworkInfo → Option NetworkInfo → Option NetworkInfo
or_else none o = o
or_else (some i) o = some i

pub replay-append :
    (es fs : List Event) (m : Dict NetworkInfo) → replay (es ++ fs) m ≡ replay fs (replay es m)
replay-append [] fs m = refl
replay-append (e ∷ es) fs m = replay-append es fs (apply e m)

pub table_from-lookup :
    (k : Bytes) (is : List NetworkInfo) (m : Dict NetworkInfo)
    → Distinct is
    → lookup k (table_from m is) ≡ or_else (pick k is) (lookup k m)
unfolding table_from pick
table_from-lookup k [] m d = refl
table_from-lookup k (i ∷ is) m d =
    let (same, _) = bytes_eq_iff i.name k in
    elim (Bool-cases (bytes_eq i.name k)) [
      | inl e ↦
          let none_left : pick k is ≡ none = subst (λ x. pick x is ≡ none) (same e) d.0 in
          rw e (
            table_from-lookup k is (insert i.name i m) d.1
            ∙ ap (λ o. or_else o (lookup k (insert i.name i m))) none_left
            ∙ lookup-insert i.name k i m
            ∙ rw e)
      | inr e ↦ rw e (
          table_from-lookup k is (insert i.name i m) d.1
          ∙ ap (or_else (pick k is)) (lookup-insert i.name k i m ∙ rw e))
    ]

-- One arrival, for the name k.
pub arrival-other :
    (k : Bytes) (o : Option NetworkInfo) (i : NetworkInfo) (rest : List Event)
    (m : Dict NetworkInfo)
    → bytes_eq i.name k ≡ false
    → (n : Dict NetworkInfo) × (replay (arrival o i rest) m ≡ replay rest n)
      × (lookup k n ≡ lookup k m)
arrival-other k none i rest m e = (insert i.name i m, refl, lookup-insert i.name k i m ∙ rw e)
arrival-other k (some prev) i rest m e = elim (Bool-cases (info_eq prev i)) [
  | inl s ↦ (m, rw s, refl)
  | inr s ↦ (insert i.name i m, rw s, lookup-insert i.name k i m ∙ rw e)
]

pub arrival-same :
    (o : Option NetworkInfo) (i : NetworkInfo) (rest : List Event) (m : Dict NetworkInfo)
    → lookup i.name m ≡ o
    → (n : Dict NetworkInfo) × (replay (arrival o i rest) m ≡ replay rest n)
      × (lookup i.name n ≡ some i)
arrival-same none i rest m h = (insert i.name i m, refl, lookup-insert_self i.name i m)
arrival-same (some prev) i rest m h = elim (Bool-cases (info_eq prev i)) [
  | inl s ↦ (m, rw s, h ∙ ap some (info_eq→eq prev i s))
  | inr s ↦ (insert i.name i m, rw s, lookup-insert_self i.name i m)
]

-- The arrivals of other names leave the entry of k.
pub arrivals-other :
    (k : Bytes) (old : Dict NetworkInfo) (is : List NetworkInfo) (m : Dict NetworkInfo)
    → pick k is ≡ none
    → lookup k (replay (arrivals old is) m) ≡ lookup k m
unfolding arrivals pick
arrivals-other k old [] m h = refl
arrivals-other k old (i ∷ is) m h = elim (Bool-cases (bytes_eq i.name k)) [
  | inl e ↦ absurd (let no : some i ≡ none = rw (e, pick) at h in ground arith)
  | inr e ↦
      let (n, run, same) = arrival-other k (lookup i.name old) i (arrivals old is) m e in
      ap (lookup k) run ∙ arrivals-other k old is n (rw (e, pick) at h) ∙ same
]

pub arrivals-lookup :
    (k : Bytes) (old : Dict NetworkInfo) (is : List NetworkInfo) (m : Dict NetworkInfo)
    → Distinct is
    → lookup k m ≡ lookup k old
    → lookup k (replay (arrivals old is) m) ≡ or_else (pick k is) (lookup k old)
unfolding arrivals pick
arrivals-lookup k old [] m d h = h
arrivals-lookup k old (i ∷ is) m d h = elim (Bool-cases (bytes_eq i.name k)) [
  | inl e ↦
      let name = (bytes_eq_iff i.name k).0 e in
      let seen = subst (λ x. lookup x m ≡ lookup x old) (sym name) h in
      let (n, run, found) = arrival-same (lookup i.name old) i (arrivals old is) m seen in
      let none_left : pick k is ≡ none = subst (λ x. pick x is ≡ none) name d.0 in
      rw e (
        ap (lookup k) run
        ∙ arrivals-other k old is n none_left
        ∙ subst (λ x. lookup x n ≡ some i) name found)
  | inr e ↦
      let (n, run, same) = arrival-other k (lookup i.name old) i (arrivals old is) m e in
      rw e (ap (lookup k) run ∙ arrivals-lookup k old is n d.1 (same ∙ h))
]
