-- ===== src/Network/Replay.antt =====
-- network.go: what a subscriber of the interfaces can rebuild from the events.
use go_mihome.Common.{
  ◌≡◌, ◌⊎◌, refl, sym, subst, ap, ◌∙◌, List, [], ◌∷◌, none, some, Bool, true, false, arith, inl,
  inr, Bool-cases, Option-cases,
}
use go_mihome.Common.Result.{Result, ok, err, Fault}
use go_mihome.Common.Bytes.{Bytes, bytes_eq, bytes_eq_iff}
use go_mihome.Common.Dict.{Dict, lookup, insert, delete, lookup-delete}
use go_mihome.Network.{
  NetworkInfo, table_from, arrivals, departures, events, NetworkMonitor, refresh,
}
use go_mihome.Network.Arrivals.{
  replay, pick, Distinct, IsKeyed, or_else, replay-append, table_from-lookup, arrivals-lookup,
}

-- The departures leave the entries that the next table has.
departures-kept :
    (k : Bytes) (next old m : Dict NetworkInfo) (i : NetworkInfo)
    → IsKeyed old
    → lookup k next ≡ some i
    → lookup k (replay (departures next old) m) ≡ lookup k m
unfolding departures
departures-kept k next [] m i d h = refl
departures-kept k next ((j, p) ∷ old) m i d h = elim (Option-cases (lookup j next)) [
  | inr (q, e) ↦ rw (e, replay) (departures-kept k next old m i d.1 h)
  | inl e ↦
      let other : bytes_eq p.name k ≡ false = elim (Bool-cases (bytes_eq p.name k)) [
        | inr f ↦ f
        | inl f ↦
            let name = d.0 ∙ (bytes_eq_iff p.name k).0 f in
            let both : none ≡ some i = sym e ∙ ap (λ x. lookup x next) name ∙ h in
            absurd (ground arith)
      ] in
      rw (e, replay)
        (departures-kept k next old (delete p.name m) i d.1 h ∙ lookup-delete p.name k m ∙ rw other)
]

departures-none :
    (k : Bytes) (next old m : Dict NetworkInfo)
    → lookup k m ≡ none
    → lookup k (replay (departures next old) m) ≡ none
unfolding departures
departures-none k next [] m h = h
departures-none k next ((j, p) ∷ old) m h = elim (Option-cases (lookup j next)) [
  | inr (q, e) ↦ rw (e, replay) (departures-none k next old m h)
  | inl e ↦
      rw (e, replay)
        (departures-none k next old (delete p.name m) (deleted (bytes_eq p.name k) refl))
]
  where
    deleted : (b : Bool) → bytes_eq p.name k ≡ b → lookup k (delete p.name m) ≡ none
    deleted true f = lookup-delete p.name k m ∙ rw f
    deleted false f = lookup-delete p.name k m ∙ rw f h

departures-gone :
    (k : Bytes) (next old m : Dict NetworkInfo) (q : NetworkInfo)
    → IsKeyed old
    → lookup k next ≡ none
    → lookup k old ≡ some q
    → lookup k (replay (departures next old) m) ≡ none
unfolding departures lookup
departures-gone k next [] m q d h f = absurd (ground arith)
departures-gone k next ((j, p) ∷ old) m q d h f = elim (Bool-cases (bytes_eq j k)) [
  | inl s ↦
      let name = (bytes_eq_iff j k).0 s in
      let gone : lookup j next ≡ none = ap (λ x. lookup x next) name ∙ h in
      let same : bytes_eq p.name k ≡ true = subst (λ x. bytes_eq x k ≡ true) d.0 s in
      rw (gone, replay)
        (departures-none k next old (delete p.name m) (lookup-delete p.name k m ∙ rw same))
  | inr s ↦
      let later : lookup k old ≡ some q = rw (s, lookup) at f in
      elim (Option-cases (lookup j next)) [
        | inr (x, e) ↦ rw (e, replay) (departures-gone k next old m q d.1 h later)
        | inl e ↦ rw (e, replay) (departures-gone k next old (delete p.name m) q d.1 h later)
      ]
]

-- A subscriber that had the old table and follows the events of a refresh has the new table: the same
-- entry under every name. The interfaces found have distinct names, as the inspector gives them, and the
-- old table is keyed by its entries' names.
pub replay-events :
    (k : Bytes) (old : Dict NetworkInfo) (infos : List NetworkInfo)
    → Distinct infos
    → IsKeyed old
    → lookup k (replay (events old infos) old) ≡ lookup k (table_from [] infos)
unfolding events lookup
replay-events k old infos d keyed =
    let next = table_from [] infos in
    let m = replay (arrivals old infos) old in
    let table = table_from-lookup k infos [] d in
    let seen = arrivals-lookup k old infos old d refl in
    ap (lookup k) (replay-append (arrivals old infos) (departures next old) old)
    ∙ elim (Option-cases (pick k infos)) [
      | inr (i, e) ↦
          let kept : lookup k next ≡ some i = table ∙ ap (λ o. or_else o (lookup k [])) e in
          departures-kept k next old m i keyed kept
          ∙ seen
          ∙ ap (λ o. or_else o (lookup k old)) e
          ∙ sym kept
      | inl e ↦
          let gone : lookup k next ≡ none = table ∙ ap (λ o. or_else o (lookup k [])) e in
          let before : lookup k m ≡ lookup k old = seen ∙ ap (λ o. or_else o (lookup k old)) e in
          elim (Option-cases (lookup k old)) [
            | inr (q, f) ↦ departures-gone k next old m q keyed gone f ∙ sym gone
            | inl f ↦ departures-none k next old m (before ∙ f) ∙ sym gone
          ]
    ]

insert-IsKeyed : (i : NetworkInfo) (m : Dict NetworkInfo) → IsKeyed m → IsKeyed (insert i.name i m)
unfolding insert
insert-IsKeyed i [] h = (refl, tt)
insert-IsKeyed i ((j, p) ∷ m) h = elim (Bool-cases (bytes_eq j i.name)) [
  | inl e ↦ rw e (refl, h.1)
  | inr e ↦ rw e (h.0, insert-IsKeyed i m h.1)
]

table_from-IsKeyed :
    (is : List NetworkInfo) (m : Dict NetworkInfo) → IsKeyed m → IsKeyed (table_from m is)
unfolding table_from
table_from-IsKeyed [] m h = h
table_from-IsKeyed (i ∷ is) m h = table_from-IsKeyed is (insert i.name i m) (insert-IsKeyed i m h)

-- A refresh that succeeds leaves a table that is keyed by its entries' names and made from the interfaces
-- found; one that fails leaves everything as it was, and nobody is called.
pub refresh_outcome :
    (results : Result (List Bool)) (infos : Result (List NetworkInfo)) (m : NetworkMonitor)
    → let (n, calls, e) = refresh results infos m in
      ((e ≡ none)
        × IsKeyed n.interfaces
        × ((i : List NetworkInfo) × (infos ≡ ok i) × (n.interfaces ≡ table_from [] i)))
      ⊎ ((n ≡ m) × (calls ≡ []) × ((x : Fault) × (e ≡ some x)))
unfolding refresh
refresh_outcome (err e) infos m = inr (refl, refl, (e, refl))
refresh_outcome (ok rs) (err e) m = inr (refl, refl, (e, refl))
refresh_outcome (ok rs) (ok i) m = inl (refl, table_from-IsKeyed i [] tt, (i, refl, refl))
