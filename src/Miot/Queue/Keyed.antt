-- ===== src/Miot/Queue/Keyed.antt =====
-- client.go: the queue as a table in which every query has its own key, and how it grows and shrinks.
use go_mihome.Common.{
  ◌+◌, ◌≤◌, ◌<◌, ◌≡◌, List, [], ◌∷◌, some, Bool, true, false, arith, length, Bool-cases, inl, inr,
  All, ◌==◌, ◌&&◌, ◌||◌,
}
use go_mihome.Common.Result.{ok}
use go_mihome.Common.Bytes.{Bytes, bytes_eq, bytes_eq_iff}
use go_mihome.Common.Dict.{Dict, lookup, insert, delete}
use go_mihome.Miot.Queue.{PropertyQuery, PropertyResult, Readers, property_key, queries, requeue}

-- The key is queued.
abbrev pub Has : Dict PropertyQuery → Bytes → Type 0
Has m k = (query : PropertyQuery) × (lookup k m ≡ some query)

abbrev pub same_property : PropertyQuery → PropertyResult → Bool
same_property q r = bytes_eq q.did r.did && (q.siid == r.siid && q.piid == r.piid)

abbrev pub asked : PropertyResult → List PropertyQuery → Bool
asked r [] = false
asked r (q ∷ qs) = same_property q r || asked r qs

-- What the code relies on from the cloud: it answers the queries that it was given.
abbrev pub AnswersAsked : Readers → Type 0
AnswersAsked b =
    (qs : List PropertyQuery) (r : PropertyResult) (rs : List PropertyResult)
    → b.get_props qs ≡ ok (r ∷ rs)
    → asked r qs ≡ true

-- Every query is queued under its own key.
abbrev pub Keyed : Dict PropertyQuery → Type 0
Keyed = All (λ (e : Bytes × PropertyQuery). e.0 ≡ property_key e.1.did e.1.siid e.1.piid)

pub asked-Has :
    (r : PropertyResult) (m : Dict PropertyQuery)
    → Keyed m
    → asked r (queries m) ≡ true
    → Has m (property_key r.did r.siid r.piid)
unfolding queries lookup
asked-Has r [] keyed h = absurd (ground arith)
asked-Has r ((k, q) ∷ m) (own, keyed) h =
    let key = property_key r.did r.siid r.piid in
    elim (Bool-cases (bytes_eq k key)) [
      | inl same ↦ (q, rw (same, lookup))
      | inr other ↦ elim (Bool-cases (same_property q r)) [
        | inl hit ↦ absurd (missed hit other)
        | inr miss ↦ let (x, e) = asked-Has r m keyed (rw miss at h) in (x, rw (other, lookup) e)
      ]
    ]
  where
    missed : same_property q r ≡ true → bytes_eq k (property_key r.did r.siid r.piid) ≡ false → ⊥
    missed hit other =
        let d : q.did ≡ r.did = ground (arith, bytes_eq_iff q.did r.did, hit) in
        let s : q.siid ≡ r.siid = ground (arith, hit) in
        let i : q.piid ≡ r.piid = ground (arith, hit) in
        let key : k ≡ property_key r.did r.siid r.piid = cc (own, d, s, i) in
        ground (arith, bytes_eq_iff k (property_key r.did r.siid r.piid), key, other)

pub delete-length : (k : Bytes) (m : Dict PropertyQuery) → length (delete k m) ≤ length m
unfolding delete
delete-length k [] = omega arith
delete-length k ((j, x) ∷ m) = ground (arith, delete-length k m)

pub delete-Has : (k : Bytes) (m : Dict PropertyQuery) → Has m k → length (delete k m) < length m
unfolding delete lookup
delete-Has k [] (x, h) = absurd (ground arith)
delete-Has k ((j, x) ∷ m) (y, h) = elim (Bool-cases (bytes_eq j k)) [
  | inl same ↦ rw same (omega (arith, delete-length k m))
  | inr other ↦
      let later : lookup k m ≡ some y = rw (other, lookup) at h in
      rw other (omega (arith, delete-Has k m (y, later)))
]

pub insert-length :
    (k : Bytes) (x : PropertyQuery) (m : Dict PropertyQuery) → length (insert k x m) ≤ length m + 1
unfolding insert
insert-length k x [] = omega arith
insert-length k x ((j, y) ∷ m) = ground (arith, insert-length k x m)

pub requeue-length :
    (m queued : Dict PropertyQuery) → length (requeue m queued) ≤ length m + length queued
unfolding requeue
requeue-length [] queued = omega arith
requeue-length ((k, x) ∷ m) queued =
    omega (arith, requeue-length m (insert k x queued), insert-length k x queued)

pub delete-Keyed : (k : Bytes) (m : Dict PropertyQuery) → Keyed m → Keyed (delete k m)
unfolding delete
delete-Keyed k [] h = tt
delete-Keyed k ((j, x) ∷ m) (h, hs) = elim (Bool-cases (bytes_eq j k)) [
  | inl e ↦ rw e (delete-Keyed k m hs)
  | inr e ↦ rw e (h, delete-Keyed k m hs)
]

pub insert-Keyed :
    (k : Bytes) (x : PropertyQuery) (m : Dict PropertyQuery)
    → k ≡ property_key x.did x.siid x.piid
    → Keyed m
    → Keyed (insert k x m)
unfolding insert
insert-Keyed k x [] own h = (own, tt)
insert-Keyed k x ((j, y) ∷ m) own (h, hs) = elim (Bool-cases (bytes_eq j k)) [
  | inl e ↦ rw e (own, hs)
  | inr e ↦ rw e (h, insert-Keyed k x m own hs)
]

pub requeue-Keyed :
    (m queued : Dict PropertyQuery) → Keyed m → Keyed queued → Keyed (requeue m queued)
unfolding requeue
requeue-Keyed [] queued h k = k
requeue-Keyed ((j, x) ∷ m) queued (h, hs) k =
    requeue-Keyed m (insert j x queued) hs (insert-Keyed j x queued h k)
