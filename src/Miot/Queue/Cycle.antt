-- ===== src/Miot/Queue/Cycle.antt =====
-- client.go: how many properties a cycle leaves in the queue.
use go_mihome.Common.{
  ℕ, ◌+◌, ◌≤◌, ◌<◌, ◌≡◌, refl, List, [], ◌∷◌, ◌++◌, some, Bool, true, false, arith, length, take,
  drop, length-take, length-drop, Bool-cases, Option-cases, inl, inr, All, All-take, All-drop,
  subst, if◌then◌else◌,
}
use go_mihome.Common.Result.{Result, ok, err}
use go_mihome.Common.Bytes.{Bytes, bytes_eq, bytes_eq_refl}
use go_mihome.Common.Dict.{Dict, lookup, delete}
use go_mihome.Miot.Refresh.{contains}
use go_mihome.Miot.Queue.{
  PropertyQuery, PropertyResult, Readers, property_key, queries, first_property_per_device,
  Progress, take_results, ask_cloud, cloud_answer, refresh_prop_batch, Asker, by_gateway, by_lan,
  ask_each, ask_locally, requeue, refresh_queued_properties_cycle,
}
use go_mihome.Miot.Queue.Keyed.{
  AnswersAsked, Has, Keyed, asked-Has, delete-Has, delete-Keyed, delete-length, requeue-Keyed,
  requeue-length,
}

-- The open queries are fewer than n if there was progress, and not more if there was none.
abbrev pub Shrinks : ℕ → Progress → Type 0
Shrinks n (active, sent, true) = length active < n
Shrinks n (active, sent, false) = length active ≤ n

abbrev pub Good : ℕ → Progress → Type 0
Good n p = Shrinks n p × Keyed p.0

results-Good :
    (n : ℕ) (rs : List PropertyResult) (active : Dict PropertyQuery) (sent : List PropertyResult)
    → length active < n
    → Keyed active
    → Good n (take_results rs (active, sent, true))
unfolding take_results
results-Good n [] active sent h k = (h, k)
results-Good n (r ∷ rs) active sent h k =
    let key = property_key r.did r.siid r.piid in
    results-Good n rs (delete key active) (sent ++ r ∷ []) (omega (arith, delete-length key active))
      (delete-Keyed key active k)

cloud-Good :
    (b : Readers) (active : Dict PropertyQuery)
    → AnswersAsked b
    → Keyed active
    → Good (length active) (ask_cloud b active)
unfolding ask_cloud take_results
cloud-Good b active sound k = answered b.has_cloud (b.get_props (queries active)) refl
  where
    answered :
        (test : Bool) (r : Result (List PropertyResult))
        → b.get_props (queries active) ≡ r
        → Good (length active) (if test then cloud_answer r active else (active, [], false))
    answered false r e = (omega arith, k)
    answered true (err f) e = (omega arith, k)
    answered true (ok []) e = (omega arith, k)
    answered true (ok (r ∷ rs)) e =
        let key = property_key r.did r.siid r.piid in
        let has = asked-Has r active k (sound (queries active) r rs e) in
        results-Good (length active) rs (delete key active) (r ∷ []) (delete-Has key active has)
          (delete-Keyed key active k)

each_on-Good :
    (n : ℕ) (ask : Asker) (m active : Dict PropertyQuery) (sent : List PropertyResult)
    → length active < n
    → Keyed active
    → Good n (ask_each ask m (active, sent, true))
unfolding ask_each
each_on-Good n ask [] active sent h k = (h, k)
each_on-Good n ask ((key, query) ∷ m) active sent h k = elim (Option-cases (ask query)) [
  | inl e ↦ rw (e, ask_each) (each_on-Good n ask m active sent h k)
  | inr (r, e) ↦
      rw (e, ask_each)
        (each_on-Good n ask m (delete key active) (sent ++ r ∷ [])
          (omega (arith, delete-length key active)) (delete-Keyed key active k))
]

-- A loop over single queries: before its first answer every key that is left is still open.
each-Good :
    (n : ℕ) (ask : Asker) (m active : Dict PropertyQuery) (sent : List PropertyResult)
    → length active ≤ n
    → Keyed active
    → All (λ (e : Bytes × PropertyQuery). Has active e.0) m
    → Good n (ask_each ask m (active, sent, false))
unfolding ask_each
each-Good n ask [] active sent h k has = (h, k)
each-Good n ask ((key, query) ∷ m) active sent h k (here, has) = elim (Option-cases (ask query)) [
  | inl e ↦ rw (e, ask_each) (each-Good n ask m active sent h k has)
  | inr (r, e) ↦
      rw (e, ask_each)
        (each_on-Good n ask m (delete key active) (sent ++ r ∷ [])
          (omega (arith, delete-Has key active here)) (delete-Keyed key active k))
]

Has-later :
    (e : Bytes × PropertyQuery) (m m' : Dict PropertyQuery)
    → All (λ (x : Bytes × PropertyQuery). Has m x.0) m'
    → All (λ (x : Bytes × PropertyQuery). Has (e ∷ m) x.0) m'
unfolding lookup
Has-later e m [] h = tt
Has-later (k, q) m ((j, x) ∷ m') ((y, h), hs) = elim (Bool-cases (bytes_eq k j)) [
  | inl same ↦ ((q, rw (same, lookup)), Has-later (k, q) m m' hs)
  | inr other ↦ ((y, rw (other, lookup) h), Has-later (k, q) m m' hs)
]

first_property-Has :
    (seen : List Bytes) (m : Dict PropertyQuery)
    → All (λ (e : Bytes × PropertyQuery). Has m e.0) (first_property_per_device seen m)
unfolding first_property_per_device lookup
first_property-Has seen [] = tt
first_property-Has seen ((k, q) ∷ m) = elim (Bool-cases (contains q.did seen)) [
  | inl e ↦ rw e (Has-later (k, q) m (first_property_per_device seen m) (first_property-Has seen m))
  | inr e ↦
      let more = first_property_per_device (q.did ∷ seen) m in
      rw e ((q, own), Has-later (k, q) m more (first_property-Has (q.did ∷ seen) m))
]
  where
    own : lookup k ((k, q) ∷ m) ≡ some q
    own = rw (bytes_eq_refl k, lookup)

locally-Good :
    (n : ℕ) (auto : Bool) (ask : Asker) (p : Progress) → Good n p → Good n (ask_locally auto ask p)
unfolding ask_locally
locally-Good n auto ask (active, sent, true) g = g
locally-Good n false ask (active, sent, false) g = g
locally-Good n true ask (active, sent, false) (h, k) =
    each-Good n ask (first_property_per_device [] active) active sent h k
      (first_property-Has [] active)

requeued :
    (n : ℕ) (p : Progress) (rest : Dict PropertyQuery)
    → Good n p
    → Keyed rest
    → Good (n + length rest) (requeue p.0 rest, p.1, p.2)
requeued n (active, sent, true) rest (h, k) keyed =
    (omega (arith, requeue-length active rest), requeue-Keyed active rest k keyed)
requeued n (active, sent, false) rest (h, k) keyed =
    (omega (arith, requeue-length active rest), requeue-Keyed active rest k keyed)

length-cut : (n : ℕ) (m : Dict PropertyQuery) → length (take n m) + length (drop n m) ≡ length m
length-cut n m = omega (arith, length-take {0} n m, length-drop {0} n m)

-- A cycle that makes progress leaves fewer queries than there were, one that does not leaves no more, and
-- the queries stay under their keys. The cloud answers only what it is asked.
pub cycle-Good :
    (b : Readers) (m : Dict PropertyQuery)
    → AnswersAsked b
    → Keyed m
    → Good (length m) (refresh_queued_properties_cycle b m)
unfolding refresh_queued_properties_cycle
cycle-Good b [] sound k = (omega arith, tt)
cycle-Good b ((key, query) ∷ m) sound k =
    let queued = (key, query) ∷ m in
    let active = take refresh_prop_batch queued in
    let rest = drop refresh_prop_batch queued in
    let first = cloud-Good b active sound (All-take _ refresh_prop_batch queued k) in
    let p =
      ask_locally b.auto (by_lan b) (ask_locally b.auto (by_gateway b) (ask_cloud b active)) in
    let good : Good (length active) p =
      locally-Good (length active) b.auto (by_lan b) _
        (locally-Good (length active) b.auto (by_gateway b) _ first) in
    subst (λ n. Good n (requeue p.0 rest, p.1, p.2)) (length-cut refresh_prop_batch queued)
      (requeued (length active) p rest good (All-drop _ refresh_prop_batch queued k))
