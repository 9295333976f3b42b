-- ===== src/Miot/Queue/Drain.antt =====
-- client.go: the queue and its timer from one firing to the next.
use go_mihome.Common.{
  ℕ, zero, suc, ◌+◌, ◌-◌, ◌*◌, ◌≤◌, ◌<◌, ◌≡◌, ◌⊎◌, refl, [], ◌∷◌, none, some, true, false, arith,
  length, Option-cases, inl, inr, ltb, leb, Bool-cases,
}
use go_mihome.Common.Bytes.{Bytes}
use go_mihome.Common.Dict.{Dict, lookup}
use go_mihome.Miot.Refresh.{Table}
use go_mihome.Miot.Queue.{
  PropertyQuery, Queue, Readers, Progress, refresh_queued_properties_cycle, after_cycle,
  refresh_prop_max_retry, handle_queued_property_refresh, request_refresh_property, property_key,
}
use go_mihome.Miot.Queue.Keyed.{Keyed, AnswersAsked, insert-Keyed}
use go_mihome.Miot.Queue.Cycle.{Good, cycle-Good}

-- The timer fires again and again, at most so many times; the backends may differ from one time to the next.
pub fire_all : ℕ → (ℕ → Readers) → Queue → Queue
fire_all zero at q = q
fire_all (suc n) at q = elim q.timer [
  | none ↦ q
  | some d ↦ fire_all n (λ k. at (suc k)) (handle_queued_property_refresh (at 0) q).0
]

-- The queue is in order: queries under their keys, fewer than three failures counted, and a timer for as
-- long as something is queued.
pub record IsQueue (q : Queue) : Type 0 where
  pub keyed : Keyed q.queued_props
  pub few_retries : q.prop_retry < 3
  pub timed : q.timer ≡ none → length q.queued_props ≡ 0

-- How many times the timer can fire at most.
abbrev pub rounds_left : Queue → ℕ
rounds_left q = 3 * length q.queued_props + (3 - q.prop_retry)

abbrev Left : ℕ → Queue → Type 0
Left n q = IsQueue q × ((q.timer ≡ none) ⊎ (rounds_left q < n))

empty-IsQueue : IsQueue (record { queued_props = []; prop_retry = 0; timer = none })
empty-IsQueue = record { keyed = tt; few_retries = omega arith; timed = λ x. refl }

stopped :
    (n : ℕ) (at : ℕ → Readers) (q : Queue)
    → q.timer ≡ none
    → length q.queued_props ≡ 0
    → ((fire_all n at q).timer ≡ none) × (length (fire_all n at q).queued_props ≡ 0)
unfolding fire_all
stopped zero at q off none_left = (off, none_left)
stopped (suc n) at q off none_left = rw (off, fire_all) (off, none_left)

after-Left :
    (m : Dict PropertyQuery) (p : Progress) (retry : ℕ)
    → retry < 3
    → Good (length m) p
    → Left (3 * length m + (3 - retry)) (after_cycle p retry)
unfolding after_cycle
after-Left m ([], sent, true) retry r (h, k) = (empty-IsQueue, inl refl)
after-Left m (e ∷ rest, sent, true) retry r (h, k) = elim (Bool-cases (ltb 0 (suc (length rest)))) [
  | inr f ↦ absurd (ground arith)
  | inl f ↦ rw f (
    record { keyed = k; few_retries = omega arith; timed = λ x. absurd (ground arith) },
    inr (omega arith),
  )
]
after-Left m ([], sent, false) retry r (h, k) = (empty-IsQueue, inl refl)
after-Left m (e ∷ rest, sent, false) retry r (h, k) =
    elim (Bool-cases (leb refresh_prop_max_retry (retry + 1))) [
      | inl f ↦ rw f (empty-IsQueue, inl refl)
      | inr f ↦
          let few : retry + 1 < 3 = ground arith in
          rw f (
            record { keyed = k; few_retries = few; timed = λ x. absurd (ground arith) },
            inr (omega arith),
          )
    ]

handle-Left :
    (b : Readers) (q : Queue)
    → AnswersAsked b
    → IsQueue q
    → Left (rounds_left q) (handle_queued_property_refresh b q).0
unfolding handle_queued_property_refresh
handle-Left b q sound h =
    after-Left q.queued_props (refresh_queued_properties_cycle b q.queued_props) q.prop_retry
      h.few_retries (cycle-Good b q.queued_props sound h.keyed)

-- Requests keep a queue in order.
pub request-IsQueue :
    (t : Table) (did : Bytes) (siid piid : ℕ) (q : Queue)
    → IsQueue q
    → IsQueue (request_refresh_property t did siid piid q)
unfolding request_refresh_property
request-IsQueue t did siid piid q h = elim (Option-cases (lookup did t)) [
  | inl e ↦ rw (e, request_refresh_property) h
  | inr (x, e) ↦
      let key = property_key did siid piid in
      let query : PropertyQuery = record { did = did; siid = siid; piid = piid } in
      rw (e, request_refresh_property)
        (record {
          keyed = insert-Keyed key query q.queued_props refl h.keyed;
          few_retries = h.few_retries;
          timed = λ x. absurd (ground arith);
        })
]

-- A queue in order runs empty, whatever the backends answer, as long as the cloud answers only what it is
-- asked: the timer fires at most three times for each query queued and as often as retries are left, after
-- that no timer runs and nothing is queued.
pub queue_drains :
    (n : ℕ) (at : ℕ → Readers) (q : Queue)
    → ((k : ℕ) → AnswersAsked (at k))
    → IsQueue q
    → rounds_left q ≤ n
    → ((fire_all n at q).timer ≡ none) × (length (fire_all n at q).queued_props ≡ 0)
unfolding fire_all
queue_drains zero at q sound h m = absurd (omega (arith, h.few_retries))
queue_drains (suc n) at q sound h m = elim (Option-cases q.timer) [
  | inl e ↦ rw (e, fire_all) (e, h.timed e)
  | inr (d, e) ↦
      let next = (handle_queued_property_refresh (at 0) q).0 in
      let others : ℕ → Readers = λ k. at (suc k) in
      let (order, left) = handle-Left (at 0) q (sound 0) h in
      rw (e, fire_all)
        (elim left [
          | inl off ↦ stopped n others next off (order.timed off)
          | inr less ↦ queue_drains n others next (λ k. sound (suc k)) order (omega arith)
        ])
]
