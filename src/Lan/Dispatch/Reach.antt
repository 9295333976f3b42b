-- ===== src/Lan/Dispatch/Reach.antt =====
-- lan.go: who is called for a property or an event, and for which devices a push subscription is wanted.
use go_mihome.Common.{
  ℕ, ◌≡◌, ◌⊎◌, ◌↔◌, refl, sym, subst, append-nil, ◌∙◌, List, [], ◌∷◌, true, false, ◌==◌, arith, inl,
  inr, Bool-cases,
}
use go_mihome.Common.Bytes.{bytes_eq_iff}
use go_mihome.Lan.Dispatch.{
  Subscriber, Occurrence, Subscribers, skipped, reached, dispatch_property, dispatch_event, any_for,
  has_push_subscriber, drop_sub,
}

-- The subscription asks for the occurrence: for its device or all, its service or all, its item or all.
abbrev pub Wants : Subscriber → Occurrence → Type 0
Wants x o =
    ((x.did ≡ o.did) ⊎ (x.did ≡ []))
    × ((x.siid ≡ 0) ⊎ (x.siid ≡ o.siid))
    × ((x.iid ≡ 0) ⊎ (x.iid ≡ o.iid))

-- The number is in the list.
abbrev pub Called : ℕ → List ℕ → Type 0
Called i [] = ⊥
Called i (j ∷ js) = (i ≡ j) ⊎ Called i js

abbrev pub SomeWants : ℕ → List Subscriber → Occurrence → Type 0
SomeWants i [] o = ⊥
SomeWants i (x ∷ xs) o = ((i ≡ x.id) × Wants x o) ⊎ SomeWants i xs o

skipped-Wants : (x : Subscriber) (o : Occurrence) → (skipped x o ≡ false) ↔ Wants x o
unfolding skipped
skipped-Wants x o =
    let (did_to, did_from) = bytes_eq_iff x.did o.did in
    let (all_to, all_from) = bytes_eq_iff x.did [] in
    (λ h. (ground arith, ground arith, ground arith), λ w. ground arith)

reached-SomeWants :
    (i : ℕ) (xs : List Subscriber) (o : Occurrence) → Called i (reached xs o) ↔ SomeWants i xs o
unfolding reached
reached-SomeWants i [] o = (λ h. h, λ h. h)
reached-SomeWants i (x ∷ xs) o =
    let (to, from) = reached-SomeWants i xs o in
    let (want, unwant) = skipped-Wants x o in
    elim (Bool-cases (skipped x o)) [
      | inl e ↦ rw e (
        λ h. inr (to h),
        λ h. elim h [ inl w ↦ absurd (let no = unwant w.1 in ground arith) | inr w ↦ from w ],
      )
      | inr e ↦ rw e (
        λ h. elim h [ inl a ↦ inl (a, want e) | inr a ↦ inr (to a) ],
        λ h. elim h [ inl a ↦ inl a.0 | inr a ↦ inr (from a) ],
      )
    ]

-- A handler is called for an event, and for a property that changed, exactly if a subscription of its
-- number asks for it: for the device or all devices, for the service or all, and for the event or
-- property or all.
pub dispatch_reaches :
    (i : ℕ) (o : Occurrence) (s : Subscribers)
    → (Called i (dispatch_event o s) ↔ SomeWants i s.event_subs o)
      × (Called i (dispatch_property (o ∷ []) s) ↔ SomeWants i s.prop_subs o)
unfolding dispatch_event dispatch_property
dispatch_reaches i o s =
    let (to, from) = reached-SomeWants i s.prop_subs o in
    let same = append-nil (reached s.prop_subs o) in
    (
      reached-SomeWants i s.event_subs o,
      (λ h. to (subst (Called i) same h), λ h. subst (Called i) (sym same) (from h)),
    )

any_for-reached :
    (xs : List Subscriber) (o : Occurrence) → any_for o.did xs ≡ false → reached xs o ≡ []
unfolding any_for reached skipped
any_for-reached [] o h = refl
any_for-reached (x ∷ xs) o h = ground (arith, any_for-reached xs o)

-- A device for which no push subscription is wanted has no subscriber: nothing that comes from it would
-- call a handler.
pub no_push_no_call :
    (o : Occurrence) (s : Subscribers)
    → has_push_subscriber o.did s ≡ false
    → (dispatch_event o s ≡ []) × (dispatch_property (o ∷ []) s ≡ [])
unfolding has_push_subscriber dispatch_event dispatch_property
no_push_no_call o s h = elim (Bool-cases (any_for o.did s.prop_subs)) [
  | inl e ↦ absurd (let no : true ≡ false = rw (e, has_push_subscriber) at h in ground arith)
  | inr e ↦
      let rest : any_for o.did s.event_subs ≡ false = rw (e, has_push_subscriber) at h in
      let props = any_for-reached s.prop_subs o e in
      (any_for-reached s.event_subs o rest, append-nil (reached s.prop_subs o) ∙ props)
]

drop_sub-reached :
    (i : ℕ) (xs : List Subscriber) (o : Occurrence) → Called i (reached (drop_sub i xs) o) → ⊥
unfolding reached drop_sub
drop_sub-reached i [] o h = h
drop_sub-reached i (x ∷ xs) o h = elim (Bool-cases (x.id == i)) [
  | inl e ↦ drop_sub-reached i xs o (rw e at h)
  | inr e ↦ elim (Bool-cases (skipped x o)) [
    | inl f ↦ drop_sub-reached i xs o (rw (e, f) at h)
    | inr f ↦
        let called : (i ≡ x.id) ⊎ Called i (reached (drop_sub i xs) o) = rw (e, f) at h in
        elim called [ inl a ↦ absurd (ground arith) | inr a ↦ drop_sub-reached i xs o a ]
  ]
]
