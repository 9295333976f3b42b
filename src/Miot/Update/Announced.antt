-- ===== src/Miot/Update/Announced.antt =====
-- client.go: new push sources among the changes.
use go_mihome.Common.{
  ◌≡◌, ◌⊎◌, refl, sym, ap, ◌∙◌, List, [], ◌∷◌, ◌++◌, Option, none, some, Bool, true, false, ◌&&◌,
  ◌||◌, arith, Bool-cases, inl, inr,
}
use go_mihome.Common.Bytes.{Bytes, bytes_eq, bytes_eq_iff}
use go_mihome.Common.Dict.{lookup-insert}
use go_mihome.Miot.Entry.{DeviceEntry, Change, recompute_entry, select_push_source}
use go_mihome.Miot.Refresh.{Table, write}
use go_mihome.Miot.Update.Rule.{apply-rule}
use go_mihome.Miot.Update.{Update, apply}
use go_mihome.Miot.Update.Keeps.{source_of, state_of}

-- Whether one of the changes is a new push source of the device.
abbrev pub announced : Bytes → List Change → Bool
announced did [] = false
announced did (c ∷ cs) = (c.source_changed && bytes_eq c.did did) || announced did cs

announced-append :
    (did : Bytes) (xs ys : List Change)
    → announced did (xs ++ ys) ≡ (announced did xs || announced did ys)
announced-append did [] ys = refl
announced-append did (c ∷ xs) ys = ground (arith, announced-append did xs ys)

-- The device has the push source that it had before, or the changes announce it.
abbrev pub Announces : Bytes → Table → Table × List Change → Type 0
Announces did t (u, changes) = (source_of did u ≡ source_of did t) ⊎ (announced did changes ≡ true)

Announces-compose :
    (did : Bytes) (t u v : Table) (xs ys : List Change)
    → Announces did t (u, xs)
    → Announces did u (v, ys)
    → Announces did t (v, xs ++ ys)
Announces-compose did t u v xs ys (inl e) (inl f) = inl (f ∙ e)
Announces-compose did t u v xs ys (inr a) k = inr (announced-append did xs ys ∙ ground (arith, a))
Announces-compose did t u v xs ys (inl e) (inr a) = inr (
    announced-append did xs ys
    ∙ elim (Bool-cases (announced did xs)) [ inl h ↦ rw h | inr h ↦ rw (h, a) ])

source-recompute :
    (auto : Bool) (did : Bytes) (e : DeviceEntry)
    → ((recompute_entry auto did e).0.push_source ≡ e.push_source)
      ⊎ ((recompute_entry auto did e).1.source_changed ≡ true)
unfolding recompute_entry
source-recompute auto did e =
    let source = select_push_source auto e in
    elim (Bool-cases (bytes_eq e.push_source source)) [
      | inl same ↦ inl (sym ((bytes_eq_iff e.push_source source).0 same))
      | inr other ↦ inr (rw other)
    ]

recompute-did :
    (auto : Bool) (did : Bytes) (e : DeviceEntry) → (recompute_entry auto did e).1.did ≡ did
unfolding recompute_entry
recompute-did auto did e = refl

Announces-write :
    (auto : Bool) (did k : Bytes) (o : Option DeviceEntry) (t : Table)
    → ((e : DeviceEntry)
        → o ≡ some e
        → (e.state ≡ state_of did t) × (e.push_source ≡ source_of did t))
    → Announces k t (write auto did o t)
unfolding write
Announces-write auto did k none t h = inl refl
Announces-write auto did k (some e) t h = elim (Bool-cases (bytes_eq did k)) [
  | inr other ↦ inl (rw (lookup-insert did k (recompute_entry auto did e).0 t) (rw other))
  | inl same ↦ elim (source-recompute auto did e) [
    | inl s ↦
        let kept = s ∙ (h e refl).1 ∙ ap (λ x. source_of x t) ((bytes_eq_iff did k).0 same) in
        inl (rw (lookup-insert did k (recompute_entry auto did e).0 t) (rw same kept))
    | inr s ↦ inr (rw (s, recompute-did auto did e) (rw same))
  ]
]

pub Announces-apply :
    (auto : Bool) (k : Bytes) (u : Update) (t : Table) → Announces k t (apply auto u t)
Announces-apply auto k =
    apply-rule auto (Announces k) (λ t. inl refl) (Announces-compose k)
      (λ did o t h. Announces-write auto did k o t h)
