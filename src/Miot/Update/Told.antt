-- ===== src/Miot/Update/Told.antt =====
-- client.go: what the changes tell of the state of a device.
use go_mihome.Common.{
  ◌≡◌, refl, sym, ap, ◌∙◌, List, [], ◌∷◌, ◌++◌, Option, none, some, Bool, false, ◌&&◌, arith,
  if◌then◌else◌, Bool-cases, inl, inr, subst,
}
use go_mihome.Common.Bytes.{Bytes, bytes_eq, bytes_eq_iff, bytes_eq_refl}
use go_mihome.Common.Dict.{lookup-insert}
use go_mihome.Miot.Entry.{
  DeviceState, DeviceEntry, Change, recompute_entry, state_differs, aggregate_device_state,
}
use go_mihome.Miot.Entry.Laws.{state_differs_sound}
use go_mihome.Miot.Refresh.{Table, write}
use go_mihome.Miot.Update.Keeps.{state_of, source_of}
use go_mihome.Miot.Update.Rule.{apply-rule}
use go_mihome.Miot.Update.{Update, apply, apply_all}

abbrev pub told_one : Bytes → DeviceState → Change → DeviceState
told_one did s c = if c.state_changed && bytes_eq c.did did then c.new_state else s

-- What a subscriber of the device believes that has believed s before the changes: the calls that
-- handleChanges makes.
abbrev pub told : Bytes → DeviceState → List Change → DeviceState
told did s [] = s
told did s (c ∷ cs) = told did (told_one did s c) cs

told-append :
    (did : Bytes) (s : DeviceState) (xs ys : List Change)
    → told did s (xs ++ ys) ≡ told did (told did s xs) ys
told-append did s [] ys = refl
told-append did s (c ∷ cs) ys = told-append did (told_one did s c) cs ys

told-recompute :
    (auto : Bool) (did : Bytes) (e : DeviceEntry)
    → told_one did e.state (recompute_entry auto did e).1 ≡ (recompute_entry auto did e).0.state
unfolding recompute_entry
told-recompute auto did e =
    let now = aggregate_device_state e.cloud_present e.cloud_online e.gateway_online e.lan_online in
    elim (Bool-cases (state_differs e.state now)) [
      | inl d ↦ rw (d, bytes_eq_refl did)
      | inr d ↦ rw d (state_differs_sound e.state now d)
    ]

told_other :
    (auto : Bool) (did k : Bytes) (e : DeviceEntry) (s : DeviceState)
    → bytes_eq did k ≡ false
    → told_one k s (recompute_entry auto did e).1 ≡ s
unfolding recompute_entry
told_other auto did k e s h = ground (arith, h)

told-write :
    (auto : Bool) (did k : Bytes) (o : Option DeviceEntry) (t : Table)
    → ((e : DeviceEntry)
        → o ≡ some e
        → (e.state ≡ state_of did t) × (e.push_source ≡ source_of did t))
    → told k (state_of k t) (write auto did o t).1 ≡ state_of k (write auto did o t).0
unfolding write
told-write auto did k none t h = refl
told-write auto did k (some e) t h = elim (Bool-cases (bytes_eq did k)) [
  | inl same ↦
      let name = (bytes_eq_iff did k).0 same in
      rw (lookup-insert did k (recompute_entry auto did e).0 t) (
        rw same (
          subst
            (λ x.
              told_one x (state_of x t) (recompute_entry auto did e).1
              ≡ (recompute_entry auto did e).0.state)
            name (rw (sym (h e refl).0) (told-recompute auto did e))))
  | inr other ↦
      rw (lookup-insert did k (recompute_entry auto did e).0 t)
        (rw other (told_other auto did k e (state_of k t) other))
]

-- A subscriber that knew the state before knows it afterwards.
abbrev Tells : Bytes → Table → Table × List Change → Type 0
Tells did t (u, changes) = told did (state_of did t) changes ≡ state_of did u

Tells-compose :
    (did : Bytes) (t u v : Table) (xs ys : List Change)
    → Tells did t (u, xs)
    → Tells did u (v, ys)
    → Tells did t (v, xs ++ ys)
Tells-compose did t u v xs ys h k =
    told-append did (state_of did t) xs ys ∙ ap (λ s. told did s ys) h ∙ k

told-apply : (auto : Bool) (did : Bytes) (u : Update) (t : Table) → Tells did t (apply auto u t)
told-apply auto did =
    apply-rule auto (Tells did) (λ t. refl) (Tells-compose did)
      (λ k o t h. told-write auto k did o t h)

-- The calls that a subscriber of a device's state gets make up the state that the table has: from the
-- state before any sequence of updates, following the calls in turn gives the state after it.
pub told-updates :
    (auto : Bool) (did : Bytes) (updates : List Update) (t : Table)
    → told did (state_of did t) (apply_all auto updates t).1
      ≡ state_of did (apply_all auto updates t).0
unfolding apply_all
told-updates auto did [] t = refl
told-updates auto did (u ∷ us) t =
    let (t1, first) = apply auto u t in
    let (t2, later) = apply_all auto us t1 in
    Tells-compose did t t1 t2 first later (told-apply auto did u t) (told-updates auto did us t1)
