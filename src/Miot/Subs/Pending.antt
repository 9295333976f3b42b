-- ===== src/Miot/Subs/Pending.antt =====
-- client.go: the subscriptions while changes are still to be handled.
use go_mihome.Common.{
  ◌≡◌, ◌⊎◌, refl, sym, ap, ◌∙◌, List, [], ◌∷◌, Bool, true, false, ◌&&◌, arith, Bool-cases, inl, inr,
  All,
}
use go_mihome.Common.Bytes.{bytes_eq, bytes_eq_iff}
use go_mihome.Miot.Entry.{Change}
use go_mihome.Miot.Refresh.{Table}
use go_mihome.Miot.Update.{Update, apply}
use go_mihome.Miot.Update.Keeps.{source_of}
use go_mihome.Miot.Update.Announced.{announced, Announces, Announces-apply}
use go_mihome.Miot.Subs.{
  Sub, MiotClient, Sources, rebind_subscription, rebind_list, rebind_subscriptions_for_device,
  handle_change, handle_changes,
}

-- The subscription is bound to the push source of its device.
abbrev pub Bound : Table → Sub → Type 0
Bound t s = s.source ≡ source_of s.did t

-- The subscription is bound to the source of its device, or a change that is still to be handled
-- announces a new one.
abbrev pub Pending : Table → List Change → Sub → Type 0
Pending t cs s = Bound t s ⊎ (announced s.did cs ≡ true)

pub rebind-source :
    (b : Sources) (t : Table) (s : Sub)
    → ((rebind_subscription b t s).0.source ≡ source_of s.did t)
      × ((rebind_subscription b t s).0.did ≡ s.did)
unfolding rebind_subscription
rebind-source b t s = elim (Bool-cases (bytes_eq s.source (source_of s.did t))) [
  | inl same ↦ rw same ((bytes_eq_iff s.source (source_of s.did t)).0 same, refl)
  | inr other ↦ rw other (refl, refl)
]

pub Pending-rebind :
    (b : Sources) (t : Table) (cs : List Change) (s : Sub)
    → Pending t cs (rebind_subscription b t s).0
Pending-rebind b t cs s =
    let (bound, same) = rebind-source b t s in inl (bound ∙ ap (λ d. source_of d t) (sym same))

pub Pending-later :
    (t : Table) (c : Change) (cs : List Change) (s : Sub)
    → (c.source_changed && bytes_eq c.did s.did) ≡ false
    → Pending t (c ∷ cs) s
    → Pending t cs s
Pending-later t c cs s h (inl e) = inl e
Pending-later t c cs s h (inr a) = inr (rw h at a)

-- Rebinding the subscriptions of the device that a change is about settles the change for the list.
pub rebind_list-Pending :
    (b : Sources) (t : Table) (c : Change) (cs : List Change) (ss : List Sub)
    → All (Pending t (c ∷ cs)) ss
    → All (Pending t cs) (rebind_list b t c.did ss).0
unfolding rebind_list
rebind_list-Pending b t c cs [] h = tt
rebind_list-Pending b t c cs (s ∷ ss) (h, hs) = elim (Bool-cases (bytes_eq s.did c.did)) [
  | inl own ↦ rw own (Pending-rebind b t cs s, rebind_list-Pending b t c cs ss hs)
  | inr other ↦
      let not_own : (c.source_changed && bytes_eq c.did s.did) ≡ false =
        ground (arith, bytes_eq_iff s.did c.did, bytes_eq_iff c.did s.did) in
      rw other (Pending-later t c cs s not_own h, rebind_list-Pending b t c cs ss hs)
]

pub All-later :
    (t : Table) (c : Change) (cs : List Change) (ss : List Sub)
    → c.source_changed ≡ false
    → All (Pending t (c ∷ cs)) ss
    → All (Pending t cs) ss
All-later t c cs [] e h = tt
All-later t c cs (s ∷ ss) e (h, hs) = (Pending-later t c cs s (rw e) h, All-later t c cs ss e hs)

abbrev pub AllPending : List Change → MiotClient → Type 0
AllPending cs c = All (Pending c.devices cs) c.prop_subs × All (Pending c.devices cs) c.event_subs

pub handle_change-Pending :
    (b : Sources) (change : Change) (cs : List Change) (c : MiotClient)
    → AllPending (change ∷ cs) c
    → AllPending cs (handle_change b change c).0
unfolding handle_change rebind_subscriptions_for_device
handle_change-Pending b change cs c (p, e) = elim (Bool-cases change.source_changed) [
  | inl moved ↦ rw moved (
    rebind_list-Pending b c.devices change cs c.prop_subs p,
    rebind_list-Pending b c.devices change cs c.event_subs e,
  )
  | inr still ↦ rw still (
    All-later c.devices change cs c.prop_subs still p,
    All-later c.devices change cs c.event_subs still e,
  )
]

pub handle_changes-Pending :
    (b : Sources) (cs : List Change) (c : MiotClient)
    → AllPending cs c
    → AllPending [] (handle_changes b cs c).0
unfolding handle_changes
handle_changes-Pending b [] c h = h
handle_changes-Pending b (change ∷ rest) c h =
    handle_changes-Pending b rest (handle_change b change c).0
      (handle_change-Pending b change rest c h)

-- After an update of the table nothing is wrong that the changes do not announce.
pub Pending-apply :
    (auto : Bool) (u : Update) (t : Table) (ss : List Sub)
    → All (Bound t) ss
    → All (Pending (apply auto u t).0 (apply auto u t).1) ss
Pending-apply auto u t [] h = tt
Pending-apply auto u t (s ∷ ss) (h, hs) =
    (moved h (Announces-apply auto s.did u t), Pending-apply auto u t ss hs)
  where
    moved :
        Bound t s
        → Announces s.did t (apply auto u t)
        → Pending (apply auto u t).0 (apply auto u t).1 s
    moved e (inl k) = inl (e ∙ sym k)
    moved e (inr a) = inr a

pub settled : (t : Table) (ss : List Sub) → All (Pending t []) ss → All (Bound t) ss
settled t [] h = tt
settled t (s ∷ ss) (inl e, hs) = (e, settled t ss hs)
settled t (s ∷ ss) (inr a, hs) = absurd (ground arith)
