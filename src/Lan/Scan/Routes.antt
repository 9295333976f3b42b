-- ===== src/Lan/Scan/Routes.antt =====
-- lan.go: which devices a scan probes, and what it leaves of their states.
use go_mihome.Common.{
  ℕ, ◌≡◌, ◌⊎◌, refl, sym, ap, ◌∙◌, List, [], ◌∷◌, none, some, true, false, arith, if◌then◌else◌,
  Bool-cases, inl, inr,
}
use go_mihome.Common.Bytes.{Bytes, bytes_eq, bytes_eq_iff, bytes_eq_refl}
use go_mihome.Common.Dict.{Dict, lookup, insert, lookup-insert}
use go_mihome.Lan.Packet.{LanDevice}
use go_mihome.Lan.Runtime.Device.{LanDeviceState, step}
use go_mihome.Lan.Client.{LanClient, record_signal, state_or_new}
use go_mihome.Lan.Scan.{Route, is_due, route_to, note_routes, Answers, signal_of, probe_all}

-- The device is not on the routes.
Absent : Bytes → List Route → Type 0
Absent did [] = Unit
Absent did (x ∷ xs) = (bytes_eq x.did did ≡ false) × Absent did xs

-- The device is on the routes once, by this route.
pub Once : Bytes → Route → List Route → Type 0
Once did r [] = ⊥
Once did r (x ∷ xs) =
    ((x ≡ r) × (bytes_eq r.did did ≡ true) × Absent did xs)
    ⊎ ((bytes_eq x.did did ≡ false) × Once did r xs)

-- The keys of a table of devices are distinct.
unfoldable pub IsMap : Dict LanDevice → Type 0
IsMap [] = Unit
IsMap ((did, d) ∷ m) = (lookup did m ≡ none) × IsMap m

probe_all-Absent :
    (answers : Answers) (did : Bytes) (rs : List Route) (c : LanClient)
    → Absent did rs
    → lookup did (probe_all answers rs c).0.device_state ≡ lookup did c.device_state
unfolding probe_all record_signal Absent
probe_all-Absent answers did [] c h = refl
probe_all-Absent answers did (r ∷ rs) c (other, h) =
    let (outcome, at) = answers r in
    let (t, first) = record_signal at (signal_of outcome) r.did c in
    probe_all-Absent answers did rs t h
    ∙ (lookup-insert r.did did
          (step c.runtime at (signal_of outcome) (state_or_new (lookup r.did c.device_state))).0
          c.device_state
        ∙ rw other)

pub probe_all-Once :
    (answers : Answers) (did : Bytes) (r : Route) (rs : List Route) (c : LanClient)
    → Once did r rs
    → let (outcome, at) = answers r in
      lookup did (probe_all answers rs c).0.device_state
      ≡ some (step c.runtime at (signal_of outcome) (state_or_new (lookup did c.device_state))).0
unfolding probe_all record_signal Once
probe_all-Once answers did r [] c h = absurd h
probe_all-Once answers did r (x ∷ xs) c (inl (same, own, h)) =
    let (outcome, at) = answers x in
    let (t, first) = record_signal at (signal_of outcome) x.did c in
    let probed : Route → LanDeviceState = λ y.
      (step c.runtime (answers y).1 (signal_of (answers y).0)
        (state_or_new (lookup y.did c.device_state))).0 in
    let own_x : bytes_eq x.did did ≡ true = ap (λ (y : Route). bytes_eq y.did did) same ∙ own in
    probe_all-Absent answers did xs t h
    ∙ (lookup-insert x.did did (probed x) c.device_state ∙ rw own_x)
    ∙ ap (λ y. some (probed y)) same
    ∙ ap
        (λ k.
          some
            (step c.runtime (answers r).1 (signal_of (answers r).0)
              (state_or_new (lookup k c.device_state))).0)
        ((bytes_eq_iff r.did did).0 own)
probe_all-Once answers did r (x ∷ xs) c (inr (other, h)) =
    let (outcome, at) = answers x in
    let (t, first) = record_signal at (signal_of outcome) x.did c in
    let probed : LanDeviceState =
      (step c.runtime at (signal_of outcome) (state_or_new (lookup x.did c.device_state))).0 in
    probe_all-Once answers did r xs t h
    ∙ ap (λ o. some (step c.runtime (answers r).1 (signal_of (answers r).0) (state_or_new o)).0)
        (lookup-insert x.did did probed c.device_state ∙ skipped probed)
  where
    skipped :
        (probed : LanDeviceState)
        → (if bytes_eq x.did did then some probed else lookup did c.device_state)
          ≡ lookup did c.device_state
    skipped probed = rw other

-- What the loop over the devices leaves of a device that is not in the rest of the table.
note_routes-Absent :
    (now : ℕ) (did : Bytes) (m : Dict LanDevice) (states : Dict LanDeviceState)
    → lookup did m ≡ none
    → let (after, rs) = note_routes now m states in
      (lookup did after ≡ lookup did states) × Absent did rs
unfolding note_routes Absent lookup
note_routes-Absent now did [] states h = (refl, tt)
note_routes-Absent now did ((j, d) ∷ m) states h = elim (Bool-cases (bytes_eq j did)) [
  | inl same ↦ absurd (ground (arith, rw same at h))
  | inr other ↦
      let s = state_or_new (lookup j states) in
      let absent = rw other at h in
      elim (Bool-cases (is_due now d s)) [
        | inl due ↦
            let (kept, rest) =
              note_routes-Absent now did m (insert j (record s { last_probe = now }) states)
                absent in
            rw due (
              kept ∙ (lookup-insert j did (record s { last_probe = now }) states ∙ rw other),
              (other, rest),
            )
        | inr not_due ↦
            let (kept, rest) = note_routes-Absent now did m (insert j s states) absent in
            rw not_due (kept ∙ (lookup-insert j did s states ∙ rw other), rest)
      ]
]

-- A device that is due is probed once, and its state notes the time.
pub note_routes-due :
    (now : ℕ) (did : Bytes) (d : LanDevice) (s : LanDeviceState) (m : Dict LanDevice)
    (states : Dict LanDeviceState)
    → IsMap m
    → lookup did m ≡ some d
    → lookup did states ≡ some s
    → is_due now d s ≡ true
    → let (after, rs) = note_routes now m states in
      (lookup did after ≡ some (record s { last_probe = now })) × Once did (route_to did d) rs
unfolding note_routes Once lookup IsMap
note_routes-due now did d s [] states t known has due = absurd (ground arith)
note_routes-due now did d s ((j, x) ∷ m) states (once, t) known has due =
    elim (Bool-cases (bytes_eq j did)) [
      | inl same ↦
          let key : j ≡ did = (bytes_eq_iff j did).0 same in
          let is : x ≡ d = same_device x d (rw same at known) in
          let found : lookup j states ≡ some s = ap (λ k. lookup k states) key ∙ has in
          let due_x : is_due now x s ≡ true = ap (λ y. is_due now y s) is ∙ due in
          let noted : LanDeviceState = record s { last_probe = now } in
          let (kept, rest) =
            note_routes-Absent now did m (insert j noted states)
              (ap (λ k. lookup k m) (sym key) ∙ once) in
          rw found (
            rw due_x (
              kept ∙ (lookup-insert j did noted states ∙ rw same),
              inl (ap (λ k. route_to k x) key ∙ ap (route_to did) is, bytes_eq_refl did, rest),
            ))
      | inr other ↦
          let later = rw other at known in
          let noted : LanDeviceState = record (state_or_new (lookup j states)) {
            last_probe = now;
          } in
          elim (Bool-cases (is_due now x (state_or_new (lookup j states)))) [
            | inl due_x ↦
                let (kept, on) =
                  note_routes-due now did d s m (insert j noted states) t later
                    (lookup-insert j did noted states ∙ rw other has) due in
                rw due_x (kept, inr (other, on))
            | inr not_due ↦
                let (kept, on) =
                  note_routes-due now did d s m (insert j (state_or_new (lookup j states)) states) t
                    later
                    (lookup-insert j did (state_or_new (lookup j states)) states ∙ rw other has)
                    due in
                rw not_due (kept, on)
          ]
    ]
  where
    same_device : (x d : LanDevice) → some x ≡ some d → x ≡ d
    same_device x d e = cc
