-- ===== src/Lan/Client/Overlap.antt =====
-- lan.go: a vote and a Start that a change of the central gateway overtakes at the release of the lock.
use go_mihome.Common.{
  ◌≡◌, ◌≢◌, refl, [], ◌∷◌, Bool, true, false, arith, none, inl, inr, Bool-cases, ap, ◌∙◌,
  if◌then◌else◌,
}
use go_mihome.Common.Bytes.{Bytes, bytes_eq, bytes_eq_iff}
use go_mihome.Common.Dict.{Dict, insert}
use go_mihome.Lan.Client.{
  LanClient, effective, start_runtime, stop_runtime, switch_runtime, mark_all_devices_offline,
  set_enabled, set_central_gateway_present, any_vote, cast_vote,
}

any_vote-insert : (key : Bytes) (votes : Dict Bool) → any_vote (insert key true votes) ≡ true
unfolding any_vote insert
any_vote-insert key [] = refl
any_vote-insert key ((k, v) ∷ rest) = elim (Bool-cases (bytes_eq k key)) [
  | inl e ↦ rw e refl
  | inr e ↦ rw e (ground (arith, any_vote-insert key rest))
]

-- A central gateway comes and LAN control is switched off for it, and then the runtime is switched as it was
-- decided before.
abbrev pub overtaken : LanClient → LanClient
overtaken t =
    let u = (set_central_gateway_present true none t).0 in (switch_runtime (effective t) none u).0

overtaken_runs :
    (t : LanClient)
    → t.enabled ≡ true
    → t.central_gateway_present ≡ false
    → ((overtaken t).running ≡ true) × (effective (overtaken t) ≡ false)
unfolding set_central_gateway_present switch_runtime start_runtime stop_runtime
    mark_all_devices_offline
overtaken_runs t on free = (ground arith, ground arith)

-- A vote for LAN control that a central gateway overtakes, after the vote has been counted and before it
-- switches the runtime, leaves the runtime running though LAN control is off, if there was no gateway before,
-- the vote has a key and the transport can listen.
pub overlapped_vote :
    (key : Bytes) (c : LanClient)
    → key ≢ []
    → c.central_gateway_present ≡ false
    → ((overtaken (cast_vote key true c)).running ≡ true)
      × (effective (overtaken (cast_vote key true c)) ≡ false)
overlapped_vote key c named before =
    let no_text : bytes_eq key [] ≡ false = ground (arith, bytes_eq_iff key []) in
    overtaken_runs (cast_vote key true c)
      (ap (λ b. any_vote (if b then c.lan_votes else insert key true c.lan_votes)) no_text
        ∙ any_vote-insert key c.lan_votes)
      before

-- Start has enabled LAN control and has seen no gateway; one comes, and then the runtime is started.
abbrev pub started_late : LanClient → LanClient
started_late c =
    let u = (set_central_gateway_present true none (set_enabled true c).0).0 in
    (start_runtime none u).0

-- The same for Start, if a central gateway comes between its test and the start of the runtime.
pub overlapped_start :
    (c : LanClient)
    → c.central_gateway_present ≡ false
    → ((started_late c).running ≡ true) × (effective (started_late c) ≡ false)
unfolding set_central_gateway_present set_enabled switch_runtime start_runtime stop_runtime
    mark_all_devices_offline
overlapped_start c free = (ground arith, ground arith)
