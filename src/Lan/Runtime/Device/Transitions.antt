-- ===== src/Lan/Runtime/Device/Transitions.antt =====
-- lan.go: what the state subscribers are told of a device.
use go_mihome.Common.{
  ℕ, ◌+◌, ◌≤◌, ◌<◌, ◌≡◌, ◌⊎◌, refl, sym, subst, List, [], ◌∷◌, ◌++◌, Option, none, some, Bool, true,
  false, arith, length, All, map, inl, inr, Bool-cases,
}
use go_mihome.Lan.Runtime.Config.{LanRuntimeConfig, unstable_resume_delay}
use go_mihome.Lan.Runtime.Device.{
  LanDeviceState, DeviceEvent, went_online, went_offline, record_ping_success, step, run, emit,
  noted, is_unstable_online_recovery, Signal, success, failure, shutdown,
}

-- The events that a device may have from here on: each is a change, from the state before it.
abbrev pub Alternates : Bool → List DeviceEvent → Bool → Type 0
Alternates b [] c = b ≡ c
Alternates b (went_online ∷ es) c = (b ≡ false) × Alternates true es c
Alternates b (went_offline ∷ es) c = (b ≡ true) × Alternates false es c

step-Alternates :
    (r : LanRuntimeConfig) (now : ℕ) (signal : Signal) (s : LanDeviceState)
    → Alternates s.online (emit (step r now signal s).1 []) (step r now signal s).0.online
unfolding step
step-Alternates r now success s = ground arith
step-Alternates r now failure s = ground arith
step-Alternates r now shutdown s = ground arith

Alternates-emit :
    (e : Option DeviceEvent) (es : List DeviceEvent) (b c d : Bool)
    → Alternates b (emit e []) c
    → Alternates c es d
    → Alternates b (emit e es) d
Alternates-emit none es b c d h k = subst (λ x. Alternates x es d) (sym h) k
Alternates-emit (some went_online) es b c d h k = (h.0, subst (λ x. Alternates x es d) (sym h.1) k)
Alternates-emit (some went_offline) es b c d h k = (h.0, subst (λ x. Alternates x es d) (sym h.1) k)

-- Subscribers are told of changes only: online and offline alternate, beginning from the state before
-- the run, and the last event gives the state after it.
pub run-Alternates :
    (r : LanRuntimeConfig) (signals : List (ℕ × Signal)) (s : LanDeviceState)
    → Alternates s.online (run r signals s).1 (run r signals s).0.online
unfolding run
run-Alternates r [] s = refl
run-Alternates r ((now, signal) ∷ rest) s =
    let t = (step r now signal s).0 in
    Alternates-emit (step r now signal s).1 (run r rest t).1 s.online t.online _
      (step-Alternates r now signal s) (run-Alternates r rest t)

-- A step before the end of the suppression does not bring the device online.
step_suppressed :
    (r : LanRuntimeConfig) (now : ℕ) (signal : Signal) (s : LanDeviceState)
    → s.online ≡ false
    → now < s.suppress_online_until
    → ((step r now signal s).1 ≡ none)
      × ((step r now signal s).0.online ≡ false)
      × ((step r now signal s).0.suppress_online_until ≡ s.suppress_online_until)
unfolding step
step_suppressed r now success s off h = ground arith
step_suppressed r now failure s off h = ground arith
step_suppressed r now shutdown s off h = ground arith

abbrev pub Before : ℕ → List (ℕ × Signal) → Type 0
Before end = All (λ p. p.0 < end)

-- While a device is suppressed nothing is reported of it, and it stays offline: all signals that come
-- before the suppression's end leave it so.
pub run_suppressed :
    (r : LanRuntimeConfig) (signals : List (ℕ × Signal)) (s : LanDeviceState)
    → s.online ≡ false
    → Before s.suppress_online_until signals
    → ((run r signals s).1 ≡ []) × ((run r signals s).0.online ≡ false)
unfolding run
run_suppressed r [] s off h = (refl, off)
run_suppressed r ((now, signal) ∷ rest) s off h =
    let (quiet, still, same) = step_suppressed r now signal s off h.0 in
    let t = (step r now signal s).0 in
    let (silent, down) =
      run_suppressed r rest t still (subst (λ u. Before u rest) (sym same) h.1) in
    (rw (quiet, silent), down)

-- A device that answers while it is offline and not suppressed comes online exactly if it has had fewer
-- transitions in the window than the threshold, this one included, or the oldest of them is out of the
-- window; else it is suppressed for the resume delay, and nothing is reported.
pub success_offline :
    (r : LanRuntimeConfig) (now : ℕ) (s : LanDeviceState)
    → s.online ≡ false
    → s.suppress_online_until ≤ now
    → let (t, e) = record_ping_success r now s in
      ((is_unstable_online_recovery r (noted r now s) now ≡ false)
        × (t.online ≡ true)
        × (e ≡ some went_online))
      ⊎ ((is_unstable_online_recovery r (noted r now s) now ≡ true)
          × (t.online ≡ false)
          × (e ≡ none)
          × (t.suppress_online_until ≡ now + unstable_resume_delay r))
unfolding record_ping_success
success_offline r now s off due =
    elim (Bool-cases (is_unstable_online_recovery r (noted r now s) now)) [
      | inl e ↦ inr (ground arith)
      | inr e ↦ inl (ground arith)
    ]

abbrev pub failures : List ℕ → List (ℕ × Signal)
failures = map (λ now. (now, failure))

failure_online :
    (r : LanRuntimeConfig) (now : ℕ) (s : LanDeviceState)
    → s.online ≡ true
    → s.retry_count + 1 < r.offline_threshold
    → ((step r now failure s).1 ≡ none)
      × ((step r now failure s).0.online ≡ true)
      × ((step r now failure s).0.retry_count ≡ s.retry_count + 1)
unfolding step
failure_online r now s on h = ground arith

failure_last :
    (r : LanRuntimeConfig) (now : ℕ) (s : LanDeviceState)
    → s.online ≡ true
    → s.retry_count + 1 ≡ r.offline_threshold
    → ((step r now failure s).1 ≡ some went_offline) × ((step r now failure s).0.online ≡ false)
unfolding step
failure_last r now s on h = ground arith

-- An online device is reported offline by the failure that reaches the threshold, and by none before:
-- with k failures in a row behind it, it takes the threshold less k.
pub failures_offline :
    (r : LanRuntimeConfig) (times : List ℕ) (last : ℕ) (s : LanDeviceState)
    → s.online ≡ true
    → s.retry_count + length times + 1 ≡ r.offline_threshold
    → ((run r (failures times) s).1 ≡ [])
      × ((run r (failures times) s).0.online ≡ true)
      × ((run r (failures (times ++ last ∷ [])) s).1 ≡ went_offline ∷ [])
unfolding run
failures_offline r [] last s on h =
    let (told, down) = failure_last r last s on (omega arith) in (refl, on, rw told)
failures_offline r (now ∷ times) last s on h =
    let (quiet, still, more) = failure_online r now s on (omega arith) in
    let (a, b, c) = failures_offline r times last (step r now failure s).0 still (omega arith) in
    (rw (quiet, a), b, rw (quiet, c))
