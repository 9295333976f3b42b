-- ===== src/Lan/Runtime/Device/Bounds.antt =====
-- lan.go: the bounds that the probing keeps, whatever the probes answer.
use go_mihome.Common.{ℕ, ◌≤◌, ◌<◌, ◌≡◌, List, [], ◌∷◌, true, arith}
use go_mihome.Lan.Runtime.Config.{
  LanRuntimeConfig, keepalive_interval_min, keepalive_interval_max, keepalive_interval_bounds,
}
use go_mihome.Lan.Runtime.Device.{
  LanDeviceState, new_device_state, next_keepalive, step, run, Signal, success, failure, shutdown,
}

-- The interval between probes lies within the configured limits once a device has answered.
pub next_keepalive_bounds :
    (r : LanRuntimeConfig) (s : LanDeviceState)
    → (keepalive_interval_min r ≤ next_keepalive r s)
      × (next_keepalive r s ≤ keepalive_interval_max r)
unfolding next_keepalive
next_keepalive_bounds r s = ground (arith, keepalive_interval_bounds r)

-- The invariant of a device's state.
pub record IsSound (r : LanRuntimeConfig) (s : LanDeviceState) : Type 0 where
  pub interval_low : s.online ≡ true → keepalive_interval_min r ≤ s.keepalive_interval
  pub interval_high : s.keepalive_interval ≤ keepalive_interval_max r
  pub retries : s.online ≡ true → 0 < r.offline_threshold → s.retry_count < r.offline_threshold
  pub missed : s.missed_pings ≤ s.retry_count
  pub later : s.last_probe ≤ s.next_probe

new_device_state-IsSound : (r : LanRuntimeConfig) → IsSound r new_device_state
new_device_state-IsSound r = ground arith

pub step-IsSound :
    (r : LanRuntimeConfig) (now : ℕ) (signal : Signal) (s : LanDeviceState)
    → IsSound r s
    → IsSound r (step r now signal s).0
unfolding step
step-IsSound r now success s h =
    ground (arith, next_keepalive_bounds r s, keepalive_interval_bounds r)
step-IsSound r now failure s h = ground (arith, keepalive_interval_bounds r)
step-IsSound r now shutdown s h = ground arith

run-IsSound_from :
    (r : LanRuntimeConfig) (signals : List (ℕ × Signal)) (s : LanDeviceState)
    → IsSound r s
    → IsSound r (run r signals s).0
unfolding run
run-IsSound_from r [] s h = h
run-IsSound_from r ((now, signal) ∷ rest) s h =
    run-IsSound_from r rest (step r now signal s).0 (step-IsSound r now signal s h)

-- After any history of probes and shutdowns, at any times, a device's state is sound: its probing
-- interval is at most the maximum, and at least the minimum if it is online; an online device has missed
-- fewer probes in a row than the offline threshold, if there is one; the next probe is not before the
-- last one.
pub run-IsSound :
    (r : LanRuntimeConfig) (signals : List (ℕ × Signal))
    → IsSound r (run r signals new_device_state).0
run-IsSound r signals = run-IsSound_from r signals new_device_state (new_device_state-IsSound r)
