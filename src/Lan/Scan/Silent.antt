-- ===== src/Lan/Scan/Silent.antt =====
-- lan.go: scans that a device does not answer.
use go_mihome.Common.{
  ℕ, ◌+◌, ◌≤◌, ◌<◌, ◌≡◌, refl, sym, ap, ◌∙◌, List, [], ◌∷◌, some, Bool, true, false, not, ◌==◌,
  arith, if◌then◌else◌, length, subst, Bool-cases, inl, inr,
}
use go_mihome.Common.Result.{Fault}
use go_mihome.Common.Bytes.{Bytes, bytes_eq}
use go_mihome.Common.Dict.{lookup}
use go_mihome.Lan.Packet.{LanDevice}
use go_mihome.Lan.Runtime.Broadcast.{BroadcastState, broadcast_targets}
use go_mihome.Lan.Runtime.Config.{LanRuntimeConfig, fast_retry_interval}
use go_mihome.Lan.Runtime.Device.{LanDeviceState, failure, step}
use go_mihome.Lan.Client.{LanClient, record_signal, state_or_new}
use go_mihome.Lan.Scan.{
  Route, Round, is_due, route_to, note_routes, Answers, signal_of, probe_all, Scanned, scan_devices,
  scan_all, broadcast_scan,
}
use go_mihome.Lan.Scan.Routes.{IsMap, probe_all-Once, note_routes-due}

-- The probing of the device: LAN control is on, and the device is in the table with an address and a state.
pub record IsWatched (did : Bytes) (d : LanDevice) (s : LanDeviceState) (c : LanClient)
    : Type 0 where
  pub enabled : c.enabled ≡ true
  pub distinct : IsMap c.devices
  pub known : lookup did c.devices ≡ some d
  pub address : bytes_eq d.ip [] ≡ false
  pub has_state : lookup did c.device_state ≡ some s

-- No ping of the device is answered, and each round starts when the device is to be probed again.
abbrev pub Unanswered : LanRuntimeConfig → Route → ℕ → List Round → Type 0
Unanswered r route earliest [] = Unit
Unanswered r route earliest (x ∷ xs) =
    let (outcome, at) = x.answers route in
    (earliest ≤ x.now)
    × ((e : Fault) × (outcome ≡ some e))
    × Unanswered r route (at + fast_retry_interval r) xs

-- The rest of the client stays as it is.
Keeps : LanClient → LanClient → Type 0
Keeps c t = (t.enabled ≡ c.enabled) × (t.devices ≡ c.devices) × (t.runtime ≡ c.runtime)

probe_all-Keeps :
    (answers : Answers) (rs : List Route) (c : LanClient) → Keeps c (probe_all answers rs c).0
unfolding probe_all record_signal Keeps
probe_all-Keeps answers [] c = (refl, refl, refl)
probe_all-Keeps answers (r ∷ rs) c =
    let (outcome, at) = answers r in
    probe_all-Keeps answers rs (record_signal at (signal_of outcome) r.did c).0

module _ (broadcasts : Bool) (virtual_did did : Bytes) (d : LanDevice) where
  abbrev route : Route
  route = route_to did d

  -- What a round leaves of a client of which LAN control is on.
  scan_client :
      (answers : Answers) (now : ℕ) (b : BroadcastState) (c : LanClient)
      → c.enabled ≡ true
      → (scan_devices answers broadcasts virtual_did now b c).client
        ≡ (probe_all answers
            (note_routes now c.devices c.device_state).1
            (record c { device_state = (note_routes now c.devices c.device_state).0 })).0
  unfolding scan_devices
  scan_client answers now b c on =
      let (states, routes) = note_routes now c.devices c.device_state in
      let (b1, ifs) = broadcast_targets c.runtime now b in
      let (t, notices) = probe_all answers routes (record c { device_state = states }) in
      let quiet : Scanned = record { client = c; broadcast = b; notices = []; sent = [] } in
      let loud : Scanned = record {
        client = t;
        broadcast = b1;
        notices = notices;
        sent = broadcast_scan broadcasts virtual_did ifs;
      } in
      ap (λ x. (if not x then quiet else loud).client) on

  -- A round in which the device is due takes the state through one step.
  scanned :
      (answers : Answers) (now : ℕ) (b : BroadcastState) (s : LanDeviceState) (c : LanClient)
      → IsWatched did d s c
      → s.next_probe ≤ now
      → let t = (scan_devices answers broadcasts virtual_did now b c).client in
        let (outcome, at) = answers route in
        Keeps c t
        × IsWatched did d
            (step c.runtime at (signal_of outcome) (record s { last_probe = now })).0
            t
  unfolding Keeps is_due
  scanned answers now b s c w h =
      let due : is_due now d s ≡ true = ground (arith, w.address, h) in
      let noted =
        note_routes-due now did d s c.devices c.device_state w.distinct w.known w.has_state due in
      let rs = (note_routes now c.devices c.device_state).1 in
      let start : LanClient = record c {
        device_state = (note_routes now c.devices c.device_state).0;
      } in
      let kept = probe_all-Keeps answers rs start in
      let stepped = probe_all-Once answers did route rs start noted.1 in
      subst
        (λ t.
          Keeps c t
          × IsWatched did d
              (step c.runtime (answers route).1 (signal_of (answers route).0)
                (record s { last_probe = now })).0
              t)
        (sym (scan_client answers now b c w.enabled))
        (
          kept,
          record {
            enabled = kept.0 ∙ w.enabled;
            distinct = subst (λ m. IsMap m) (sym kept.1) w.distinct;
            known = ap (lookup did) kept.1 ∙ w.known;
            address = w.address;
            has_state =
                stepped
                ∙ ap
                    (λ o.
                      some
                        (step c.runtime (answers route).1 (signal_of (answers route).0)
                          (state_or_new o)).0)
                    noted.0;
          },
        )

  -- A failed probe of a device that is online.
  failed :
      (r : LanRuntimeConfig) (at now : ℕ) (s : LanDeviceState)
      → s.online ≡ true
      → let t = (step r at failure (record s { last_probe = now })).0 in
        (s.retry_count + 1 < r.offline_threshold
          → (t.online ≡ true)
            × (t.retry_count ≡ s.retry_count + 1)
            × (t.next_probe ≡ at + fast_retry_interval r))
        × (s.retry_count + 1 ≡ r.offline_threshold → t.online ≡ false)
  unfolding step
  failed r at now s on = (λ h. (ground arith, ground arith, ground arith), λ h. ground arith)

  -- The state after a round in which the device was due and did not answer.
  abbrev missed : Round → LanDeviceState → LanClient → LanDeviceState
  missed x s c = (step c.runtime (x.answers route).1 failure (record s { last_probe = x.now })).0

  silent_round :
      (x : Round) (b : BroadcastState) (s : LanDeviceState) (c : LanClient) (e : Fault)
      → IsWatched did d s c
      → s.next_probe ≤ x.now
      → (x.answers route).0 ≡ some e
      → let t = (scan_devices x.answers broadcasts virtual_did x.now b c).client in
        Keeps c t × IsWatched did d (missed x s c) t
  silent_round x b s c e w due no_answer =
      let t = (scan_devices x.answers broadcasts virtual_did x.now b c).client in
      let (kept, seen) = scanned x.answers x.now b s c w due in
      (
        kept,
        subst
            (λ o.
              IsWatched did d
                (step c.runtime (x.answers route).1 (signal_of o)
                  (record s { last_probe = x.now })).0
                t)
            no_answer seen,
      )

  -- A device that is online and answers no more stays online through the rounds that probe it, each after
  -- the fast retry interval, until its failures reach the threshold, and then is offline.
  pub silent_device :
      (rounds : List Round) (b : BroadcastState) (s : LanDeviceState) (c : LanClient)
      → IsWatched did d s c
      → s.online ≡ true
      → Unanswered c.runtime route s.next_probe rounds
      → 0 < length rounds
      → s.retry_count + length rounds ≤ c.runtime.offline_threshold
      → (t : LanDeviceState) × (lookup did (scan_all broadcasts virtual_did rounds b c).device_state
          ≡ some t)
        × (t.online ≡ not (s.retry_count + length rounds == c.runtime.offline_threshold))
  unfolding scan_all Keeps
  silent_device [] b s c w on silent some_round few = absurd (omega arith)
  silent_device (x ∷ []) b s c w on (due, (e, no_answer), silent) some_round few =
      let (kept, seen) = silent_round x b s c e w due no_answer in
      let (still, ended) = failed c.runtime (x.answers route).1 x.now s on in
      (
        missed x s c,
        seen.has_state,
        elim (Bool-cases (s.retry_count + 1 == c.runtime.offline_threshold)) [
          | inl same ↦ ended (ground (arith, same)) ∙ sym (ap not same)
          | inr other ↦ (still (ground (arith, other, few))).0 ∙ sym (ap not other)
        ],
      )
  silent_device (x ∷ y ∷ ys) b s c w on (due, (e, no_answer), silent) some_round few =
      let u = scan_devices x.answers broadcasts virtual_did x.now b c in
      let (kept, seen) = silent_round x b s c e w due no_answer in
      let (still, ended) = failed c.runtime (x.answers route).1 x.now s on in
      let (up, count, later) = still (omega arith) in
      let threshold = ap (λ (r : LanRuntimeConfig). r.offline_threshold) kept.2 in
      let left : (missed x s c).retry_count + length (y ∷ ys)
          ≡ s.retry_count + length (x ∷ y ∷ ys) =
        omega (arith, count) in
      let unanswered : Unanswered u.client.runtime route (missed x s c).next_probe (y ∷ ys) =
        subst (λ n. Unanswered u.client.runtime route n (y ∷ ys)) (sym later)
          (subst
            (λ r. Unanswered r route ((x.answers route).1 + fast_retry_interval c.runtime) (y ∷ ys))
            (sym kept.2) silent) in
      let (t, has, online) =
        silent_device (y ∷ ys) u.broadcast (missed x s c) u.client seen up unanswered (omega arith)
          (omega (arith, left, threshold, few)) in
      (
        t,
        has,
        online
            ∙ ap (λ n. not ((missed x s c).retry_count + length (y ∷ ys) == n)) threshold
            ∙ ap (λ n. not (n == c.runtime.offline_threshold)) left,
      )
