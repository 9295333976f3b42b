-- ===== src/Lan/Runtime/Device.antt =====
-- lan.go: the state that the runtime keeps of one device, and how the results of its probes change it.
pub mod Bounds
pub mod Transitions
use go_mihome.Common.{
  ℕ, suc, ◌+◌, ◌*◌, List, [], ◌∷◌, ◌++◌, Option, none, some, Bool, true, false, ◌&&◌, ◌||◌, not,
  ◌==◌, ltb, leb, if◌then◌else◌, length, get_or,
}
use go_mihome.Lan.Runtime.Config.{
  LanRuntimeConfig, fast_retry_interval, keepalive_interval_min, keepalive_interval_max,
  unstable_window, unstable_resume_delay, unstable_transition_threshold,
}

pub record LanDeviceState : Type 0 where
  pub online : Bool
  pub push_available : Bool
  pub wildcard_supported : Bool
  pub missed_pings : ℕ
  pub retry_count : ℕ
  pub last_seen : ℕ
  pub last_probe : ℕ
  pub next_probe : ℕ
  pub keepalive_interval : ℕ
  pub suppress_online_until : ℕ
  pub transition_history : List ℕ
  pub last_probe_sub_ts : ℕ
  pub last_subscribe_ts : ℕ

-- `&lanDeviceState{}`.
abbrev pub new_device_state : LanDeviceState
new_device_state = record {
  online = false;
  push_available = false;
  wildcard_supported = false;
  missed_pings = 0;
  retry_count = 0;
  last_seen = 0;
  last_probe = 0;
  next_probe = 0;
  keepalive_interval = 0;
  suppress_online_until = 0;
  transition_history = [];
  last_probe_sub_ts = 0;
  last_subscribe_ts = 0;
}

-- DeviceStateOnline and DeviceStateOffline, as the state subscribers are told.
pub data DeviceEvent : Type 0 where
  went_online went_offline : DeviceEvent

-- `item.After(now.Add(-window))`, with the window on the other side.
abbrev keep_recent : ℕ → ℕ → List ℕ → List ℕ
keep_recent window now [] = []
keep_recent window now (t ∷ ts) =
    let rest = keep_recent window now ts in if ltb now (t + window) then t ∷ rest else rest

unfoldable pub prune_transition_history : LanRuntimeConfig → List ℕ → ℕ → List ℕ
prune_transition_history r history now =
    if unstable_window r == 0 then [] else keep_recent (unstable_window r) now history

unfoldable pub is_unstable_online_recovery : LanRuntimeConfig → List ℕ → ℕ → Bool
is_unstable_online_recovery r history now =
    if unstable_transition_threshold r == 0
    then false
    else if ltb (length history) (unstable_transition_threshold r)
    then false
    else if unstable_window r == 0
    then false
    else leb now (get_or history 0 0 + unstable_window r)

-- The interval until the next probe: it starts at the minimum and doubles up to the maximum.
pub next_keepalive : LanRuntimeConfig → LanDeviceState → ℕ
next_keepalive r s =
    if s.keepalive_interval == 0 || not s.online
    then keepalive_interval_min r
    else (let doubled = s.keepalive_interval * 2 in
        let raised =
          if ltb doubled (keepalive_interval_min r) then keepalive_interval_min r else doubled in
        if ltb (keepalive_interval_max r) raised then keepalive_interval_max r else raised)

-- The part of recordPingSuccess that does not look at the transitions.
abbrev pub seen : LanRuntimeConfig → ℕ → LanDeviceState → LanDeviceState
seen r now s = record s {
  last_seen = now;
  last_probe = now;
  missed_pings = 0;
  retry_count = 0;
  keepalive_interval = next_keepalive r s;
  next_probe = now + next_keepalive r s;
}

abbrev pub noted : LanRuntimeConfig → ℕ → LanDeviceState → List ℕ
noted r now s = prune_transition_history r s.transition_history now ++ now ∷ []

unfoldable pub record_ping_success :
    LanRuntimeConfig → ℕ → LanDeviceState → LanDeviceState × Option DeviceEvent
record_ping_success r now s =
    if s.online
    then (seen r now s, none)
    else if ltb now s.suppress_online_until
    then (seen r now s, none)
    else if is_unstable_online_recovery r (noted r now s) now
    then (let t = seen r now s in
        (
          record t {
            transition_history = noted r now s;
            suppress_online_until = now + unstable_resume_delay r;
          },
          none,
        ))
    else (let t = seen r now s in
        (
          record t { transition_history = noted r now s; suppress_online_until = 0; online = true },
          some went_online,
        ))

unfoldable pub record_ping_failure :
    LanRuntimeConfig → ℕ → LanDeviceState → LanDeviceState × Option DeviceEvent
record_ping_failure r now s =
    let t = record s {
      last_probe = now;
      missed_pings = s.missed_pings + 1;
      retry_count = s.retry_count + 1;
    } in
    if s.online && (ltb 0 r.offline_threshold && leb r.offline_threshold (s.retry_count + 1))
    then (
      record t {
        transition_history = noted r now s;
        online = false;
        missed_pings = 0;
        retry_count = 0;
        keepalive_interval = keepalive_interval_min r;
        next_probe = now + keepalive_interval_min r;
      },
      some went_offline,
    )
    else (record t { next_probe = now + fast_retry_interval r }, none)

-- markAllDevicesOffline, for one device.
unfoldable pub mark_offline : LanDeviceState → LanDeviceState × Option DeviceEvent
mark_offline s =
    if s.online
    then (record s { online = false; missed_pings = 0 }, some went_offline)
    else (s, none)

-- updateProbeState, for the device that answered a probe.
unfoldable pub update_probe_state : LanDeviceState → ℕ → Bool → Bool → LanDeviceState
update_probe_state s update_ts wildcard has_subscription =
    if has_subscription
    then (let t = record s { wildcard_supported = wildcard; last_probe_sub_ts = update_ts } in
        if not (s.last_subscribe_ts == 0) && not (s.last_subscribe_ts == update_ts)
        then record t { push_available = false }
        else t)
    else s

-- What can happen to a device: a probe that was answered or not, or the end of LAN control.
pub data Signal : Type 0 where
  success failure shutdown : Signal

unfoldable pub step :
    LanRuntimeConfig → ℕ → Signal → LanDeviceState → LanDeviceState × Option DeviceEvent
unfolding record_ping_success record_ping_failure mark_offline
step r now success s = record_ping_success r now s
step r now failure s = record_ping_failure r now s
step r now shutdown s = mark_offline s

abbrev pub emit : Option DeviceEvent → List DeviceEvent → List DeviceEvent
emit none es = es
emit (some e) es = e ∷ es

unfoldable pub run :
    LanRuntimeConfig → List (ℕ × Signal) → LanDeviceState → LanDeviceState × List DeviceEvent
unfolding step
run r [] s = (s, [])
run r ((now, signal) ∷ rest) s =
    let (t, e) = step r now signal s in let (u, es) = run r rest t in (u, emit e es)
