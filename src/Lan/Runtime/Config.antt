-- ===== src/Lan/Runtime/Config.antt =====
-- lan.go: the configuration of the probing, and the intervals that it stands for.
use go_mihome.Common.{ℕ, ◌*◌, ◌≤◌, ◌<◌, List, [], ◌∷◌, ◌&&◌, ◌||◌, ◌==◌, ltb, if◌then◌else◌, arith}

pub record LanRuntimeConfig : Type 0 where
  pub probe_interval : ℕ
  pub fast_retry_interval : ℕ
  pub keepalive_interval_min : ℕ
  pub keepalive_interval_max : ℕ
  pub broadcast_interval_min : ℕ
  pub broadcast_interval_max : ℕ
  pub unstable_window : ℕ
  pub unstable_resume_delay : ℕ
  pub unstable_transition_threshold : ℕ
  pub offline_threshold : ℕ
  pub request_timeout : ℕ

abbrev pub second : ℕ
second = 1000000000

unfoldable pub default_lan_runtime_config : LanRuntimeConfig
default_lan_runtime_config = record {
  probe_interval = 30 * second;
  fast_retry_interval = 0;
  keepalive_interval_min = 0;
  keepalive_interval_max = 0;
  broadcast_interval_min = 5 * second;
  broadcast_interval_max = 45 * second;
  unstable_window = 120 * second;
  unstable_resume_delay = 300 * second;
  unstable_transition_threshold = 10;
  offline_threshold = 3;
  request_timeout = 2 * second;
}

abbrev positive_or : ℕ → ℕ → ℕ
positive_or new old = if ltb 0 new then new else old

-- WithLANRuntimeConfig: a field that is not positive keeps the value that the client has.
unfoldable pub with_lan_runtime_config : LanRuntimeConfig → LanRuntimeConfig → LanRuntimeConfig
with_lan_runtime_config cfg r = record {
  probe_interval = positive_or cfg.probe_interval r.probe_interval;
  fast_retry_interval = positive_or cfg.fast_retry_interval r.fast_retry_interval;
  keepalive_interval_min = positive_or cfg.keepalive_interval_min r.keepalive_interval_min;
  keepalive_interval_max = positive_or cfg.keepalive_interval_max r.keepalive_interval_max;
  broadcast_interval_min = positive_or cfg.broadcast_interval_min r.broadcast_interval_min;
  broadcast_interval_max = positive_or cfg.broadcast_interval_max r.broadcast_interval_max;
  unstable_window = positive_or cfg.unstable_window r.unstable_window;
  unstable_resume_delay = positive_or cfg.unstable_resume_delay r.unstable_resume_delay;
  unstable_transition_threshold =
      positive_or cfg.unstable_transition_threshold r.unstable_transition_threshold;
  offline_threshold = positive_or cfg.offline_threshold r.offline_threshold;
  request_timeout = positive_or cfg.request_timeout r.request_timeout;
}

unfoldable pub fast_retry_interval : LanRuntimeConfig → ℕ
fast_retry_interval r =
    if ltb 0 r.fast_retry_interval
    then r.fast_retry_interval
    else if ltb 0 r.probe_interval && ltb r.probe_interval (5 * second)
    then r.probe_interval
    else 5 * second

unfoldable pub keepalive_interval_min : LanRuntimeConfig → ℕ
keepalive_interval_min r =
    if ltb 0 r.keepalive_interval_min
    then r.keepalive_interval_min
    else if ltb 0 r.probe_interval
    then r.probe_interval
    else 10 * second

unfoldable pub keepalive_interval_max : LanRuntimeConfig → ℕ
unfolding keepalive_interval_min
keepalive_interval_max r =
    if ltb 0 r.keepalive_interval_max
    then (if ltb r.keepalive_interval_max (keepalive_interval_min r)
        then keepalive_interval_min r
        else r.keepalive_interval_max)
    else keepalive_interval_min r * 4

unfoldable pub broadcast_interval_min : LanRuntimeConfig → ℕ
broadcast_interval_min r =
    if ltb 0 r.broadcast_interval_min then r.broadcast_interval_min else 5 * second

unfoldable pub broadcast_interval_max : LanRuntimeConfig → ℕ
unfolding broadcast_interval_min
broadcast_interval_max r =
    if ltb 0 r.broadcast_interval_max
    then (if ltb r.broadcast_interval_max (broadcast_interval_min r)
        then broadcast_interval_min r
        else r.broadcast_interval_max)
    else 45 * second

unfoldable pub unstable_window : LanRuntimeConfig → ℕ
unstable_window r = if ltb 0 r.unstable_window then r.unstable_window else 120 * second

unfoldable pub unstable_resume_delay : LanRuntimeConfig → ℕ
unstable_resume_delay r =
    if ltb 0 r.unstable_resume_delay then r.unstable_resume_delay else 300 * second

unfoldable pub unstable_transition_threshold : LanRuntimeConfig → ℕ
unstable_transition_threshold r =
    if ltb 0 r.unstable_transition_threshold then r.unstable_transition_threshold else 10

-- minPositiveDuration: the loop keeps the best value so far, 0 for none.
min_positive_from : ℕ → List ℕ → ℕ
min_positive_from best [] = best
min_positive_from best (v ∷ vs) =
    min_positive_from (if v == 0 then best else if best == 0 || ltb v best then v else best) vs

unfoldable pub min_positive_duration : List ℕ → ℕ
unfolding min_positive_from
min_positive_duration vs = let best = min_positive_from 0 vs in if best == 0 then second else best

unfoldable pub scan_tick_interval : LanRuntimeConfig → ℕ
unfolding min_positive_duration fast_retry_interval broadcast_interval_min
scan_tick_interval r =
    min_positive_duration (r.probe_interval ∷ fast_retry_interval r ∷ broadcast_interval_min r ∷ [])

pub keepalive_interval_bounds :
    (r : LanRuntimeConfig)
    → (0 < keepalive_interval_min r) × (keepalive_interval_min r ≤ keepalive_interval_max r)
unfolding keepalive_interval_min keepalive_interval_max
keepalive_interval_bounds r = (ground arith, ground arith)

pub scan_tick_interval_pos :
    (r : LanRuntimeConfig)
    → (0 < scan_tick_interval r)
      × (scan_tick_interval r ≤ fast_retry_interval r)
      × (scan_tick_interval r ≤ broadcast_interval_min r)
unfolding scan_tick_interval
scan_tick_interval_pos r = (ground arith, ground arith, ground arith)
