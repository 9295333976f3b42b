-- ===== src/Lan/Runtime/Broadcast.antt =====
-- lan.go: how often the interfaces are scanned by broadcast.
use go_mihome.Common.{
  ℕ, ◌+◌, ◌*◌, ◌≤◌, ◌<◌, ◌≡◌, ◌≢◌, List, [], ◌∷◌, Bool, true, false, ◌&&◌, not, ◌==◌, ltb,
  if◌then◌else◌, arith,
}
use go_mihome.Common.Bytes.{Bytes}
use go_mihome.Lan.Runtime.Config.{LanRuntimeConfig, broadcast_interval_min, broadcast_interval_max}

pub record BroadcastState : Type 0 where
  pub broadcast_ifs : List Bytes
  pub next_broadcast : ℕ
  pub broadcast_backoff : ℕ

-- UpdateInterfaces, on names that are normalized.
unfoldable pub update_interfaces : List Bytes → BroadcastState → BroadcastState
update_interfaces normalized s = record {
  broadcast_ifs = normalized;
  next_broadcast = 0;
  broadcast_backoff = 0;
}

abbrev is_none : List Bytes → Bool
is_none [] = true
is_none (x ∷ xs) = false

next_backoff : LanRuntimeConfig → ℕ → ℕ
next_backoff r backoff =
    if backoff == 0
    then broadcast_interval_min r
    else (let doubled = backoff * 2 in
        let raised =
          if ltb doubled (broadcast_interval_min r) then broadcast_interval_min r else doubled in
        if ltb (broadcast_interval_max r) raised then broadcast_interval_max r else raised)

-- The interfaces to scan now, and the state with the next time set.
unfoldable pub broadcast_targets :
    LanRuntimeConfig → ℕ → BroadcastState → BroadcastState × List Bytes
unfolding next_backoff
broadcast_targets r now s =
    if is_none s.broadcast_ifs
    then (s, [])
    else if not (s.next_broadcast == 0) && ltb now s.next_broadcast
    then (s, [])
    else (
      record s {
        broadcast_backoff = next_backoff r s.broadcast_backoff;
        next_broadcast = now + next_backoff r s.broadcast_backoff;
      },
      s.broadcast_ifs,
    )

broadcast_min_pos : (r : LanRuntimeConfig) → 0 < broadcast_interval_min r
unfolding broadcast_interval_min
broadcast_min_pos r = ground arith

broadcast_limits :
    (r : LanRuntimeConfig)
    → 0 < r.broadcast_interval_max
    → broadcast_interval_min r ≤ broadcast_interval_max r
unfolding broadcast_interval_min broadcast_interval_max
broadcast_limits r h = ground arith

next_backoff_bounds :
    (r : LanRuntimeConfig) (b : ℕ)
    → broadcast_interval_min r ≤ broadcast_interval_max r
    → (broadcast_interval_min r ≤ next_backoff r b) × (next_backoff r b ≤ broadcast_interval_max r)
unfolding next_backoff
next_backoff_bounds r b h = ground arith

-- A scan sets the next one later, by a delay between the configured limits, and until then no interface
-- is scanned again. The condition is that the upper limit is configured; the default configuration
-- has it.
pub broadcast_spacing :
    (r : LanRuntimeConfig) (now later : ℕ) (s : BroadcastState)
    → 0 < r.broadcast_interval_max
    → (broadcast_targets r now s).1 ≢ []
    → let t = (broadcast_targets r now s).0 in
      (now + broadcast_interval_min r ≤ t.next_broadcast)
      × (t.next_broadcast ≤ now + broadcast_interval_max r)
      × (later < t.next_broadcast → broadcast_targets r later t ≡ (t, []))
unfolding broadcast_targets
broadcast_spacing r now later s h some_target =
    let bounds = next_backoff_bounds r s.broadcast_backoff (broadcast_limits r h) in
    let pos = broadcast_min_pos r in (ground arith, ground arith, λ early. ground arith)

-- While no scan is due nothing changes; after UpdateInterfaces with any names one is due at once.
pub broadcast_after_update :
    (r : LanRuntimeConfig) (now : ℕ) (names : List Bytes) (s : BroadcastState)
    → ((broadcast_targets r now (update_interfaces names s)).1 ≡ names)
      × (names ≢ []
          → (broadcast_targets r now (update_interfaces names s)).0.broadcast_backoff
            ≡ broadcast_interval_min r)
unfolding broadcast_targets update_interfaces
broadcast_after_update r now names s = (ground arith, λ h. ground arith)
