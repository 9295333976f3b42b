-- ===== src/Tests/Runtime.antt =====
-- Probing, scanning, repeated messages and the switching of LAN control on concrete inputs.
use go_mihome.Common.{map, ◌↔◌, ℕ, ◌≡◌, refl, List, [], ◌∷◌, none, true, false, arith}
use go_mihome.Common.Bytes.{Bytes, codes}
use go_mihome.Lan.Dispatch.{Occurrence, Subscribers, dispatch_event, dispatch_property}
use go_mihome.Lan.Dispatch.Reach.{Called, SomeWants, dispatch_reaches}
use go_mihome.Common.Dict.{lookup, insert}
use go_mihome.Lan.Runtime.Config.{
  unstable_window, unstable_transition_threshold, LanRuntimeConfig, default_lan_runtime_config,
}
use go_mihome.Lan.Runtime.Device.{
  step, prune_transition_history, LanDeviceState, new_device_state, is_unstable_online_recovery,
  Signal, success, failure, run,
}
use go_mihome.Lan.Runtime.Device.Bounds.{IsSound, run-IsSound}
use go_mihome.Lan.Runtime.Device.Transitions.{Alternates, run-Alternates, run_suppressed}
use go_mihome.Lan.Runtime.Broadcast.{BroadcastState}
use go_mihome.Lan.Client.{
  record_signal, LanClient, new_lan_client, effective, start, close, set_central_gateway_present,
  vote_for_lan_control,
}
use go_mihome.Lan.Client.Control.{IsSettled, here, next, closes, starts, Reach-IsSettled}
use go_mihome.Lan.Client.Notices.{believed, Right, notices-effective}

abbrev config : LanRuntimeConfig
config = default_lan_runtime_config

abbrev probes : List (ℕ × Signal)
probes = (10, success) ∷ (20, failure) ∷ (25, failure) ∷ (30, failure) ∷ (40, success) ∷ []

run-IsSound_example : IsSound config (run config probes new_device_state).0
run-IsSound_example = run-IsSound config probes

run-Alternates_example :
    Alternates false
      (run config probes new_device_state).1
      (run config probes new_device_state).0.online
run-Alternates_example = run-Alternates config probes new_device_state

abbrev suppressed : LanDeviceState
suppressed = record new_device_state { suppress_online_until = 100 }

run_suppressed_example :
    ((run config probes suppressed).1 ≡ []) × ((run config probes suppressed).0.online ≡ false)
run_suppressed_example =
    run_suppressed config probes suppressed refl
      (omega arith, (omega arith, (omega arith, (omega arith, (omega arith, tt)))))

abbrev lit : LanDeviceState
lit = record new_device_state { online = true }

abbrev scanner : BroadcastState
scanner = record { broadcast_ifs = codes "eth0" ∷ []; next_broadcast = 0; broadcast_backoff = 0 }

abbrev seven : ℕ
seven = 7

abbrev client : LanClient
client = new_lan_client config

Reach-IsSettled_example : IsSettled (close (start none client).0).0
Reach-IsSettled_example =
    Reach-IsSettled config (close (start none client).0).0
      (next (next here (starts none client)) (closes (start none client).0))

notices-effective_example :
    let s = start none client in
    Right (effective client) (set_central_gateway_present true none client)
    × Right (effective client) (vote_for_lan_control (codes "a") false none client)
    × (believed (effective client) s.1 ≡ effective s.0)
    × Right (effective client) (close client)
notices-effective_example = notices-effective true false (codes "a") none client

-- The answer to a Ping that comes when LAN control has been switched off: the device counts as online.
abbrev switched_off : LanClient
switched_off = record client { central_gateway_present = true }

late_answer :
    (effective (record_signal 1000 success (codes "42") switched_off).0 ≡ false)
    × (map (λ p. p.1.online) (record_signal 1000 success (codes "42") switched_off).0.device_state
        ≡ true ∷ [])
unfolding record_signal new_lan_client step default_lan_runtime_config lookup insert
    is_unstable_online_recovery prune_transition_history unstable_window
    unstable_transition_threshold
late_answer = (refl, refl)

-- One subscription for every event of a device, one for the events of another device's service.
abbrev subscribers : Subscribers
subscribers = record {
  prop_subs = [];
  event_subs =
      record { id = 0; did = codes "42"; siid = 0; iid = 0 }
      ∷ record { id = 1; did = codes "43"; siid = 2; iid = 0 }
      ∷ [];
  next_sub_id = 2;
}

abbrev event_of : Bytes → Occurrence
event_of did = record { did = did; siid = 2; iid = 1 }

dispatch_reaches_example :
    (Called 0 (dispatch_event (event_of (codes "42")) subscribers)
      ↔ SomeWants 0 subscribers.event_subs (event_of (codes "42")))
    × (Called 0 (dispatch_property (event_of (codes "42") ∷ []) subscribers)
        ↔ SomeWants 0 subscribers.prop_subs (event_of (codes "42")))
dispatch_reaches_example = dispatch_reaches 0 (event_of (codes "42")) subscribers
