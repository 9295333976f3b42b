-- ===== src/Tests/Scan.antt =====
-- A lamp that is online and does not answer two rounds of the scan.
use go_mihome.Common.{ℕ, ◌+◌, ◌*◌, ◌≡◌, refl, List, [], ◌∷◌, some, true, not, ◌==◌, length, arith}
use go_mihome.Common.Result.{opaque}
use go_mihome.Common.Bytes.{codes, bytes_eq}
use go_mihome.Common.Dict.{lookup}
use go_mihome.Lan.Runtime.Config.{default_lan_runtime_config, fast_retry_interval, second}
use go_mihome.Lan.Runtime.Device.{LanDeviceState, new_device_state}
use go_mihome.Lan.Runtime.Broadcast.{BroadcastState}
use go_mihome.Lan.Client.{LanClient, new_lan_client}
use go_mihome.Lan.Scan.{Round, Answers, scan_all}
use go_mihome.Lan.Scan.Routes.{IsMap}
use go_mihome.Lan.Scan.Silent.{IsWatched, silent_device}
use go_mihome.Tests.Data.{lamp}

abbrev lit : LanDeviceState
lit = record new_device_state { online = true; retry_count = 1 }

abbrev scanner : LanClient
scanner = record (new_lan_client default_lan_runtime_config) {
  devices = (codes "42", lamp) ∷ [];
  device_state = (codes "42", lit) ∷ [];
}

abbrev no_broadcast : BroadcastState
no_broadcast = record { broadcast_ifs = []; next_broadcast = 0; broadcast_backoff = 0 }

-- The pings of a round fail at a time.
abbrev failing : ℕ → Answers
failing at r = (some (opaque "timeout"), at)

abbrev two_rounds : List Round
two_rounds =
    record { answers = failing (2 * second); now = second }
    ∷ record { answers = failing (60 * second); now = 59 * second }
    ∷ []

scanner-IsWatched : IsWatched (codes "42") lamp lit scanner
unfolding IsMap lookup bytes_eq new_lan_client
scanner-IsWatched = record {
  enabled = refl;
  distinct = (refl, tt);
  known = refl;
  address = refl;
  has_state = refl;
}

silent_device_example :
    (t : LanDeviceState) × (lookup
        (codes "42")
        (scan_all true (codes "7") two_rounds no_broadcast scanner).device_state
      ≡ some t)
    × (t.online ≡ not (lit.retry_count + length two_rounds == scanner.runtime.offline_threshold))
unfolding fast_retry_interval new_lan_client default_lan_runtime_config
silent_device_example =
    silent_device true (codes "7") (codes "42") lamp two_rounds no_broadcast lit scanner
      scanner-IsWatched refl
      (omega arith, (opaque "timeout", refl), (omega arith, (opaque "timeout", refl), tt))
      (omega arith) (omega arith)
