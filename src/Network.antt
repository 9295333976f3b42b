-- ===== src/Network.antt =====
-- network.go: the monitor of the interfaces and of the reachability. What the inspector and the checker
-- return is an argument; a subscriber is known by its number, and its calls are returned.
pub mod Arrivals
pub mod Replay
use go_mihome.Common.{
  ℕ, suc, ◌+◌, List, [], ◌∷◌, ◌++◌, Option, none, some, Bool, true, false, ◌&&◌, ◌||◌, not, ◌==◌,
  if◌then◌else◌, map,
}
use go_mihome.Common.Result.{Result, ok, err, Fault}
use go_mihome.Common.Bytes.{Bytes, codes, bytes_eq}
use go_mihome.Common.Dict.{Dict, lookup, insert}

pub record NetworkInfo : Type 0 where
  pub name : Bytes
  pub ip : Bytes
  pub netmask : Bytes
  pub network_segment : Bytes

pub data InterfaceStatus : Type 0 where
  added updated removed : InterfaceStatus

pub record NetworkMonitor : Type 0 where
  pub status : Bool
  pub interfaces : Dict NetworkInfo
  pub ip_targets : List Bytes
  pub url_targets : List Bytes
  pub status_subs : List ℕ
  pub info_subs : List ℕ
  pub next_sub_id : ℕ

abbrev pub default_ips : List Bytes
default_ips = codes "1.2.4.8" ∷ codes "8.8.8.8" ∷ codes "9.9.9.9" ∷ []

abbrev pub default_urls : List Bytes
default_urls =
    codes "https://www.bing.com"
    ∷ codes "https://www.google.com"
    ∷ codes "https://www.baidu.com"
    ∷ []

unfoldable pub new_network_monitor : NetworkMonitor
new_network_monitor = record {
  status = false;
  interfaces = [];
  ip_targets = default_ips;
  url_targets = default_urls;
  status_subs = [];
  info_subs = [];
  next_sub_id = 0;
}

-- UpdateTargets; `none` is a nil slice.
unfoldable pub update_targets :
    Option (List Bytes) → Option (List Bytes) → NetworkMonitor → NetworkMonitor
update_targets ips urls m = record m {
  ip_targets = elim ips [ none ↦ default_ips | some xs ↦ xs ];
  url_targets = elim urls [ none ↦ default_urls | some xs ↦ xs ];
}

pub data Target : Type 0 where
  ip_target url_target : Bytes → Target

unfoldable pub targets : NetworkMonitor → List Target
targets m = map ip_target m.ip_targets ++ map url_target m.url_targets

unfoldable pub subscribe_status : NetworkMonitor → NetworkMonitor × ℕ
subscribe_status m = (
  record m { status_subs = m.status_subs ++ m.next_sub_id ∷ []; next_sub_id = m.next_sub_id + 1 },
  m.next_sub_id,
)

unfoldable pub subscribe_interfaces : NetworkMonitor → NetworkMonitor × ℕ
subscribe_interfaces m = (
  record m { info_subs = m.info_subs ++ m.next_sub_id ∷ []; next_sub_id = m.next_sub_id + 1 },
  m.next_sub_id,
)

without : ℕ → List ℕ → List ℕ
without i [] = []
without i (j ∷ js) = let rest = without i js in if j == i then rest else j ∷ rest

-- The two closing functions of the subscriptions.
unfoldable pub close_status : ℕ → NetworkMonitor → NetworkMonitor
unfolding without
close_status i m = record m { status_subs = without i m.status_subs }

unfoldable pub close_interfaces : ℕ → NetworkMonitor → NetworkMonitor
unfolding without
close_interfaces i m = record m { info_subs = without i m.info_subs }

-- `prev != info` on the struct.
unfoldable pub info_eq : NetworkInfo → NetworkInfo → Bool
info_eq a b =
    bytes_eq a.name b.name
    && (bytes_eq a.ip b.ip
        && (bytes_eq a.netmask b.netmask && bytes_eq a.network_segment b.network_segment))

abbrev pub Event : Type 0
Event = InterfaceStatus × NetworkInfo

-- nextInterfaces: a name that comes twice has its last entry.
unfoldable pub table_from : Dict NetworkInfo → List NetworkInfo → Dict NetworkInfo
table_from m [] = m
table_from m (i ∷ is) = table_from (insert i.name i m) is

abbrev pub arrival : Option NetworkInfo → NetworkInfo → List Event → List Event
arrival none i rest = (added, i) ∷ rest
arrival (some prev) i rest = if info_eq prev i then rest else (updated, i) ∷ rest

unfoldable pub arrivals : Dict NetworkInfo → List NetworkInfo → List Event
unfolding info_eq
arrivals old [] = []
arrivals old (i ∷ is) = arrival (lookup i.name old) i (arrivals old is)

unfoldable pub departures : Dict NetworkInfo → Dict NetworkInfo → List Event
departures next [] = []
departures next ((k, prev) ∷ m) =
    let rest = departures next m in
    elim (lookup k next) [ none ↦ (removed, prev) ∷ rest | some i ↦ rest ]

any_reachable : List Bool → Bool
any_reachable [] = false
any_reachable (r ∷ rs) = r || any_reachable rs

pub data Call : Type 0 where
  status_call : ℕ → Bool → Call
  info_call : ℕ → Event → Call

-- For each event each subscriber.
info_calls : List ℕ → List Event → List Call
info_calls subs [] = []
info_calls subs (e ∷ es) = map (λ s. info_call s e) subs ++ info_calls subs es

abbrev pub changed : Bool → Bool → Bool
changed a b = if a then not b else b

unfoldable pub events : Dict NetworkInfo → List NetworkInfo → List Event
unfolding table_from arrivals departures
events old infos = arrivals old infos ++ departures (table_from [] infos) old

-- Refresh, with the results of the checker and of the inspector.
unfoldable pub refresh :
    Result (List Bool)
    → Result (List NetworkInfo)
    → NetworkMonitor
    → NetworkMonitor × List Call × Option Fault
unfolding any_reachable info_calls events
refresh (err e) inspected m = (m, [], some e)
refresh (ok results) (err e) m = (m, [], some e)
refresh (ok results) (ok infos) m =
    let next = any_reachable results in
    (
      record m { status = next; interfaces = table_from [] infos },
      (if changed m.status next then map (λ s. status_call s next) m.status_subs else [])
          ++ info_calls m.info_subs (events m.interfaces infos),
      none,
    )
