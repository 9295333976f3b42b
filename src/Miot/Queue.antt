-- ===== src/Miot/Queue.antt =====
-- client.go: the queue of properties that are to be read again, its timer and its retries. What is asked for
-- while a cycle waits for a backend is queued before it or after it.
pub mod Keyed
pub mod Cycle
pub mod Drain
use go_mihome.Common.{
  ℕ, ◌+◌, ◌*◌, List, [], ◌∷◌, ◌++◌, Option, none, some, Bool, true, false, ◌&&◌, ◌||◌, not,
  if◌then◌else◌, length, ◌==◌, ltb, leb, take, drop,
}
use go_mihome.Common.Result.{Result, ok, err, Fault, fault, protocol_failure}
use go_mihome.Common.Bytes.{Bytes, bytes_eq, codes}
use go_mihome.Common.Decimal.{format_uint}
use go_mihome.Common.Dict.{Dict, lookup, insert, delete}
use go_mihome.Lan.Runtime.Config.{second}
use go_mihome.Miot.Entry.{DeviceEntry}
use go_mihome.Miot.Refresh.{Table, contains}
use go_mihome.Miot.Route.{has_route}
use go_mihome.Miot.Subs.{Sub}

pub record PropertyQuery : Type 0 where
  pub did : Bytes
  pub siid : ℕ
  pub piid : ℕ

pub record PropertyResult : Type 0 where
  pub did : Bytes
  pub siid : ℕ
  pub piid : ℕ
  pub content : Bytes

-- The queue; `timer` is the delay that the timer was last started with, until it fires.
pub record Queue : Type 0 where
  pub queued_props : Dict PropertyQuery
  pub prop_retry : ℕ
  pub timer : Option ℕ

-- The backends that are asked in one cycle, with the table of the devices.
pub record Readers : Type 0 where
  pub auto : Bool
  pub devices : Table
  pub has_cloud : Bool
  pub has_lan : Bool
  pub local_routes : List Bytes
  pub get_props : List PropertyQuery → Result (List PropertyResult)
  pub get_prop_safe : Bytes → PropertyQuery → Result PropertyResult
  pub lan_get_prop : PropertyQuery → Result PropertyResult

abbrev pub refresh_prop_batch : ℕ
refresh_prop_batch = 150

abbrev pub refresh_prop_delay : ℕ
refresh_prop_delay = 200000000

abbrev pub refresh_prop_retry : ℕ
refresh_prop_retry = 3 * second

abbrev pub refresh_prop_max_retry : ℕ
refresh_prop_max_retry = 3

-- `fmt.Sprintf("%s|%d|%d", did, siid, piid)`.
unfoldable pub property_key : Bytes → ℕ → ℕ → Bytes
property_key did siid piid =
    did ++ (codes "|" ++ (format_uint siid ++ (codes "|" ++ format_uint piid)))

-- RequestRefreshProperty of a client that has been started; a timer that runs is left alone.
unfoldable pub request_refresh_property : Table → Bytes → ℕ → ℕ → Queue → Queue
unfolding property_key
request_refresh_property t did siid piid q = elim (lookup did t) [
  | none ↦ q
  | some e ↦ record q {
    queued_props =
        insert (property_key did siid piid) (record { did = did; siid = siid; piid = piid })
          q.queued_props;
    timer = elim q.timer [ none ↦ some refresh_prop_delay | some d ↦ some d ];
  }
]

-- propertyQueriesFromMap.
unfoldable pub queries : Dict PropertyQuery → List PropertyQuery
queries [] = []
queries ((k, query) ∷ m) = query ∷ queries m

-- firstPropertyPerDevice, with the devices seen.
unfoldable pub first_property_per_device : List Bytes → Dict PropertyQuery → Dict PropertyQuery
unfolding contains
first_property_per_device seen [] = []
first_property_per_device seen ((k, query) ∷ m) =
    let skip = first_property_per_device seen m in
    let more = first_property_per_device (query.did ∷ seen) m in
    if contains query.did seen then skip else (k, query) ∷ more

-- The queries that are still open, the results dispatched, and whether there was progress.
abbrev pub Progress : Type 0
Progress = Dict PropertyQuery × List PropertyResult × Bool

-- The loop over the cloud's results.
unfoldable pub take_results : List PropertyResult → Progress → Progress
unfolding property_key
take_results [] p = p
take_results (r ∷ rs) (active, sent, progress) =
    take_results rs (delete (property_key r.did r.siid r.piid) active, sent ++ r ∷ [], true)

abbrev pub cloud_answer : Result (List PropertyResult) → Dict PropertyQuery → Progress
cloud_answer (err e) active = (active, [], false)
cloud_answer (ok rs) active = take_results rs (active, [], false)

unfoldable pub ask_cloud : Readers → Dict PropertyQuery → Progress
unfolding take_results queries
ask_cloud b active =
    if b.has_cloud then cloud_answer (b.get_props (queries active)) active else (active, [], false)

-- The result of one query, if it was asked and answered.
abbrev pub Asker : Type 0
Asker = PropertyQuery → Option PropertyResult

abbrev answer : Result PropertyResult → Option PropertyResult
answer (err e) = none
answer (ok r) = some r

-- gatewayRouteForQuery and the call.
unfoldable pub by_gateway : Readers → Asker
unfolding has_route
by_gateway b query = elim (lookup query.did b.devices) [
  | none ↦ none
  | some e ↦
      if e.gateway_online && (e.gateway_spec_v2_access && has_route e.info.group_id b.local_routes)
      then answer (b.get_prop_safe e.info.group_id query)
      else none
]

-- isLANOnline and the call.
unfoldable pub by_lan : Readers → Asker
by_lan b query = elim (lookup query.did b.devices) [
  | none ↦ none
  | some e ↦ if b.has_lan && e.lan_online then answer (b.lan_get_prop query) else none
]

abbrev take_answer : Bytes → Option PropertyResult → Progress → Progress
take_answer key none p = p
take_answer key (some r) (active, sent, progress) = (delete key active, sent ++ r ∷ [], true)

-- The loops over one query for each device.
unfoldable pub ask_each : Asker → Dict PropertyQuery → Progress → Progress
ask_each ask [] p = p
ask_each ask ((key, query) ∷ m) p = ask_each ask m (take_answer key (ask query) p)

-- One of these loops, which is run only if there has been no progress.
unfoldable pub ask_locally : Bool → Asker → Progress → Progress
unfolding ask_each first_property_per_device
ask_locally auto ask (active, sent, true) = (active, sent, true)
ask_locally auto ask (active, sent, false) =
    if auto
    then ask_each ask (first_property_per_device [] active) (active, sent, false)
    else (active, sent, false)

unfoldable pub requeue : Dict PropertyQuery → Dict PropertyQuery → Dict PropertyQuery
requeue [] queued = queued
requeue ((k, query) ∷ m) queued = requeue m (insert k query queued)

-- refreshQueuedPropertiesCycle: the queue, the results dispatched in turn, and whether there was progress;
-- the number that the source also returns is the length of the queue.
unfoldable pub refresh_queued_properties_cycle : Readers → Dict PropertyQuery → Progress
unfolding ask_cloud by_gateway by_lan ask_locally requeue
refresh_queued_properties_cycle b [] = ([], [], false)
refresh_queued_properties_cycle b ((k, query) ∷ m) =
    let queued = (k, query) ∷ m in
    let p =
      ask_locally b.auto (by_lan b)
        (ask_locally b.auto (by_gateway b) (ask_cloud b (take refresh_prop_batch queued))) in
    (requeue p.0 (drop refresh_prop_batch queued), p.1, p.2)

-- What the timer's function does with the outcome of the cycle.
unfoldable pub after_cycle : Progress → ℕ → Queue
after_cycle (queued, sent, true) retry = record {
  queued_props = queued;
  prop_retry = 0;
  timer = if ltb 0 (length queued) then some refresh_prop_delay else none;
}
after_cycle ([], sent, false) retry = record { queued_props = []; prop_retry = 0; timer = none }
after_cycle (k ∷ m, sent, false) retry =
    if leb refresh_prop_max_retry (retry + 1)
    then record { queued_props = []; prop_retry = 0; timer = none }
    else record { queued_props = k ∷ m; prop_retry = retry + 1; timer = some refresh_prop_retry }

-- handleQueuedPropertyRefresh, when the timer fires.
unfoldable pub handle_queued_property_refresh : Readers → Queue → Queue × List PropertyResult
unfolding refresh_queued_properties_cycle after_cycle
handle_queued_property_refresh b q =
    let p = refresh_queued_properties_cycle b q.queued_props in (after_cycle p q.prop_retry, p.1)

-- propertySubscriptionMatches.
unfoldable pub property_subscription_matches : Sub → PropertyResult → Bool
property_subscription_matches s r =
    bytes_eq s.did r.did
    && (not (ltb 0 s.siid && not (s.siid == r.siid)) && not (ltb 0 s.iid && not (s.iid == r.piid)))

-- dispatchPropertyResult: the subscriptions whose handlers are called.
unfoldable pub dispatch_property_result : List Sub → PropertyResult → List ℕ
unfolding property_subscription_matches
dispatch_property_result [] r = []
dispatch_property_result (s ∷ ss) r =
    let rest = dispatch_property_result ss r in
    if property_subscription_matches s r then s.id ∷ rest else rest

-- RefreshQueuedProperties.
unfoldable pub refresh_queued_properties :
    Readers → Queue → Queue × List PropertyResult × Option Fault
unfolding refresh_queued_properties_cycle
refresh_queued_properties b q =
    let p = refresh_queued_properties_cycle b q.queued_props in
    (
      record q { queued_props = p.0 },
      p.1,
      if p.2 || (length p.0 == 0)
          then none
          else some (
              fault protocol_failure "miot client refresh queued properties"
                "some properties could not be refreshed"),
    )
