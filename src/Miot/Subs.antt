-- ===== src/Miot/Subs.antt =====
-- client.go: the subscriptions of properties and of events, which follow the push source of their device,
-- and the calls that the changes of the table lead to. A method runs to its end before the next one starts.
-- Maps are walked in the order of their lists.
pub mod Pending
pub mod Bound
use go_mihome.Common.{
  ℕ, ◌+◌, List, [], ◌∷◌, ◌++◌, Option, none, some, Bool, true, false, ◌&&◌, ◌||◌, not, ◌==◌,
  if◌then◌else◌,
}
use Prim.Native.String.{String}
use go_mihome.Common.Result.{Result, ok, err, Fault, fault, invalid_argument}
use go_mihome.Common.Bytes.{Bytes, bytes_eq}
use go_mihome.Common.Dict.{Dict, lookup}
use go_mihome.Miot.Entry.{DeviceState, Change, push_source_cloud, push_source_lan}
use go_mihome.Miot.Refresh.{Table, contains}
use go_mihome.Miot.Update.{Update, apply}
use go_mihome.Miot.Update.Keeps.{source_of}

-- miotClientPropertySub and miotClientEventSub under the number of the subscription: `iid` is the PIID of
-- the one and the EIID of the other, `active` says that a subscription of the source is held.
pub record Sub : Type 0 where
  pub id : ℕ
  pub did : Bytes
  pub siid : ℕ
  pub iid : ℕ
  pub source : Bytes
  pub active : Bool

pub record StateSub : Type 0 where
  pub id : ℕ
  pub did : Bytes

pub record MiotClient : Type 0 where
  pub auto : Bool
  pub devices : Table
  pub prop_subs : List Sub
  pub event_subs : List Sub
  pub state_subs : List StateSub
  pub next_sub_id : ℕ

-- The backends: which there are, and whether the cloud or a gateway accepts a subscription.
pub record Sources : Type 0 where
  pub has_cloud_push : Bool
  pub has_lan : Bool
  pub local_routes : List Bytes
  pub accepts : Bytes → Sub → Bool

-- A subscription of a source that is opened or closed, and the call of a state subscriber.
pub data Call : Type 0 where
  opened closed : ℕ → Bytes → Call
  state_call : ℕ → Bytes → DeviceState → Call

unfoldable pub new_miot_client : Bool → MiotClient
new_miot_client auto = record {
  auto = auto;
  devices = [];
  prop_subs = [];
  event_subs = [];
  state_subs = [];
  next_sub_id = 0;
}

-- subscribePropertyFromSource and subscribeEventFromSource: whether a subscription is held afterwards.
-- An error and a source that is not there leave none.
unfoldable pub subscribe_from_source : Sources → Bytes → Sub → Bool
unfolding contains
subscribe_from_source b source s =
    if bytes_eq source []
    then false
    else if bytes_eq source push_source_cloud
    then b.has_cloud_push && b.accepts source s
    else if bytes_eq source push_source_lan
    then b.has_lan
    else contains source b.local_routes && b.accepts source s

abbrev held : Bool → Call → List Call
held true call = call ∷ []
held false call = []

-- rebindPropertySubscription and rebindEventSubscription.
unfoldable pub rebind_subscription : Sources → Table → Sub → Sub × List Call
unfolding subscribe_from_source
rebind_subscription b t s =
    let source = source_of s.did t in
    let active = subscribe_from_source b source s in
    if bytes_eq s.source source then (s, []) else (
      record s { source = source; active = active },
      held s.active (closed s.id s.source) ++ held active (opened s.id source),
    )

-- The loops of rebindSubscriptionsForDevice.
unfoldable pub rebind_list : Sources → Table → Bytes → List Sub → List Sub × List Call
unfolding rebind_subscription
rebind_list b t did [] = ([], [])
rebind_list b t did (s ∷ ss) =
    let (rest, later) = rebind_list b t did ss in
    let (r, first) = rebind_subscription b t s in
    if bytes_eq s.did did then (r ∷ rest, first ++ later) else (s ∷ rest, later)

unfoldable pub rebind_subscriptions_for_device :
    Sources → Bytes → MiotClient → MiotClient × List Call
unfolding rebind_list
rebind_subscriptions_for_device b did c =
    let (props, first) = rebind_list b c.devices did c.prop_subs in
    let (events, later) = rebind_list b c.devices did c.event_subs in
    (record c { prop_subs = props; event_subs = events }, first ++ later)

unfoldable pub notify_device_state : Bytes → DeviceState → List StateSub → List Call
notify_device_state did state [] = []
notify_device_state did state (s ∷ ss) =
    let rest = notify_device_state did state ss in
    if bytes_eq s.did did then state_call s.id did state ∷ rest else rest

-- The body of the loop of handleChanges; a change of nothing makes no call.
unfoldable pub handle_change : Sources → Change → MiotClient → MiotClient × List Call
unfolding rebind_subscriptions_for_device notify_device_state
handle_change b change c =
    let (d, bound) =
      (if change.source_changed then rebind_subscriptions_for_device b change.did c else (c, [])) in
    (
      d,
      bound
          ++ (if change.state_changed
              then notify_device_state change.did change.new_state c.state_subs
              else []),
    )

unfoldable pub handle_changes : Sources → List Change → MiotClient → MiotClient × List Call
unfolding handle_change
handle_changes b [] c = (c, [])
handle_changes b (change ∷ rest) c =
    let (d, first) = handle_change b change c in
    let (e, later) = handle_changes b rest d in (e, first ++ later)

-- An update of the table and the calls after it.
unfoldable pub update : Sources → Update → MiotClient → MiotClient × List Call
unfolding handle_changes apply
update b u c =
    let (t, changes) = apply c.auto u c.devices in
    handle_changes b changes (record c { devices = t })

abbrev device_fault : Fault
device_fault = fault invalid_argument "miot client device" "device not found"

abbrev fresh_sub : Bytes → ℕ → ℕ → ℕ → Sub
fresh_sub did siid iid id = record {
  id = id;
  did = did;
  siid = siid;
  iid = iid;
  source = [];
  active = false;
}

-- SubscribeProperty and SubscribeEvent with a handler.
unfoldable pub subscribe_property :
    Sources → Bytes → ℕ → ℕ → MiotClient → MiotClient × List Call × Result ℕ
unfolding rebind_subscription
subscribe_property b did siid piid c = elim (lookup did c.devices) [
  | none ↦ (c, [], err device_fault)
  | some e ↦
      let (s, calls) = rebind_subscription b c.devices (fresh_sub did siid piid c.next_sub_id) in
      (
        record c { prop_subs = c.prop_subs ++ s ∷ []; next_sub_id = c.next_sub_id + 1 },
        calls,
        ok c.next_sub_id,
      )
]

unfoldable pub subscribe_event :
    Sources → Bytes → ℕ → ℕ → MiotClient → MiotClient × List Call × Result ℕ
unfolding rebind_subscription
subscribe_event b did siid eiid c = elim (lookup did c.devices) [
  | none ↦ (c, [], err device_fault)
  | some e ↦
      let (s, calls) = rebind_subscription b c.devices (fresh_sub did siid eiid c.next_sub_id) in
      (
        record c { event_subs = c.event_subs ++ s ∷ []; next_sub_id = c.next_sub_id + 1 },
        calls,
        ok c.next_sub_id,
      )
]

unfoldable pub subscribe_device_state : Bytes → MiotClient → MiotClient × Result ℕ
subscribe_device_state did c = elim (lookup did c.devices) [
  | none ↦ (c, err device_fault)
  | some e ↦ (
    record c {
      state_subs = c.state_subs ++ record { id = c.next_sub_id; did = did } ∷ [];
      next_sub_id = c.next_sub_id + 1;
    },
    ok c.next_sub_id,
  )
]

-- Closing a subscription closes what is held for it.
unfoldable pub close_list : ℕ → List Sub → List Sub × List Call
close_list id [] = ([], [])
close_list id (s ∷ ss) =
    let (rest, later) = close_list id ss in
    if s.id == id then (rest, held s.active (closed s.id s.source) ++ later) else (s ∷ rest, later)

unfoldable pub close_property : ℕ → MiotClient → MiotClient × List Call
unfolding close_list
close_property id c =
    let (ss, calls) = close_list id c.prop_subs in (record c { prop_subs = ss }, calls)

unfoldable pub close_event : ℕ → MiotClient → MiotClient × List Call
unfolding close_list
close_event id c =
    let (ss, calls) = close_list id c.event_subs in (record c { event_subs = ss }, calls)

unfoldable pub drop_state_sub : ℕ → List StateSub → List StateSub
drop_state_sub id [] = []
drop_state_sub id (s ∷ ss) =
    let rest = drop_state_sub id ss in if s.id == id then rest else s ∷ rest

unfoldable pub close_device_state : ℕ → MiotClient → MiotClient
unfolding drop_state_sub
close_device_state id c = record c { state_subs = drop_state_sub id c.state_subs }
