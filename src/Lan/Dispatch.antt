-- ===== src/Lan/Dispatch.antt =====
-- lan.go: the subscribers of properties and of events, and which of them a message reaches. A handler is
-- known by the number of its subscription. The number 0 stands for "all" in a request, as the empty text
-- does for the device.
pub mod Reach
use go_mihome.Common.{
  ℕ, ◌+◌, List, [], ◌∷◌, ◌++◌, Bool, true, false, ◌&&◌, ◌||◌, not, ◌==◌, if◌then◌else◌,
}
use go_mihome.Common.Bytes.{Bytes, bytes_eq}

-- PropertySubscription and EventSubscription; `iid` is the PIID of the one and the EIID of the other.
pub record Subscriber : Type 0 where
  pub id : ℕ
  pub did : Bytes
  pub siid : ℕ
  pub iid : ℕ

-- What is dispatched: a PropertyResult or an EventOccurrence.
pub record Occurrence : Type 0 where
  pub did : Bytes
  pub siid : ℕ
  pub iid : ℕ

pub record Subscribers : Type 0 where
  pub prop_subs : List Subscriber
  pub event_subs : List Subscriber
  pub next_sub_id : ℕ

unfoldable pub subscribe_property : Bytes → ℕ → ℕ → Subscribers → Subscribers × ℕ
subscribe_property did siid piid s = (
  record s {
    prop_subs =
        s.prop_subs ++ record { id = s.next_sub_id; did = did; siid = siid; iid = piid } ∷ [];
    next_sub_id = s.next_sub_id + 1;
  },
  s.next_sub_id,
)

unfoldable pub subscribe_event : Bytes → ℕ → ℕ → Subscribers → Subscribers × ℕ
subscribe_event did siid eiid s = (
  record s {
    event_subs =
        s.event_subs ++ record { id = s.next_sub_id; did = did; siid = siid; iid = eiid } ∷ [];
    next_sub_id = s.next_sub_id + 1;
  },
  s.next_sub_id,
)

unfoldable pub drop_sub : ℕ → List Subscriber → List Subscriber
drop_sub i [] = []
drop_sub i (x ∷ xs) = let rest = drop_sub i xs in if x.id == i then rest else x ∷ rest

-- The closing functions of the two kinds of subscription.
unfoldable pub close_property : ℕ → Subscribers → Subscribers
unfolding drop_sub
close_property i s = record s { prop_subs = drop_sub i s.prop_subs }

unfoldable pub close_event : ℕ → Subscribers → Subscribers
unfolding drop_sub
close_event i s = record s { event_subs = drop_sub i s.event_subs }

-- The tests of the loop body, in their order.
unfoldable pub skipped : Subscriber → Occurrence → Bool
skipped x o =
    (not (bytes_eq x.did o.did) && not (bytes_eq x.did []))
    || ((not (x.siid == 0) && not (x.siid == o.siid)) || (not (x.iid == 0) && not (x.iid == o.iid)))

-- The handlers that are called, in turn.
unfoldable pub reached : List Subscriber → Occurrence → List ℕ
unfolding skipped
reached [] o = []
reached (x ∷ xs) o = let rest = reached xs o in if skipped x o then rest else x.id ∷ rest

-- dispatchProperty: for each result each subscriber.
unfoldable pub dispatch_property : List Occurrence → Subscribers → List ℕ
unfolding reached
dispatch_property [] s = []
dispatch_property (o ∷ os) s = reached s.prop_subs o ++ dispatch_property os s

unfoldable pub dispatch_event : Occurrence → Subscribers → List ℕ
unfolding reached
dispatch_event o s = reached s.event_subs o

unfoldable pub any_for : Bytes → List Subscriber → Bool
any_for did [] = false
any_for did (x ∷ xs) =
    let rest = any_for did xs in if bytes_eq x.did did || bytes_eq x.did [] then true else rest

unfoldable pub has_push_subscriber : Bytes → Subscribers → Bool
unfolding any_for
has_push_subscriber did s = if any_for did s.prop_subs then true else any_for did s.event_subs
