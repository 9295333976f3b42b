-- ===== src/Miot/Subs/Bound.antt =====
-- client.go: the subscriptions and the push sources of their devices.
use go_mihome.Common.{
  ℕ, sym, ap, ◌∙◌, List, [], ◌∷◌, Bool, ◌==◌, Bool-cases, Option-cases, inl, inr, All, All-append,
}
use go_mihome.Common.Bytes.{Bytes}
use go_mihome.Common.Dict.{lookup}
use go_mihome.Miot.Entry.{Change}
use go_mihome.Miot.Refresh.{Table}
use go_mihome.Miot.Update.{Update, apply}
use go_mihome.Miot.Update.Keeps.{source_of}
use go_mihome.Miot.Subs.{
  Sub, MiotClient, Sources, new_miot_client, rebind_subscription, handle_changes, update,
  subscribe_property, subscribe_event, subscribe_device_state, close_list, close_property,
  close_event, close_device_state, fresh_sub,
}
use go_mihome.Miot.Subs.Pending.{
  Bound, rebind-source, AllPending, handle_changes-Pending, Pending-apply, settled,
}

-- Every subscription is bound to the push source of its device.
pub record IsBound (c : MiotClient) : Type 0 where
  pub props_bound : All (Bound c.devices) c.prop_subs
  pub events_bound : All (Bound c.devices) c.event_subs

handle_changes-IsBound :
    (b : Sources) (cs : List Change) (c : MiotClient)
    → AllPending cs c
    → IsBound (handle_changes b cs c).0
handle_changes-IsBound b cs c h =
    let d = (handle_changes b cs c).0 in
    let (p, e) = handle_changes-Pending b cs c h in
    record {
      props_bound = settled d.devices d.prop_subs p;
      events_bound = settled d.devices d.event_subs e;
    }

update-IsBound : (b : Sources) (u : Update) (c : MiotClient) → IsBound c → IsBound (update b u c).0
unfolding update
update-IsBound b u c h =
    let (t, changes) = apply c.auto u c.devices in
    handle_changes-IsBound b changes (record c { devices = t })
      (
        Pending-apply c.auto u c.devices c.prop_subs h.props_bound,
        Pending-apply c.auto u c.devices c.event_subs h.events_bound,
      )

rebind-Bound : (b : Sources) (t : Table) (s : Sub) → Bound t (rebind_subscription b t s).0
rebind-Bound b t s =
    let (bound, same) = rebind-source b t s in bound ∙ ap (λ d. source_of d t) (sym same)

subscribe_property-IsBound :
    (b : Sources) (did : Bytes) (siid piid : ℕ) (c : MiotClient)
    → IsBound c
    → IsBound (subscribe_property b did siid piid c).0
unfolding subscribe_property
subscribe_property-IsBound b did siid piid c h = elim (Option-cases (lookup did c.devices)) [
  | inl e ↦ rw (e, subscribe_property) h
  | inr (x, e) ↦
      let s = fresh_sub did siid piid c.next_sub_id in
      rw (e, subscribe_property)
        (record {
          props_bound =
              All-append (Bound c.devices) c.prop_subs _ h.props_bound
                (rebind-Bound b c.devices s, tt);
          events_bound = h.events_bound;
        })
]

subscribe_event-IsBound :
    (b : Sources) (did : Bytes) (siid eiid : ℕ) (c : MiotClient)
    → IsBound c
    → IsBound (subscribe_event b did siid eiid c).0
unfolding subscribe_event
subscribe_event-IsBound b did siid eiid c h = elim (Option-cases (lookup did c.devices)) [
  | inl e ↦ rw (e, subscribe_event) h
  | inr (x, e) ↦
      let s = fresh_sub did siid eiid c.next_sub_id in
      rw (e, subscribe_event)
        (record {
          props_bound = h.props_bound;
          events_bound =
              All-append (Bound c.devices) c.event_subs _ h.events_bound
                (rebind-Bound b c.devices s, tt);
        })
]

state_sub-IsBound :
    (did : Bytes) (c : MiotClient) → IsBound c → IsBound (subscribe_device_state did c).0
unfolding subscribe_device_state
state_sub-IsBound did c h = elim (Option-cases (lookup did c.devices)) [
  | inl e ↦ rw (e, subscribe_device_state) h
  | inr (x, e) ↦
      rw (e, subscribe_device_state)
        (record { props_bound = h.props_bound; events_bound = h.events_bound })
]

close_list-Bound :
    (t : Table) (id : ℕ) (ss : List Sub) → All (Bound t) ss → All (Bound t) (close_list id ss).0
unfolding close_list
close_list-Bound t id [] h = tt
close_list-Bound t id (s ∷ ss) (h, hs) = elim (Bool-cases (s.id == id)) [
  | inl e ↦ rw e (close_list-Bound t id ss hs)
  | inr e ↦ rw e (h, close_list-Bound t id ss hs)
]

-- A method of the client, with the answers of the backends.
pub data Step (c : MiotClient) : MiotClient → Type 0 where
  updated : (b : Sources) (u : Update) → Step c (update b u c).0
  property :
      (b : Sources) (did : Bytes) (siid piid : ℕ) → Step c (subscribe_property b did siid piid c).0
  event : (b : Sources) (did : Bytes) (siid eiid : ℕ) → Step c (subscribe_event b did siid eiid c).0
  state : (did : Bytes) → Step c (subscribe_device_state did c).0
  property_closed : (id : ℕ) → Step c (close_property id c).0
  event_closed : (id : ℕ) → Step c (close_event id c).0
  state_closed : (id : ℕ) → Step c (close_device_state id c)

pub data Reach (s : MiotClient) : MiotClient → Type 0 where
  here : Reach s s
  next : {c d : MiotClient} → Reach s c → Step c d → Reach s d

Step-IsBound : {c d : MiotClient} → Step c d → IsBound c → IsBound d
unfolding close_property close_event close_device_state
Step-IsBound {c} (updated b u) h = update-IsBound b u c h
Step-IsBound {c} (property b did siid piid) h = subscribe_property-IsBound b did siid piid c h
Step-IsBound {c} (event b did siid eiid) h = subscribe_event-IsBound b did siid eiid c h
Step-IsBound {c} (state did) h = state_sub-IsBound did c h
Step-IsBound {c} (property_closed id) h = record {
  props_bound = close_list-Bound c.devices id c.prop_subs h.props_bound;
  events_bound = h.events_bound;
}
Step-IsBound {c} (event_closed id) h = record {
  props_bound = h.props_bound;
  events_bound = close_list-Bound c.devices id c.event_subs h.events_bound;
}
Step-IsBound {c} (state_closed id) h = record {
  props_bound = h.props_bound;
  events_bound = h.events_bound;
}

-- After any sequence of methods, updates of the table and subscriptions that come and go, every
-- subscription of a property or an event has as its source the push source that the table gives its device, or
-- none if the table does not have the device.
pub Reach-IsBound : (auto : Bool) {c : MiotClient} → Reach (new_miot_client auto) c → IsBound c
unfolding new_miot_client
Reach-IsBound auto here = record { props_bound = tt; events_bound = tt }
Reach-IsBound auto (next r st) = Step-IsBound st (Reach-IsBound auto r)
