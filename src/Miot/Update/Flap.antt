-- ===== src/Miot/Update/Flap.antt =====
-- client.go: RefreshCloudDevices clears the presence of every device before it reads the snapshot.
use go_mihome.Common.{
  ◌≡◌, refl, sym, ◌∙◌, List, [], ◌∷◌, ◌++◌, Option, none, some, Bool, true, false, ◌&&◌, ◌||◌, not,
  arith, Bool-cases, inl, inr, subst,
}
use go_mihome.Common.Bytes.{Bytes, bytes_eq, bytes_eq_iff}
use go_mihome.Common.Dict.{Dict, lookup, lookup-insert}
use go_mihome.Miot.Entry.{
  DeviceState, disable, online, DeviceInfo, DeviceEntry, Change, recompute_entry, state_differs,
  aggregate_device_state,
}
use go_mihome.Miot.Refresh.{
  Table, write, for_each, both_loops, refresh_cloud, clear_cloud, clear_visits, snapshot_visits,
  on_keys,
}

-- The changes call the subscribers of the device with the state.
abbrev pub calls_with : Bytes → DeviceState → List Change → Bool
calls_with did s [] = false
calls_with did s (c ∷ cs) =
    (c.state_changed && (bytes_eq c.did did && not (state_differs c.new_state s)))
    || calls_with did s cs

calls_with-left :
    (did : Bytes) (s : DeviceState) (xs ys : List Change)
    → calls_with did s xs ≡ true
    → calls_with did s (xs ++ ys) ≡ true
calls_with-left did s [] ys h = cc
calls_with-left did s (c ∷ xs) ys h = ground (arith, calls_with-left did s xs ys)

calls_with-right :
    (did : Bytes) (s : DeviceState) (xs ys : List Change)
    → calls_with did s ys ≡ true
    → calls_with did s (xs ++ ys) ≡ true
calls_with-right did s [] ys h = h
calls_with-right did s (c ∷ xs) ys h = ground (arith, calls_with-right did s xs ys)

-- The device is online, and by the cloud alone.
pub record IsCloudOnly (e : DeviceEntry) : Type 0 where
  pub is_online : e.state ≡ online
  pub by_cloud : e.cloud_present ≡ true
  pub no_gateway : e.gateway_online ≡ false
  pub no_lan : e.lan_online ≡ false

cleared :
    (auto : Bool) (did : Bytes) (e : DeviceEntry) (t : Table)
    → IsCloudOnly e
    → calls_with did disable (write auto did (clear_cloud (some e)) t).1 ≡ true
unfolding write clear_cloud recompute_entry aggregate_device_state state_differs
cleared auto did e t h =
    rw (h.by_cloud, h.is_online, h.no_gateway, h.no_lan) (rw ((bytes_eq_iff did did).1 refl))

other_kept :
    (auto : Bool) (did k : Bytes) (o : Option DeviceEntry) (t : Table)
    → bytes_eq k did ≡ false
    → lookup did (write auto k o t).0 ≡ lookup did t
unfolding write
other_kept auto did k none t h = refl
other_kept auto did k (some e) t h = lookup-insert k did (recompute_entry auto k e).0 t ∙ rw h

clear_loop-calls :
    (auto : Bool) (did : Bytes) (e : DeviceEntry) (keys t : Table) (x : DeviceEntry)
    → lookup did keys ≡ some x
    → lookup did t ≡ some e
    → IsCloudOnly e
    → calls_with did disable (for_each auto (on_keys (λ _. clear_cloud) keys) t).1 ≡ true
unfolding for_each lookup
clear_loop-calls auto did e [] t x k h only = absurd (ground arith)
clear_loop-calls auto did e ((j, y) ∷ keys) t x k h only =
    let (u, first) = write auto j (clear_cloud (lookup j t)) t in
    let later = (for_each auto (on_keys (λ _. clear_cloud) keys) u).1 in
    elim (Bool-cases (bytes_eq j did)) [
      | inl same ↦
          let name = sym ((bytes_eq_iff j did).0 same) in
          let here : calls_with did disable (write auto did (clear_cloud (lookup did t)) t).1
              ≡ true =
            rw h (cleared auto did e t only) in
          calls_with-left did disable first later (
            subst (λ n. calls_with did disable (write auto n (clear_cloud (lookup n t)) t).1 ≡ true)
              name here)
      | inr other ↦ calls_with-right did disable first later (
          clear_loop-calls auto did e keys u x (rw other at k)
            (other_kept auto did j (clear_cloud (lookup j t)) t other ∙ h) only)
    ]

-- A refresh from the cloud tells the subscribers of every device that is online by the cloud alone that
-- the device is disabled, whatever the snapshot says, and also when the snapshot has the device online.
pub refresh-flaps :
    (auto : Bool) (did : Bytes) (e : DeviceEntry) (snapshot : Dict DeviceInfo) (t : Table)
    → lookup did t ≡ some e
    → IsCloudOnly e
    → calls_with did disable (refresh_cloud auto snapshot t).1 ≡ true
unfolding refresh_cloud both_loops
refresh-flaps auto did e snapshot t h only =
    let (u, before) = for_each auto (clear_visits t) t in
    let (v, after) = for_each auto (snapshot_visits snapshot) u in
    calls_with-left did disable before after (clear_loop-calls auto did e t t e h h only)
