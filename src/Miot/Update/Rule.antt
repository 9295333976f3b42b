-- ===== src/Miot/Update/Rule.antt =====
-- client.go: a rule for properties of every update of the table.
use go_mihome.Common.{◌≡◌, List, [], ◌∷◌, ◌++◌, Option, some, Bool}
use go_mihome.Common.Bytes.{Bytes}
use go_mihome.Common.Dict.{lookup}
use go_mihome.Miot.Entry.{DeviceEntry, Change}
use go_mihome.Miot.Refresh.{
  Table, Visit, write, for_each, both_loops, refresh_cloud, refresh_cloud_by_did, clear_cloud,
  clear_visits, snapshot_visits, detail_visits, by_did, unique_strings,
}
use go_mihome.Miot.Local.{
  update_gateway_devices, update_lan_devices, handle_cloud_device_state, gateway_known, lan_known,
  set_cloud_state, local_by_did, known_visits, new_visits, seen_in_group, lan_by_did,
  lan_known_visits, lan_new_visits, seen_on_lan,
}
use go_mihome.Miot.Update.{Update, cloud, cloud_by_did, gateway, lan, cloud_state, apply}
use go_mihome.Miot.Update.Keeps.{
  source_of, state_of, AllKeep, clear_cloud-Keeps, gateway_known-Keeps, lan_known-Keeps,
  set_cloud_state-Keeps, on_keys-AllKeep, snapshot-AllKeep, detail-AllKeep, new-AllKeep,
  lan_new-AllKeep,
}

module _ (auto : Bool) (P : Table → Table × List Change → Type 0)
    (nothing : (t : Table) → P t (t, []))
    (compose : (t u v : Table) (xs ys : List Change)
      → P t (u, xs)
      → P u (v, ys)
      → P t (v, xs ++ ys))
    (written : (did : Bytes) (o : Option DeviceEntry) (t : Table)
      → ((e : DeviceEntry)
          → o ≡ some e
          → (e.state ≡ state_of did t) × (e.push_source ≡ source_of did t))
      → P t (write auto did o t)) where
  for_each-rule : (visits : List Visit) (t : Table) → AllKeep visits → P t (for_each auto visits t)
  unfolding for_each
  for_each-rule [] t h = nothing t
  for_each-rule ((did, body) ∷ rest) t (h, hs) =
      let (u, first) = write auto did (body (lookup did t)) t in
      let (v, later) = for_each auto rest u in
      compose t u v first later (written did (body (lookup did t)) t (h (lookup did t)))
        (for_each-rule rest u hs)

  both_loops-rule :
      (first second : List Visit) (t : Table)
      → AllKeep first
      → AllKeep second
      → P t (both_loops auto first second t)
  unfolding both_loops
  both_loops-rule first second t h g =
      let (u, before) = for_each auto first t in
      let (v, after) = for_each auto second u in
      compose t u v before after (for_each-rule first t h) (for_each-rule second u g)

  pub apply-rule : (u : Update) (t : Table) → P t (apply auto u t)
  unfolding apply refresh_cloud refresh_cloud_by_did update_gateway_devices update_lan_devices
      handle_cloud_device_state
  apply-rule (cloud snapshot) t =
      both_loops-rule (clear_visits t) (snapshot_visits snapshot) t
        (on_keys-AllKeep (λ did. clear_cloud) t (λ did. clear_cloud-Keeps))
        (snapshot-AllKeep snapshot)
  apply-rule (cloud_by_did dids details) t =
      let known = by_did details [] in
      let wanted = unique_strings dids [] in
      for_each-rule (detail_visits known wanted) t (detail-AllKeep known wanted)
  apply-rule (gateway group_id items) t =
      let current = local_by_did items [] in
      let seen = seen_in_group group_id current t in
      both_loops-rule (known_visits group_id current t) (new_visits group_id seen current) t
        (on_keys-AllKeep (λ did. gateway_known group_id (lookup did current)) t
          (λ did. gateway_known-Keeps group_id (lookup did current)))
        (new-AllKeep group_id seen current)
  apply-rule (lan items) t =
      let current = lan_by_did items [] in
      let seen = seen_on_lan current t in
      both_loops-rule (lan_known_visits current t) (lan_new_visits seen current) t
        (on_keys-AllKeep (λ did. lan_known (lookup did current)) t
          (λ did. lan_known-Keeps (lookup did current)))
        (lan_new-AllKeep seen current)
  apply-rule (cloud_state did s) t =
      written did (set_cloud_state s (lookup did t)) t (set_cloud_state-Keeps s (lookup did t))
