-- ===== src/Lan/Session/Push/Off.antt =====
-- lan.go: events that are switched off.
use go_mihome.Common.{
  ℕ, ◌≡◌, ◌⊎◌, refl, sym, ap, ◌∙◌, List, [], ◌∷◌, Option, none, some, Bool, true, false, ◌||◌,
  arith, Bool-cases, Option-cases, inl, inr, subst,
}
use go_mihome.Common.Bytes.{Bytes, bytes_eq, bytes_eq_iff, codes}
use go_mihome.Common.Dict.{Dict, lookup, lookup-insert}
use go_mihome.Lan.Packet.{Primitives}
use go_mihome.Lan.Runtime.Device.{LanDeviceState}
use go_mihome.Lan.Client.{LanClient}
use go_mihome.Lan.Session.{LanSession, Json}
use go_mihome.Lan.Session.Calls.{Transport, next_message_id}
use go_mihome.Lan.Session.Push.{
  set_state, send, unsubscribe_device, unsubscribe_all, pushing, set_subscribe_option,
}

-- If the device has a state, its events are not expected.
abbrev pub IsQuiet : Bytes → LanSession → Type 0
IsQuiet did s =
    (d : LanDeviceState) → lookup did s.client.device_state ≡ some d → d.push_available ≡ false

-- Whether the events of a device are expected.
abbrev pub expects_events : Option LanDeviceState → Bool
expects_events none = false
expects_events (some d) = d.push_available

-- The device is in the list.
abbrev listed : Bytes → List Bytes → Bool
listed k [] = false
listed k (did ∷ dids) = bytes_eq did k || listed k dids

ap_push : (x d : LanDeviceState) → some x ≡ some d → x.push_available ≡ d.push_available
ap_push x d e = cc

-- A device whose events are expected is in the list of those that are asked to stop.
pushing-listed :
    (k : Bytes) (m : Dict LanDeviceState) (d : LanDeviceState)
    → lookup k m ≡ some d
    → d.push_available ≡ true
    → listed k (pushing m) ≡ true
unfolding lookup pushing
pushing-listed k [] d h on = absurd (ground arith)
pushing-listed k ((j, x) ∷ m) d h on = elim (Bool-cases (bytes_eq j k)) [
  | inl same ↦
      let is : some x ≡ some d = rw (same, lookup) at h in
      let own : x.push_available ≡ true = ap_push x d is ∙ on in rw own (rw same)
  | inr other ↦
      let later = pushing-listed k m d (rw (other, lookup) at h) on in
      elim (Bool-cases x.push_available) [ inl e ↦ rw e (rw (other, later)) | inr e ↦ rw e later ]
]

module _ (prim : Primitives) (json : Json) (transport : Transport) where
  send-client :
      (did method : Bytes) (update_ts : ℕ) (s : LanSession)
      → (send prim json transport did method update_ts s).0.client ≡ s.client
  unfolding next_message_id
  send-client did method update_ts s =
      elim (Option-cases (json.subscribe_params s.virtual_did update_ts)) [
        | inl e ↦ rw (e, send)
        | inr (p, e) ↦ rw (e, send)
      ]

  set_state-IsQuiet :
      (did k : Bytes) (new : LanDeviceState) (t : LanSession)
      → new.push_available ≡ false
      → (bytes_eq did k ≡ true) ⊎ IsQuiet k t
      → IsQuiet k (set_state did new t)
  set_state-IsQuiet did k new t off h d found = elim (Bool-cases (bytes_eq did k)) [
    | inl same ↦
        let is : some new ≡ some d =
          sym (lookup-insert did k new t.client.device_state ∙ rw same) ∙ found in
        sym (ap_push new d is) ∙ off
    | inr other ↦
        let kept : lookup k t.client.device_state ≡ some d =
          sym (lookup-insert did k new t.client.device_state ∙ rw other) ∙ found in
        elim h [ inl e ↦ absurd (ground (arith, e, other)) | inr q ↦ q d kept ]
  ]

  idle-IsQuiet :
      (did k : Bytes) (s : LanSession)
      → IsQuiet did s
      → (bytes_eq did k ≡ true) ⊎ IsQuiet k s
      → IsQuiet k s
  idle-IsQuiet did k s own (inr q) = q
  idle-IsQuiet did k s own (inl same) = subst (λ x. IsQuiet x s) ((bytes_eq_iff did k).0 same) own

  -- A device that is quiet stays so, and the device that is asked to stop is quiet.
  unsubscribe-IsQuiet :
      (did k : Bytes) (s : LanSession)
      → (bytes_eq did k ≡ true) ⊎ IsQuiet k s
      → IsQuiet k (unsubscribe_device prim json transport did s)
  unfolding unsubscribe_device
  unsubscribe-IsQuiet did k s h = elim (Option-cases (lookup did s.client.device_state)) [
    | inl e ↦
        rw (e, unsubscribe_device) (idle-IsQuiet did k s (λ d f. absurd (ground (arith, e, f))) h)
    | inr (old, e) ↦ elim (Bool-cases old.push_available) [
      | inr off ↦
          let own : IsQuiet did s = λ d f. sym (ap_push old d (sym e ∙ f)) ∙ off in
          rw (e, unsubscribe_device) (rw off (idle-IsQuiet did k s own h))
      | inl on ↦
          let t = (send prim json transport did (codes "miIO.unsub") old.last_subscribe_ts s).0 in
          let kept = send-client did (codes "miIO.unsub") old.last_subscribe_ts s in
          let h' : (bytes_eq did k ≡ true) ⊎ IsQuiet k t = elim h [
            | inl x ↦ inl x
            | inr q ↦
                inr (λ d f. q d (ap (λ (c : LanClient). lookup k c.device_state) (sym kept) ∙ f))
          ] in
          rw (e, unsubscribe_device)
            (rw on (set_state-IsQuiet did k (record old { push_available = false }) t refl h'))
    ]
  ]

  unsubscribe_all-IsQuiet :
      (k : Bytes) (dids : List Bytes) (s : LanSession)
      → (listed k dids ≡ true) ⊎ IsQuiet k s
      → IsQuiet k (unsubscribe_all prim json transport dids s)
  unfolding unsubscribe_all
  unsubscribe_all-IsQuiet k [] s (inl e) = absurd (ground arith)
  unsubscribe_all-IsQuiet k [] s (inr q) = q
  unsubscribe_all-IsQuiet k (did ∷ dids) s h =
      unsubscribe_all-IsQuiet k dids (unsubscribe_device prim json transport did s)
        (next (bytes_eq did k) refl h)
    where
      next :
          (b : Bool)
          → bytes_eq did k ≡ b
          → ((b || listed k dids) ≡ true) ⊎ IsQuiet k s
          → (listed k dids ≡ true) ⊎ IsQuiet k (unsubscribe_device prim json transport did s)
      next true e h = inr (unsubscribe-IsQuiet did k s (inl e))
      next false e (inl l) = inl l
      next false e (inr q) = inr (unsubscribe-IsQuiet did k s (inr q))

  switched_off :
      (did : Bytes) (s : LanSession)
      → IsQuiet did (set_subscribe_option prim json transport false s)
  unfolding set_subscribe_option
  switched_off did s =
      let m = s.client.device_state in
      let t = record s { subscribe_enabled = false } in
      unsubscribe_all-IsQuiet did (pushing m) t (elim (Bool-cases (listed did (pushing m))) [
        | inl l ↦ inl l
        | inr l ↦ inr (λ d f. elim (Bool-cases d.push_available) [
          | inr off ↦ off
          | inl on ↦ absurd (ground (arith, pushing-listed did m d f on, l))
        ])
      ])

  -- Once events have been switched off, no device of the table is expected to send them, whatever the
  -- devices answer to being asked to stop, and whether they can be asked at all.
  pub events_off :
      (did : Bytes) (s : LanSession)
      → expects_events
          (lookup did (set_subscribe_option prim json transport false s).client.device_state)
        ≡ false
  events_off did s =
      let t = set_subscribe_option prim json transport false s in
      elim (Option-cases (lookup did t.client.device_state)) [
        | inl e ↦ rw e
        | inr (d, e) ↦ rw e (switched_off did s d e)
      ]
