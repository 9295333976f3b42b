-- ===== src/Lan/Client/Control.antt =====
-- lan.go: the states of a client while LAN control is switched on and off by calls that do not overlap.
use go_mihome.Common.{
  ℕ, ◌≡◌, refl, sym, subst, ◌∙◌, List, [], ◌∷◌, Option, none, some, Bool, true, false,
  if◌then◌else◌, arith, All, inl, inr, Bool-cases,
}
use go_mihome.Common.Result.{Result, ok, Fault, Result-cases, >>=-eq-ok, ◌>>◌}
use go_mihome.Common.Bytes.{Bytes, bytes_eq}
use go_mihome.Common.Dict.{Dict, lookup, insert, delete}
use go_mihome.Lan.Packet.{LanDeviceConfig, Primitives, new_lan_device}
use go_mihome.Lan.Runtime.Config.{LanRuntimeConfig}
use go_mihome.Lan.Runtime.Device.{LanDeviceState, mark_offline, Signal, success, failure}
use Prim.Native.String.{String}
use go_mihome.Lan.Session.{LanSession, Json, handle_packet}
use go_mihome.Lan.Session.Calls.{Transport, invoke}
use go_mihome.Lan.Session.Recorded.{Recorded, handle_packet-Recorded, invoke-Recorded}
use go_mihome.Lan.Client.{
  LanClient, Notice, new_lan_client, effective, ensure_enabled, device, mark_all,
  mark_all_devices_offline, start_runtime, stop_runtime, set_enabled, switch_runtime,
  set_central_gateway_present, any_vote, vote_for_lan_control, start, close, state_or_new,
  add_device, delete_all, delete_devices, record_signal, ping,
}

abbrev pub AllOffline : Dict LanDeviceState → Type 0
AllOffline = All (λ p. p.1.online ≡ false)

-- While LAN control is off the runtime is stopped and every device is offline.
pub record IsSettled (c : LanClient) : Type 0 where
  pub stopped : effective c ≡ false → c.running ≡ false
  pub offline : effective c ≡ false → AllOffline c.device_state

mark_all-AllOffline : (m : Dict LanDeviceState) → AllOffline (mark_all m).0
unfolding mark_all mark_offline
mark_all-AllOffline [] = tt
mark_all-AllOffline ((did, s) ∷ rest) = (ground arith, mark_all-AllOffline rest)

AllOffline-insert :
    (did : Bytes) (s : LanDeviceState) (m : Dict LanDeviceState)
    → s.online ≡ false
    → AllOffline m
    → AllOffline (insert did s m)
unfolding insert
AllOffline-insert did s [] h k = (h, tt)
AllOffline-insert did s ((j, w) ∷ m) h k = ground (arith, AllOffline-insert did s m h k.1)

AllOffline-lookup :
    (did : Bytes) (m : Dict LanDeviceState)
    → AllOffline m
    → (state_or_new (lookup did m)).online ≡ false
unfolding lookup
AllOffline-lookup did [] k = refl
AllOffline-lookup did ((j, w) ∷ m) k = ground (arith, AllOffline-lookup did m k.1)

AllOffline-delete :
    (did : Bytes) (m : Dict LanDeviceState) → AllOffline m → AllOffline (delete did m)
unfolding delete
AllOffline-delete did [] k = tt
AllOffline-delete did ((j, w) ∷ m) k = ground (arith, AllOffline-delete did m k.1)

switch_runtime-IsSettled :
    (listen : Option Fault) (c : LanClient) → IsSettled (switch_runtime (effective c) listen c).0
unfolding switch_runtime
switch_runtime-IsSettled listen c = elim (Bool-cases (effective c)) [
  | inl on ↦ rw on (record { stopped = ground arith; offline = ground arith })
  | inr off ↦
      rw off (record { stopped = λ _. refl; offline = λ _. mark_all-AllOffline c.device_state })
]

if_IsSettled :
    (b : Bool) (x y : LanClient × List Notice)
    → IsSettled x.0
    → IsSettled y.0
    → IsSettled (if b then x else y).0
if_IsSettled true x y h k = h
if_IsSettled false x y h k = k

gateway-IsSettled :
    (present : Bool) (listen : Option Fault) (c : LanClient)
    → IsSettled c
    → IsSettled (set_central_gateway_present present listen c).0
unfolding set_central_gateway_present
gateway-IsSettled present listen c h =
    if_IsSettled _ _ (c, [])
      (switch_runtime-IsSettled listen (record c { central_gateway_present = present })) h

vote-IsSettled :
    (key : Bytes) (vote : Bool) (listen : Option Fault) (c : LanClient)
    → IsSettled (vote_for_lan_control key vote listen c).0
unfolding vote_for_lan_control
vote-IsSettled key vote listen c =
    let votes = if bytes_eq key [] then c.lan_votes else insert key vote c.lan_votes in
    switch_runtime-IsSettled listen (record c { lan_votes = votes; enabled = any_vote votes })

start-IsSettled :
    (listen : Option Fault) (c : LanClient) → IsSettled c → IsSettled (start listen c).0
unfolding start set_enabled start_runtime
start-IsSettled listen c h = record { stopped = ground arith; offline = ground arith }

close-IsSettled : (c : LanClient) → IsSettled (close c).0
unfolding close set_enabled stop_runtime mark_all_devices_offline
close-IsSettled c = record {
  stopped = ground arith;
  offline = ground (arith, mark_all-AllOffline c.device_state);
}

record_signal-IsSettled :
    (now : ℕ) (signal : Signal) (did : Bytes) (c : LanClient)
    → effective c ≡ true
    → IsSettled c
    → IsSettled (record_signal now signal did c).0
unfolding record_signal
record_signal-IsSettled now signal did c on h = record {
  stopped = ground arith;
  offline = ground arith;
}

ping-IsSettled :
    (did : Bytes) (outcome : Option Fault) (now : ℕ) (c : LanClient)
    → IsSettled c
    → IsSettled (ping did outcome now c).0
unfolding ping ensure_enabled device
ping-IsSettled did outcome now c h =
    elim (Result-cases (ensure_enabled "lan ping" c >> device c did)) [
      | inl (d, e) ↦ rw (e, ping) (pinged outcome (ground arith))
      | inr (x, e) ↦ rw (e, ping) h
    ]
  where
    pinged :
        (outcome : Option Fault)
        → effective c ≡ true
        → IsSettled
            (elim outcome as (λ _. LanClient × List Notice × Option Fault) [
              | none ↦ let (t, notices) = record_signal now success did c in (t, notices, none)
              | some e ↦ let (t, notices) = record_signal now failure did c in (t, notices, some e)
            ]).0
    pinged none on = record_signal-IsSettled now success did c on h
    pinged (some e) on = record_signal-IsSettled now failure did c on h

add_device-IsSettled :
    (prim : Primitives) (cfg : LanDeviceConfig) (c : LanClient) {t : LanClient}
    → IsSettled c
    → add_device prim cfg c ≡ ok t
    → IsSettled t
unfolding add_device
add_device-IsSettled prim cfg c {t} h e =
    let (d, _, made) = >>=-eq-ok (new_lan_device prim cfg) _ e in
    let state = state_or_new (lookup cfg.did c.device_state) in
    let same : effective t ≡ effective c = ground arith in
    let stored : insert cfg.did state c.device_state ≡ t.device_state = ground arith in
    record {
      stopped = λ off. ground arith;
      offline = λ off.
          let before = h.offline (sym same ∙ off) in
          subst AllOffline stored (
            AllOffline-insert cfg.did state c.device_state
              (AllOffline-lookup cfg.did c.device_state before) before);
    }

delete_devices-IsSettled :
    (dids : List Bytes) (c : LanClient) → IsSettled c → IsSettled (delete_all dids c)
unfolding delete_all
delete_devices-IsSettled [] c h = h
delete_devices-IsSettled (did ∷ dids) c h = delete_devices-IsSettled dids _ (record {
  stopped = h.stopped;
  offline = λ off. AllOffline-delete did c.device_state (h.offline off);
})

-- The calls that the rest of the program makes, with LanSession for what HandlePacket, GetProp, SetProp and
-- InvokeAction (`invoke`) read beside the client, and the results of probes that the scanning goroutine
-- records, which it does only while the runtime runs. Each runs to its end before the next one starts.
pub data Call : LanClient → LanClient → Type 1 where
  gateway :
      (present : Bool) (listen : Option Fault) (c : LanClient)
      → Call c (set_central_gateway_present present listen c).0
  vote :
      (key : Bytes) (yea : Bool) (listen : Option Fault) (c : LanClient)
      → Call c (vote_for_lan_control key yea listen c).0
  starts : (listen : Option Fault) (c : LanClient) → Call c (start listen c).0
  closes : (c : LanClient) → Call c (close c).0
  pings :
      (did : Bytes) (outcome : Option Fault) (now : ℕ) (c : LanClient)
      → Call c (ping did outcome now c).0
  probed :
      (now : ℕ) (signal : Signal) (did : Bytes) (c : LanClient)
      → c.running ≡ true
      → Call c (record_signal now signal did c).0
  packet :
      (prim : Primitives) (json : Json) (responds : Bool) (did if_name ip : Bytes) (now : ℕ)
      (p : Bytes) (s : LanSession)
      → Call s.client (handle_packet prim json responds did if_name ip now p s).0.client
  calls :
      (prim : Primitives) (transport : Transport) {R : Type 0} (op : String) (did method : Bytes)
      (payload : Option Bytes) (decode : Bytes → Result R) (now : ℕ) (s : LanSession)
      → Call s.client (invoke prim transport op did method payload decode now s).0.client
  adds :
      (prim : Primitives) (cfg : LanDeviceConfig) (c : LanClient) {t : LanClient}
      → add_device prim cfg c ≡ ok t
      → Call c t
  deletes : (dids : List Bytes) (c : LanClient) → Call c (delete_devices dids c).0

pub data Reach (c : LanClient) : LanClient → Type 1 where
  here : Reach c c
  next : {t u : LanClient} → Reach c t → Call t u → Reach c u

Recorded-IsSettled :
    (now : ℕ) (did : Bytes) (c t : LanClient) → IsSettled c → Recorded now did c t → IsSettled t
Recorded-IsSettled now did c t h (inl same) = subst IsSettled (sym same) h
Recorded-IsSettled now did c t h (inr (on, same)) =
    subst IsSettled (sym same) (record_signal-IsSettled now success did c on h)

Call-IsSettled : {c t : LanClient} → Call c t → IsSettled c → IsSettled t
unfolding delete_devices
Call-IsSettled (gateway present listen c) h = gateway-IsSettled present listen c h
Call-IsSettled (vote key yea listen c) h = vote-IsSettled key yea listen c
Call-IsSettled (starts listen c) h = start-IsSettled listen c h
Call-IsSettled (closes c) h = close-IsSettled c
Call-IsSettled (pings did outcome now c) h = ping-IsSettled did outcome now c h
Call-IsSettled (probed now signal did c running) h =
    record_signal-IsSettled now signal did c (ground arith) h
Call-IsSettled {c} {t} (packet prim json responds did if_name ip now p s) h =
    Recorded-IsSettled now did s.client t h
      (handle_packet-Recorded prim json responds did if_name ip now p s)
Call-IsSettled {c} {t} (calls prim transport op did method payload decode now s) h =
    Recorded-IsSettled now did s.client t h
      (invoke-Recorded prim transport op did method payload decode now s)
Call-IsSettled (adds prim cfg c e) h = add_device-IsSettled prim cfg c h e
Call-IsSettled (deletes dids c) h = delete_devices-IsSettled dids c h

Reach-IsSettled_from : {c t : LanClient} → IsSettled c → Reach c t → IsSettled t
Reach-IsSettled_from h here = h
Reach-IsSettled_from h (next r call) = Call-IsSettled call (Reach-IsSettled_from h r)

new-IsSettled : (r : LanRuntimeConfig) → IsSettled (new_lan_client r)
unfolding new_lan_client
new-IsSettled r = record { stopped = λ off. refl; offline = λ off. tt }

-- As long as calls do not overlap, so that each one runs to its end before the next one starts, a client that
-- was new stays settled: if LAN control is off, because it is disabled or because a central gateway is
-- present, then the runtime is stopped and no device counts as online. The calls are votes, changes of the
-- central gateway, Start, Close, Ping, HandlePacket, GetProp, SetProp and InvokeAction, devices added and
-- deleted, and probes that are recorded while the runtime runs.
pub Reach-IsSettled :
    (r : LanRuntimeConfig) (c : LanClient) → Reach (new_lan_client r) c → IsSettled c
Reach-IsSettled r c reached = Reach-IsSettled_from (new-IsSettled r) reached
