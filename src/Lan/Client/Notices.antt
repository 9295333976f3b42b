-- ===== src/Lan/Client/Notices.antt =====
-- lan.go: what the subscribers of the LAN state are told.
use go_mihome.Common.{
  ◌≡◌, refl, sym, ap, ◌∙◌, List, [], ◌∷◌, ◌++◌, Option, Bool, true, false, if◌then◌else◌, map,
  arith,
}
use go_mihome.Common.Result.{Fault}
use go_mihome.Common.Bytes.{Bytes, bytes_eq}
use go_mihome.Common.Dict.{Dict, insert}
use go_mihome.Lan.Runtime.Device.{LanDeviceState, DeviceEvent, mark_offline, emit}
use go_mihome.Lan.Client.{
  LanClient, Notice, changed, lan_state, device_event, device_disabled, effective, mark_all,
  mark_all_devices_offline, stop_runtime, set_enabled, switch_runtime, set_central_gateway_present,
  any_vote, vote_for_lan_control, start, close,
}

-- What a subscriber knows that has believed b before the notices.
abbrev pub believed : Bool → List Notice → Bool
believed b [] = b
believed b (lan_state x ∷ ns) = believed x ns
believed b (device_event did e ∷ ns) = believed b ns
believed b (device_disabled did ∷ ns) = believed b ns

believed-append :
    (b : Bool) (xs ys : List Notice) → believed b (xs ++ ys) ≡ believed (believed b xs) ys
believed-append b [] ys = refl
believed-append b (lan_state x ∷ ns) ys = believed-append x ns ys
believed-append b (device_event did e ∷ ns) ys = believed-append b ns ys
believed-append b (device_disabled did ∷ ns) ys = believed-append b ns ys

believed-events :
    (b : Bool) (did : Bytes) (es : List DeviceEvent) → believed b (map (device_event did) es) ≡ b
believed-events b did [] = refl
believed-events b did (e ∷ es) = believed-events b did es

believed-mark_all : (b : Bool) (m : Dict LanDeviceState) → believed b (mark_all m).1 ≡ b
unfolding mark_all
believed-mark_all b [] = refl
believed-mark_all b ((did, s) ∷ rest) =
    believed-append b (map (device_event did) (emit (mark_offline s).1 [])) (mark_all rest).1
    ∙ ap (λ x. believed x (mark_all rest).1) (believed-events b did (emit (mark_offline s).1 []))
    ∙ believed-mark_all b rest

believed-switch :
    (b on : Bool) (listen : Option Fault) (c : LanClient)
    → (believed b (switch_runtime on listen c).1 ≡ b)
      × (effective (switch_runtime on listen c).0 ≡ effective c)
unfolding switch_runtime
believed-switch b true listen c = (refl, ground arith)
believed-switch b false listen c = (believed-mark_all b c.device_state, refl)

-- The subscriber is right after a step that it was right before.
abbrev pub Right : Bool → LanClient × List Notice → Type 0
Right b x = believed b x.1 ≡ effective x.0

if_Right :
    (b test : Bool) (x y : LanClient × List Notice)
    → Right b x
    → Right b y
    → Right b (if test then x else y)
if_Right b true x y h k = h
if_Right b false x y h k = k

told : (b e : Bool) → believed b (if changed b e then lan_state e ∷ [] else []) ≡ e
told true true = refl
told true false = refl
told false true = refl
told false false = refl

switch_told :
    (b on : Bool) (listen : Option Fault) (t : LanClient) (ns : List Notice)
    → believed b ns ≡ effective t
    → Right b ((switch_runtime on listen t).0, (switch_runtime on listen t).1 ++ ns)
switch_told b on listen t ns h =
    let (quiet, same) = believed-switch b on listen t in
    believed-append b (switch_runtime on listen t).1 ns
    ∙ ap (λ x. believed x ns) quiet
    ∙ h
    ∙ sym same

gateway-Right :
    (present : Bool) (listen : Option Fault) (c : LanClient)
    → Right (effective c) (set_central_gateway_present present listen c)
unfolding set_central_gateway_present
gateway-Right present listen c =
    let t = record c { central_gateway_present = present } in
    if_Right (effective c) _ _ (c, [])
      (switch_told (effective c) (effective t) listen t _ (told (effective c) (effective t))) refl

vote-Right :
    (key : Bytes) (yea : Bool) (listen : Option Fault) (c : LanClient)
    → Right (effective c) (vote_for_lan_control key yea listen c)
unfolding vote_for_lan_control
vote-Right key yea listen c =
    let votes = if bytes_eq key [] then c.lan_votes else insert key yea c.lan_votes in
    let t = record c { lan_votes = votes; enabled = any_vote votes } in
    switch_told (effective c) (effective t) listen t (lan_state (effective t) ∷ []) refl

set_enabled-Right : (on : Bool) (c : LanClient) → Right (effective c) (set_enabled on c)
unfolding set_enabled
set_enabled-Right on c =
    let t = record c { enabled = on } in
    if_Right (effective c) _ _ (c, []) (told (effective c) (effective t)) refl

start-Right :
    (listen : Option Fault) (c : LanClient)
    → believed (effective c) (start listen c).1 ≡ effective (start listen c).0
unfolding start
start-Right listen c = ground arith

close-Right : (c : LanClient) → Right (effective c) (close c)
unfolding close mark_all_devices_offline stop_runtime
close-Right c =
    let t = record c { running = false; device_state = (mark_all c.device_state).0 } in
    believed-append (effective c) (mark_all c.device_state).1 (set_enabled false t).1
    ∙ ap (λ x. believed x (set_enabled false t).1) (believed-mark_all (effective c) c.device_state)
    ∙ set_enabled-Right false t

-- A subscriber that has been right about LAN control stays right if it believes the last notice of it:
-- after a change of the gateway, a vote, Start and Close.
pub notices-effective :
    (present yea : Bool) (key : Bytes) (listen : Option Fault) (c : LanClient)
    → let s = start listen c in
      Right (effective c) (set_central_gateway_present present listen c)
      × Right (effective c) (vote_for_lan_control key yea listen c)
      × (believed (effective c) s.1 ≡ effective s.0)
      × Right (effective c) (close c)
notices-effective present yea key listen c = (
  gateway-Right present listen c,
  vote-Right key yea listen c,
  start-Right listen c,
  close-Right c,
)
