-- ===== src/Miot/Entry/Laws.antt =====
-- client.go: the rules for the state and the push source of an entry, and an entry once it has been
-- recomputed.
use go_mihome.Common.{
  ◌≡◌, ◌≢◌, ◌↔◌, refl, [], Bool, true, false, ◌&&◌, not, arith, Bool-cases, inl, inr,
}
use go_mihome.Common.Bytes.{Bytes, bytes_eq, bytes_eq_iff, codes}
use go_mihome.Miot.Entry.{
  DeviceState, disable, offline, online, DeviceEntry, aggregate_device_state, select_push_source,
  state_differs, recompute_entry,
}

-- A gateway may push for the device: the mode is automatic, and its gateway is online, can push and has a
-- group.
abbrev pub GatewayPushes : Bool → DeviceEntry → Type 0
GatewayPushes auto e =
    (auto ≡ true)
    × (e.gateway_online ≡ true)
    × (e.gateway_push_available ≡ true)
    × (e.info.group_id ≢ [])

abbrev pub LanPushes : Bool → DeviceEntry → Type 0
LanPushes auto e = (auto ≡ true) × (e.lan_online ≡ true) × (e.lan_push_available ≡ true)

abbrev pub CloudPushes : DeviceEntry → Type 0
CloudPushes e = (e.cloud_present ≡ true) × (e.cloud_online ≡ true)

-- The push source, by preference: the gateway's group, then the LAN, then the cloud, then none.
pub data HasSource (auto : Bool) (e : DeviceEntry) : Bytes → Type 0 where
  from_gateway : GatewayPushes auto e → HasSource auto e e.info.group_id
  from_lan : ¬ GatewayPushes auto e → LanPushes auto e → HasSource auto e (codes "lan")
  from_cloud :
      ¬ GatewayPushes auto e → ¬ LanPushes auto e → CloudPushes e → HasSource auto e (codes "cloud")
  from_none : ¬ GatewayPushes auto e → ¬ LanPushes auto e → ¬ CloudPushes e → HasSource auto e []

-- The state: online by any way that is up, offline when only the cloud knows the device and says so,
-- disabled when no way knows it.
pub data HasState (e : DeviceEntry) : DeviceState → Type 0 where
  by_gateway : e.gateway_online ≡ true → HasState e online
  by_lan : e.lan_online ≡ true → HasState e online
  by_cloud : e.cloud_present ≡ true → e.cloud_online ≡ true → HasState e online
  is_offline :
      e.cloud_present ≡ true
      → e.cloud_online ≡ false
      → e.gateway_online ≡ false
      → e.lan_online ≡ false
      → HasState e offline
  is_disabled :
      e.cloud_present ≡ false → e.gateway_online ≡ false → e.lan_online ≡ false → HasState e disable

pub record IsCurrent (auto : Bool) (e : DeviceEntry) : Type 0 where
  pub state_current : HasState e e.state
  pub source_current : HasSource auto e e.push_source

gateway_cases :
    (auto : Bool) (e : DeviceEntry)
    → (auto && (e.gateway_online && (e.gateway_push_available && not (bytes_eq e.info.group_id [])))
        ≡ true)
      ↔ GatewayPushes auto e
gateway_cases auto e = (
  λ h. (
    ground arith,
    ground arith,
    ground arith,
    λ z. ground (arith, bytes_eq_iff e.info.group_id []),
  ),
  λ h. ground (arith, bytes_eq_iff e.info.group_id []),
)

aggregate-HasState :
    (e : DeviceEntry) (present cloud gateway lan : Bool)
    → e.cloud_present ≡ present
    → e.cloud_online ≡ cloud
    → e.gateway_online ≡ gateway
    → e.lan_online ≡ lan
    → HasState e (aggregate_device_state present cloud gateway lan)
unfolding aggregate_device_state
aggregate-HasState e true true true lan p c g l = by_gateway g
aggregate-HasState e true false true lan p c g l = by_gateway g
aggregate-HasState e false true true lan p c g l = by_gateway g
aggregate-HasState e false false true lan p c g l = by_gateway g
aggregate-HasState e true true false true p c g l = by_lan l
aggregate-HasState e true false false true p c g l = by_lan l
aggregate-HasState e false true false true p c g l = by_lan l
aggregate-HasState e false false false true p c g l = by_lan l
aggregate-HasState e true true false false p c g l = by_cloud p c
aggregate-HasState e true false false false p c g l = is_offline p c g l
aggregate-HasState e false true false false p c g l = is_disabled p g l
aggregate-HasState e false false false false p c g l = is_disabled p g l

select-HasSource : (auto : Bool) (e : DeviceEntry) → HasSource auto e (select_push_source auto e)
unfolding select_push_source
select-HasSource auto e =
    let (to, back) = gateway_cases auto e in
    elim (Bool-cases (
      auto
      && (e.gateway_online && (e.gateway_push_available && not (bytes_eq e.info.group_id []))))) [
        | inl g ↦ rw g (from_gateway (to g))
        | inr g ↦
            let no_gateway : ¬ GatewayPushes auto e = λ x. let y = back x in ground arith in
            elim (Bool-cases (auto && (e.lan_online && e.lan_push_available))) [
              | inl l ↦ rw (g, l) (from_lan no_gateway (ground arith))
              | inr l ↦
                  let no_lan : ¬ LanPushes auto e = λ x. ground arith in
                  elim (Bool-cases (e.cloud_present && e.cloud_online)) [
                    | inl c ↦ rw (g, l, c) (from_cloud no_gateway no_lan (ground arith))
                    | inr c ↦ rw (g, l, c) (from_none no_gateway no_lan (λ x. ground arith))
                  ]
            ]
      ]

pub recompute-IsCurrent :
    (auto : Bool) (did : Bytes) (e : DeviceEntry) → IsCurrent auto (recompute_entry auto did e).0
unfolding recompute_entry
recompute-IsCurrent auto did e =
    let f = record e {
      state = aggregate_device_state e.cloud_present e.cloud_online e.gateway_online e.lan_online;
      push_source = select_push_source auto e;
    } in
    record {
      state_current =
          aggregate-HasState f e.cloud_present e.cloud_online e.gateway_online e.lan_online refl
            refl refl refl;
      source_current = select-HasSource auto f;
    }

pub state_differs_sound : (s t : DeviceState) → state_differs s t ≡ false → s ≡ t
unfolding state_differs
state_differs_sound disable disable h = refl
state_differs_sound offline offline h = refl
state_differs_sound online online h = refl
state_differs_sound disable offline h = cc
state_differs_sound disable online h = cc
state_differs_sound offline disable h = cc
state_differs_sound offline online h = cc
state_differs_sound online disable h = cc
state_differs_sound online offline h = cc
