-- ===== src/Miot/Update/Current.antt =====
-- client.go: the states and the push sources in the table after an update.
use go_mihome.Common.{List, [], ◌∷◌, Option, none, some, Bool, Bool-cases, inl, inr}
use go_mihome.Common.Bytes.{Bytes, bytes_eq}
use go_mihome.Common.Dict.{insert}
use go_mihome.Miot.Entry.{DeviceEntry, recompute_entry}
use go_mihome.Miot.Entry.Laws.{IsCurrent, recompute-IsCurrent}
use go_mihome.Miot.Refresh.{Table, write}
use go_mihome.Miot.Update.Rule.{apply-rule}
use go_mihome.Miot.Update.{Update, apply, apply_all}

abbrev pub AllCurrent : Bool → Table → Type 0
AllCurrent auto [] = Unit
AllCurrent auto ((did, e) ∷ t) = IsCurrent auto e × AllCurrent auto t

insert-AllCurrent :
    (auto : Bool) (did : Bytes) (e : DeviceEntry) (t : Table)
    → IsCurrent auto e
    → AllCurrent auto t
    → AllCurrent auto (insert did e t)
unfolding insert
insert-AllCurrent auto did e [] h k = (h, tt)
insert-AllCurrent auto did e ((j, x) ∷ t) h (k, ks) = elim (Bool-cases (bytes_eq j did)) [
  | inl same ↦ rw same (h, ks)
  | inr other ↦ rw other (k, insert-AllCurrent auto did e t h ks)
]

write-AllCurrent :
    (auto : Bool) (did : Bytes) (o : Option DeviceEntry) (t : Table)
    → AllCurrent auto t
    → AllCurrent auto (write auto did o t).0
unfolding write
write-AllCurrent auto did none t h = h
write-AllCurrent auto did (some e) t h =
    insert-AllCurrent auto did (recompute_entry auto did e).0 t (recompute-IsCurrent auto did e) h

apply-AllCurrent :
    (auto : Bool) (u : Update) (t : Table) → AllCurrent auto t → AllCurrent auto (apply auto u t).0
apply-AllCurrent auto =
    apply-rule auto (λ t r. AllCurrent auto t → AllCurrent auto r.0) (λ t h. h)
      (λ t u v xs ys first second h. second (first h))
      (λ did o t kept h. write-AllCurrent auto did o t h)

-- In a table in which each device has the state and the push source of the rules, this remains so whatever
-- updates arrive and in whatever order. The state is online if the gateway or the LAN has the device online,
-- or the cloud knows it and has it online; offline if only the cloud knows it; disabled if none does. The
-- push source is the gateway's group, if the mode is automatic and the gateway is online, can push and has a
-- group; else the LAN, if the mode is automatic and it is online and can push; else the cloud, if it knows
-- the device and has it online; else none.
pub updates-AllCurrent :
    (auto : Bool) (updates : List Update) (t : Table)
    → AllCurrent auto t
    → AllCurrent auto (apply_all auto updates t).0
unfolding apply_all
updates-AllCurrent auto [] t h = h
updates-AllCurrent auto (u ∷ us) t h =
    updates-AllCurrent auto us (apply auto u t).0 (apply-AllCurrent auto u t h)
