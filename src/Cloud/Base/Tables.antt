-- ===== src/Cloud/Base/Tables.antt =====
-- cloud.go: the tables of homes, and under which identifiers the homes stand in them.
use go_mihome.Common.{
  ◌≡◌, refl, sym, ap, ◌∙◌, List, [], ◌∷◌, Option, none, some, false, arith, Bool-cases,
  Option-cases, inl, inr,
}
use go_mihome.Common.Bytes.{Bytes, bytes_eq, bytes_eq_iff}
use go_mihome.Common.Dict.{Dict, lookup, insert, lookup-insert}
use go_mihome.Cloud.Homes.{
  HomeInfo, HomeInfos, CloudHome, normalize_home_record, note_home, home_table,
  normalize_home_infos, merge_home_record, merge_extra, merge_home_extras,
}

unfoldable pub IsTable : Dict HomeInfo → Type 0
IsTable [] = Unit
IsTable ((id, h) ∷ m) = (h.home_id ≡ id) × (lookup id m ≡ none) × IsTable m

pub differs_flip : (a b : Bytes) → bytes_eq a b ≡ false → bytes_eq b a ≡ false
differs_flip a b h = ground (arith, bytes_eq_iff a b, bytes_eq_iff b a)

insert-IsTable :
    (id : Bytes) (h : HomeInfo) (m : Dict HomeInfo)
    → h.home_id ≡ id
    → IsTable m
    → IsTable (insert id h m)
unfolding insert lookup IsTable
insert-IsTable key h [] own t = (own, refl, tt)
insert-IsTable key h ((id, x) ∷ m) own (mine, once, t) = elim (Bool-cases (bytes_eq id key)) [
  | inl same ↦ rw same (own, ap (λ k. lookup k m) (sym ((bytes_eq_iff id key).0 same)) ∙ once, t)
  | inr other ↦ rw other (
    mine,
    lookup-insert key id h m ∙ rw (differs_flip id key other) once,
    insert-IsTable key h m own t,
  )
]

table_key :
    (key : Bytes) (h : HomeInfo) (m : Dict HomeInfo)
    → IsTable m
    → lookup key m ≡ some h
    → h.home_id ≡ key
unfolding lookup IsTable
table_key key h [] t e = absurd (ground arith)
table_key key h ((id, x) ∷ m) (mine, once, t) e = elim (Bool-cases (bytes_eq id key)) [
  | inl same ↦ own x h (rw same at e) mine ((bytes_eq_iff id key).0 same)
  | inr other ↦ table_key key h m t (rw other at e)
]
  where
    own : (x h : HomeInfo) → some x ≡ some h → x.home_id ≡ id → id ≡ key → h.home_id ≡ key
    own x h e mine same = cc

home_table-IsTable :
    (calc : Bytes → Bytes → Bytes) (homes : List CloudHome) (m : Dict HomeInfo)
    → IsTable m
    → IsTable (home_table calc homes m)
unfolding home_table
home_table-IsTable calc [] m t = t
home_table-IsTable calc (home ∷ rest) m t =
    home_table-IsTable calc rest (note_home (normalize_home_record calc home) m)
      (noted (normalize_home_record calc home))
  where
    noted : (o : Option HomeInfo) → IsTable (note_home o m)
    noted none = t
    noted (some h) = insert-IsTable h.home_id h m refl t

merge_extra-IsTable :
    (home : CloudHome) (m : Dict HomeInfo) → IsTable m → IsTable (merge_extra home m)
unfolding merge_home_record merge_extra
merge_extra-IsTable home m t = elim (Option-cases (lookup home.id m)) [
  | inl e ↦ rw (e, merge_extra) t
  | inr (h, e) ↦
      rw (e, merge_extra)
        (insert-IsTable home.id (merge_home_record home h) m (kept h (table_key home.id h m t e)) t)
]
  where
    kept : (h : HomeInfo) → h.home_id ≡ home.id → (merge_home_record home h).home_id ≡ home.id
    kept h e = e

-- Both tables of the homes of an account.
abbrev pub AreTables : HomeInfos → Type 0
AreTables infos = IsTable infos.home_list × IsTable infos.share_home_list

merge_home_extras-AreTables :
    (extras : List CloudHome) (infos : HomeInfos)
    → AreTables infos
    → AreTables (merge_home_extras extras infos)
unfolding merge_home_extras
merge_home_extras-AreTables [] infos t = t
merge_home_extras-AreTables (home ∷ rest) infos (own, shared) =
    merge_home_extras-AreTables rest
      (record infos {
        home_list = merge_extra home infos.home_list;
        share_home_list = merge_extra home infos.share_home_list;
      })
      (
        merge_extra-IsTable home infos.home_list own,
        merge_extra-IsTable home infos.share_home_list shared,
      )

-- The homes as GetHomeInfos returns them.
pub homes-AreTables :
    (calc : Bytes → Bytes → Bytes) (homes shared extras : List CloudHome)
    → AreTables (merge_home_extras extras (normalize_home_infos calc homes shared))
unfolding normalize_home_infos IsTable
homes-AreTables calc homes shared extras =
    merge_home_extras-AreTables extras (normalize_home_infos calc homes shared)
      (home_table-IsTable calc homes [] tt, home_table-IsTable calc shared [] tt)
