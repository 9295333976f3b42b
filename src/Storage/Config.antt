-- ===== src/Storage/Config.antt =====
-- storage.go: what a merged or filtered user configuration holds under each key.
use go_mihome.Common.{
  ℕ, zero, suc, ◌+◌, ◌≡◌, refl, sym, subst, ap, ◌∙◌, List, [], ◌∷◌, ◌++◌, Option, none, some, Bool,
  true, false, arith, length, if◌then◌else◌, inl, inr, Bool-cases, Option-cases,
}
use go_mihome.Common.Bytes.{Bytes, bytes_eq, bytes_eq_iff}
use go_mihome.Common.Dict.{Dict, lookup, insert, lookup-insert}
use go_mihome.Storage.{
  UserConfigEntry, Document, index_from, set_at, merge_loop, merge_documents, is_allowed,
  filter_document,
}
use go_mihome.Storage.Positions.{
  or_else, last_entry, last_index, or_else_assoc, or_else-none, index_from-lookup,
  last_entry-append, last_index-append, last_index-none, head_index, tail_index, Indexed,
  set_at-index,
}

set_at-entry :
    (i j : ℕ) (k : Bytes) (e : UserConfigEntry) (xs : Document)
    → last_index j e.key xs ≡ some (j + i)
    → last_entry k (set_at i e xs)
      ≡ or_else (if bytes_eq e.key k then some e else none) (last_entry k xs)
unfolding set_at last_entry last_index
set_at-entry i j k e [] h = absurd (ground arith)
set_at-entry zero j k e (x ∷ xs) h =
    let (same, alone) = head_index j e.key x xs h in
    let none_behind = last_index-none (j + 1) e.key xs alone in
    let key = (bytes_eq_iff x.key e.key).0 same in
    elim (Bool-cases (bytes_eq e.key k)) [
      | inl f ↦
          let behind : last_entry k xs ≡ none =
            subst (λ y. last_entry y xs ≡ none) ((bytes_eq_iff e.key k).0 f) none_behind in
          rw (f, behind) refl
      | inr f ↦
          let other : bytes_eq x.key k ≡ false = ap (λ y. bytes_eq y k) key ∙ f in
          rw (f, other) refl
    ]
set_at-entry (suc i) j k e (x ∷ xs) h =
    let here = if bytes_eq x.key k then some x else none in
    ap (λ o. or_else o here) (set_at-entry i (j + 1) k e xs (tail_index i j e.key x xs h))
    ∙ or_else_assoc (if bytes_eq e.key k then some e else none) (last_entry k xs) here

merge_loop-entry :
    (k : Bytes) (es entries : Document) (index : Dict ℕ)
    → Indexed entries index
    → last_entry k (merge_loop es entries index) ≡ or_else (last_entry k es) (last_entry k entries)
unfolding merge_loop last_entry
merge_loop-entry k [] entries index h = refl
merge_loop-entry k (e ∷ es) entries index h =
    let new = if bytes_eq e.key k then some e else none in
    let regroup = sym (or_else_assoc (last_entry k es) new (last_entry k entries)) in
    elim (Option-cases (lookup e.key index)) [
      | inr (i, f) ↦
          let at : last_index 0 e.key entries ≡ some (0 + i) =
            sym (h e.key) ∙ f ∙ ap some (omega arith) in
          rw (f, merge_loop)
            (merge_loop-entry k es (set_at i e entries) index
                (λ y. h y ∙ sym (set_at-index i 0 y e entries at))
              ∙ ap (or_else (last_entry k es)) (set_at-entry i 0 k e entries at)
              ∙ regroup)
      | inl f ↦
          rw (f, merge_loop)
            (merge_loop-entry k es (entries ++ e ∷ []) (insert e.key (length entries) index)
                (appended e entries index h)
              ∙ ap (or_else (last_entry k es)) (last_entry-append k entries (e ∷ []))
              ∙ regroup)
    ]
  where
    placed :
        (b : Bool) (n : ℕ) (o : Option ℕ)
        → (if b then some n else o) ≡ or_else (if b then some (0 + n) else none) o
    placed true n o = ap some (omega arith)
    placed false n o = refl

    appended :
        (e : UserConfigEntry) (entries : Document) (index : Dict ℕ)
        → Indexed entries index
        → Indexed (entries ++ e ∷ []) (insert e.key (length entries) index)
    appended e entries index h y =
        lookup-insert e.key y (length entries) index
        ∙ ap (λ o. if bytes_eq e.key y then some (length entries) else o) (h y)
        ∙ placed (bytes_eq e.key y) (length entries) (last_index 0 y entries)
        ∙ sym (last_index-append 0 y entries e)

-- A merged document holds under every key the last entry that the patch has for it, and where the patch
-- has none the last one of the current document.
pub merge-entry :
    (k : Bytes) (current patch : Document)
    → last_entry k (merge_documents current patch)
      ≡ or_else (last_entry k patch) (last_entry k current)
unfolding merge_documents last_entry lookup
merge-entry k [] patch = sym (or_else-none (last_entry k patch))
merge-entry k (x ∷ xs) patch =
    merge_loop-entry k patch (x ∷ xs) (index_from 0 (x ∷ xs) [])
      (λ y. index_from-lookup y 0 (x ∷ xs) [] ∙ or_else-none (last_index 0 y (x ∷ xs)))

-- A filtered document holds under every key that was asked for what the document holds, and nothing
-- under any other.
pub filter-entry :
    (k : Bytes) (doc : Document) (keys : List Bytes)
    → last_entry k (filter_document doc keys)
      ≡ (if is_allowed k keys then last_entry k doc else none)
unfolding filter_document last_entry
filter-entry k [] keys = ground arith
filter-entry k (e ∷ es) keys =
    let rest = filter-entry k es keys in
    elim (Bool-cases (bytes_eq e.key k)) [
      | inl same ↦
          let key = ap (λ x. is_allowed x keys) ((bytes_eq_iff e.key k).0 same) in
          elim (Bool-cases (is_allowed k keys)) [
            | inl asked ↦
                let shown = key ∙ asked in
                rw (shown, same, asked) (ap (λ o. or_else o (some e)) (rest ∙ rw asked))
            | inr unasked ↦ let hidden = key ∙ unasked in rw (hidden, unasked) (rest ∙ rw unasked)
          ]
      | inr other ↦ elim (Bool-cases (is_allowed e.key keys)) [
        | inl shown ↦
            rw (shown, other)
              (or_else-none (last_entry k (filter_document es keys))
                ∙ rest
                ∙ ap (λ o. if is_allowed k keys then o else none)
                    (sym (or_else-none (last_entry k es))))
        | inr hidden ↦
            rw (hidden, other)
              (rest
                ∙ ap (λ o. if is_allowed k keys then o else none)
                    (sym (or_else-none (last_entry k es))))
      ]
    ]
