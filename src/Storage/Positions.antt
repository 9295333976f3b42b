-- ===== src/Storage/Positions.antt =====
-- storage.go: the index of the last entry of each key.
use go_mihome.Common.{
  ℕ, zero, suc, ◌+◌, ◌≤◌, ◌≡◌, refl, sym, ap, ◌∙◌, [], ◌∷◌, ◌++◌, Option, none, some, Bool, true,
  false, arith, length, if◌then◌else◌, inl, inr, Option-cases,
}
use go_mihome.Common.Bytes.{Bytes, bytes_eq, bytes_eq_iff}
use go_mihome.Common.Dict.{Dict, lookup, insert, lookup-insert}
use go_mihome.Storage.{UserConfigEntry, Document, index_from, set_at}

abbrev pub or_else {ℓ} : {A : Type ℓ} → Option A → Option A → Option A
or_else none o = o
or_else (some a) o = some a

-- The last entry of a key.
unfoldable pub last_entry : Bytes → Document → Option UserConfigEntry
last_entry k [] = none
last_entry k (e ∷ es) = or_else (last_entry k es) (if bytes_eq e.key k then some e else none)

-- Where it stands, counted from i.
unfoldable pub last_index : ℕ → Bytes → Document → Option ℕ
last_index i k [] = none
last_index i k (e ∷ es) =
    or_else (last_index (i + 1) k es) (if bytes_eq e.key k then some i else none)

pub or_else_assoc {ℓ} :
    {A : Type ℓ} (a b c : Option A) → or_else (or_else a b) c ≡ or_else a (or_else b c)
or_else_assoc none b c = refl
or_else_assoc (some x) b c = refl

pub or_else-none {ℓ} : {A : Type ℓ} (a : Option A) → or_else a none ≡ a
or_else-none none = refl
or_else-none (some x) = refl

pub index_from-lookup :
    (k : Bytes) (i : ℕ) (es : Document) (index : Dict ℕ)
    → lookup k (index_from i es index) ≡ or_else (last_index i k es) (lookup k index)
unfolding index_from last_index
index_from-lookup k i [] index = refl
index_from-lookup k i (e ∷ es) index =
    index_from-lookup k (i + 1) es (insert e.key i index)
    ∙ ap (or_else (last_index (i + 1) k es))
        (lookup-insert e.key k i index ∙ split (bytes_eq e.key k))
    ∙ sym (
        or_else_assoc (last_index (i + 1) k es) (if bytes_eq e.key k then some i else none)
          (lookup k index))
  where
    split :
        (b : Bool)
        → (if b then some i else lookup k index)
          ≡ or_else (if b then some i else none) (lookup k index)
    split true = refl
    split false = refl

pub last_entry-append :
    (k : Bytes) (xs ys : Document)
    → last_entry k (xs ++ ys) ≡ or_else (last_entry k ys) (last_entry k xs)
unfolding last_entry
last_entry-append k [] ys = sym (or_else-none (last_entry k ys))
last_entry-append k (x ∷ xs) ys =
    ap (λ o. or_else o (if bytes_eq x.key k then some x else none)) (last_entry-append k xs ys)
    ∙ or_else_assoc (last_entry k ys) (last_entry k xs) (if bytes_eq x.key k then some x else none)

pub last_index-append :
    (i : ℕ) (k : Bytes) (xs : Document) (e : UserConfigEntry)
    → last_index i k (xs ++ e ∷ [])
      ≡ or_else (if bytes_eq e.key k then some (i + length xs) else none) (last_index i k xs)
unfolding last_index
last_index-append i k [] e =
    let start : i ≡ i + 0 = omega arith in
    ap (λ n. if bytes_eq e.key k then some n else none) start
    ∙ sym (or_else-none (if bytes_eq e.key k then some (i + 0) else none))
last_index-append i k (x ∷ xs) e =
    let next : i + 1 + length xs ≡ i + suc (length xs) = omega arith in
    let here = if bytes_eq x.key k then some i else none in
    ap (λ o. or_else o here) (last_index-append (i + 1) k xs e)
    ∙ or_else_assoc (if bytes_eq e.key k then some (i + 1 + length xs) else none)
        (last_index (i + 1) k xs) here
    ∙ ap
        (λ n.
          or_else (if bytes_eq e.key k then some n else none)
            (or_else (last_index (i + 1) k xs) here))
        next

pub last_index-bound :
    (i : ℕ) (k : Bytes) (xs : Document) (n : ℕ) → last_index i k xs ≡ some n → i ≤ n
unfolding last_index
last_index-bound i k [] n h = absurd (ground arith)
last_index-bound i k (x ∷ xs) n h = elim (Option-cases (last_index (i + 1) k xs)) [
  | inr (m, e) ↦
      let later = last_index-bound (i + 1) k xs m e in
      let same : some m ≡ some n = rw (e, last_index) at h in ground arith
  | inl e ↦
      let first : (if bytes_eq x.key k then some i else none) ≡ some n = rw (e, last_index) at h in
      ground arith
]

pub last_index-none :
    (i : ℕ) (k : Bytes) (xs : Document) → last_index i k xs ≡ none → last_entry k xs ≡ none
unfolding last_index last_entry
last_index-none i k [] h = refl
last_index-none i k (x ∷ xs) h = elim (Option-cases (last_index (i + 1) k xs)) [
  | inr (m, e) ↦ absurd (let no : some m ≡ none = rw (e, last_index) at h in ground arith)
  | inl e ↦
      let first : (if bytes_eq x.key k then some i else none) ≡ none = rw (e, last_index) at h in
      rw (last_index-none (i + 1) k xs e) (ground arith)
]

-- Where the last entry of a key stands: at the head, or behind it.
pub head_index :
    (j : ℕ) (k : Bytes) (x : UserConfigEntry) (xs : Document)
    → last_index j k (x ∷ xs) ≡ some (j + 0)
    → (bytes_eq x.key k ≡ true) × (last_index (j + 1) k xs ≡ none)
unfolding last_index
head_index j k x xs h = elim (Option-cases (last_index (j + 1) k xs)) [
  | inr (m, e) ↦
      let later = last_index-bound (j + 1) k xs m e in
      let same : some m ≡ some (j + 0) = rw (e, last_index) at h in absurd (ground arith)
  | inl e ↦
      let first : (if bytes_eq x.key k then some j else none) ≡ some (j + 0) =
        rw (e, last_index) at h in
      (ground arith, e)
]

pub tail_index :
    (i j : ℕ) (k : Bytes) (x : UserConfigEntry) (xs : Document)
    → last_index j k (x ∷ xs) ≡ some (j + suc i)
    → last_index (j + 1) k xs ≡ some (j + 1 + i)
unfolding last_index
tail_index i j k x xs h = elim (Option-cases (last_index (j + 1) k xs)) [
  | inr (m, e) ↦
      let same : some m ≡ some (j + suc i) = rw (e, last_index) at h in
      let index : m ≡ j + 1 + i = ground arith in e ∙ ap some index
  | inl e ↦
      let first : (if bytes_eq x.key k then some j else none) ≡ some (j + suc i) =
        rw (e, last_index) at h in
      absurd (ground arith)
]

-- The index says for every key where its last entry stands.
abbrev pub Indexed : Document → Dict ℕ → Type 0
Indexed entries index = (k : Bytes) → lookup k index ≡ last_index 0 k entries

-- Replacing the last entry of a key by one with the same key.
pub set_at-index :
    (i j : ℕ) (k : Bytes) (e : UserConfigEntry) (xs : Document)
    → last_index j e.key xs ≡ some (j + i)
    → last_index j k (set_at i e xs) ≡ last_index j k xs
unfolding set_at last_index
set_at-index i j k e [] h = refl
set_at-index zero j k e (x ∷ xs) h =
    let (same, _) = head_index j e.key x xs h in
    let key = (bytes_eq_iff x.key e.key).0 same in
    ap (λ y. or_else (last_index (j + 1) k xs) (if bytes_eq y k then some j else none)) (sym key)
set_at-index (suc i) j k e (x ∷ xs) h =
    ap (λ o. or_else o (if bytes_eq x.key k then some j else none))
      (set_at-index i (j + 1) k e xs (tail_index i j e.key x xs h))
