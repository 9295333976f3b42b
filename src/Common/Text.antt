-- ===== src/Common/Text.antt =====
-- strings.TrimSpace, on texts of ASCII characters.
use go_mihome.Common.{
  ℕ, ◌≡◌, refl, [], ◌∷◌, Bool, false, ◌&&◌, ◌||◌, ◌==◌, leb, if◌then◌else◌, Bool-cases, inl, inr,
}
use go_mihome.Common.Bytes.{Bytes, bytes_eq}

-- Tab, line feed, vertical tab, form feed, carriage return and the space.
pub is_space : ℕ → Bool
is_space c = (leb 9 c && leb c 13) || c == 32

trim_left : Bytes → Bytes
unfolding is_space
trim_left [] = []
trim_left (c ∷ cs) = let rest = trim_left cs in if is_space c then rest else c ∷ cs

trim_right : Bytes → Bytes
unfolding is_space
trim_right [] = []
trim_right (c ∷ cs) =
    let rest = trim_right cs in if is_space c && bytes_eq rest [] then [] else c ∷ rest

unfoldable pub trim_space : Bytes → Bytes
unfolding trim_left trim_right
trim_space text = trim_right (trim_left text)

trim_left-right :
    (c : ℕ) (cs : Bytes)
    → is_space c ≡ false
    → trim_left (trim_right (c ∷ cs)) ≡ trim_right (c ∷ cs)
unfolding trim_left trim_right
trim_left-right c cs h = rw h (rw h)

trim_right_twice : (text : Bytes) → trim_right (trim_right text) ≡ trim_right text
unfolding trim_right
trim_right_twice [] = refl
trim_right_twice (c ∷ cs) = elim (Bool-cases (is_space c && bytes_eq (trim_right cs) [])) [
  | inl e ↦ rw e
  | inr e ↦ rw e (rw (trim_right_twice cs) (rw e))
]

-- A text that has been trimmed is not changed by trimming it again.
pub trim-trim : (text : Bytes) → trim_space (trim_space text) ≡ trim_space text
unfolding trim_space trim_left
trim-trim [] = refl
trim-trim (c ∷ cs) = elim (Bool-cases (is_space c)) [
  | inl e ↦ rw e (trim-trim cs)
  | inr e ↦ rw e (rw (trim_left-right c cs e) (trim_right_twice (c ∷ cs)))
]
