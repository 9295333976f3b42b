-- ===== src/Mips/Topic/Literal.antt =====
-- common.go: patterns without wildcards, and patterns for a whole subtree.
use go_mihome.Common.{
  ℕ, ◌≡◌, ◌⊎◌, ◌↔◌, refl, sym, ap, ◌∙◌, List, [], ◌∷◌, ◌++◌, append_assoc, append-nil, true, false,
  ◌==◌, arith, All, inl, inr, Bool-cases,
}
use go_mihome.Common.Bytes.{Bytes, codes, bytes_eq, bytes_eq_iff}
use go_mihome.Mips.Topic.{split, match_parts, match_mqtt_topic}

-- Joined by slashes again.
abbrev pub join : List Bytes → Bytes
join [] = []
join (w ∷ []) = w
join (w ∷ v ∷ ws) = w ++ 47 ∷ join (v ∷ ws)

split_cons : (s : Bytes) → (w : Bytes) × (ws : List Bytes) × (split s ≡ w ∷ ws)
unfolding split
split_cons [] = ([], [], refl)
split_cons (c ∷ cs) =
    let (w, ws, e) = split_cons cs in
    elim (Bool-cases (c == 47)) [ inl h ↦ ([], w ∷ ws, rw (h, e)) | inr h ↦ (c ∷ w, ws, rw (h, e)) ]

join-onto_first : (c : ℕ) (w : Bytes) (ws : List Bytes) → join ((c ∷ w) ∷ ws) ≡ c ∷ join (w ∷ ws)
join-onto_first c w [] = refl
join-onto_first c w (v ∷ ws) = refl

pub join-split : (s : Bytes) → join (split s) ≡ s
unfolding split
join-split [] = refl
join-split (c ∷ cs) =
    let (w, ws, e) = split_cons cs in
    let same = ap join (sym e) ∙ join-split cs in
    elim (Bool-cases (c == 47)) [
      | inl h ↦
          let slash : c ≡ 47 = ground arith in
          rw (h, e) (ap (◌∷◌ 47) same ∙ ap (λ x. x ∷ cs) (sym slash))
      | inr h ↦ rw (h, e) (join-onto_first c w ws ∙ ap (◌∷◌ c) same)
    ]

split-injective : (s t : Bytes) → split s ≡ split t → s ≡ t
split-injective s t h = sym (join-split s) ∙ ap join h ∙ join-split t

split-append : (s t : Bytes) → split (s ++ 47 ∷ t) ≡ split s ++ split t
unfolding split
split-append [] t = refl
split-append (c ∷ cs) t =
    let (w, ws, e) = split_cons cs in
    let parts : split (cs ++ 47 ∷ t) ≡ w ∷ (ws ++ split t) =
      split-append cs t ∙ ap (λ x. x ++ split t) e in
    elim (Bool-cases (c == 47)) [ inl h ↦ rw (h, parts, e) | inr h ↦ rw (h, parts, e) ]

-- A part that is no wildcard.
abbrev pub IsLiteral : List Bytes → Type 0
IsLiteral = All (λ p. (bytes_eq p (codes "#") ≡ false) × (bytes_eq p (codes "+") ≡ false))

match-literal : (ps ts : List Bytes) → IsLiteral ps → (match_parts ps ts ≡ true) ↔ (ps ≡ ts)
unfolding match_parts
match-literal [] [] h = (λ e. refl, λ e. refl)
match-literal [] (t ∷ ts) h = (λ e. ground arith, λ e. ground arith)
match-literal (p ∷ ps) [] h = (λ e. ground arith, λ e. ground arith)
match-literal (p ∷ ps) (t ∷ ts) h =
    let (to, from) = match-literal ps ts h.1 in
    let (eq, back) = bytes_eq_iff p t in (λ e. ground arith, λ e. ground arith)

-- A pattern without wildcards matches one topic, itself.
pub match_literal :
    (pattern topic : Bytes)
    → IsLiteral (split pattern)
    → (match_mqtt_topic pattern topic ≡ true) ↔ (pattern ≡ topic)
unfolding match_mqtt_topic
match_literal pattern topic h =
    let (to, from) = match-literal (split pattern) (split topic) h in
    (λ e. split-injective pattern topic (to e), λ e. from (ap split e))

-- The parts of a topic below others.
match-hash :
    (ps ts : List Bytes)
    → IsLiteral ps
    → (match_parts (ps ++ codes "#" ∷ []) ts ≡ true) ↔ ((r : List Bytes) × (ts ≡ ps ++ r))
unfolding match_parts bytes_eq
match-hash [] [] h = (λ e. ([], refl), λ x. refl)
match-hash [] (t ∷ ts) h = (λ e. (t ∷ ts, refl), λ x. refl)
match-hash (p ∷ ps) [] h = (λ e. absurd (ground arith), λ x. absurd (let no = x.1 in ground arith))
match-hash (p ∷ ps) (t ∷ ts) h =
    let (to, from) = match-hash ps ts h.1 in
    let (eq, back) = bytes_eq_iff p t in
    elim (Bool-cases (bytes_eq p t)) [
      | inl same ↦
          rw (h.0.0, match_parts, h.0.1, same)
            (
              λ e. let (r, f) = to e in (r, ap (λ x. x ∷ ts) (sym (eq same)) ∙ ap (◌∷◌ p) f),
              λ x. from (x.0, (let whole = x.1 in cc)),
            )
      | inr other ↦
          rw (h.0.0, match_parts, h.0.1, other)
            (
              λ e. absurd (ground arith),
              λ x. absurd (
                  let whole = x.1 in
                  let first : p ≡ t = cc in let yes = back first in ground arith),
            )
    ]

join-append :
    (ps rs : List Bytes) (p r : Bytes)
    → join ((p ∷ ps) ++ (r ∷ rs)) ≡ join (p ∷ ps) ++ 47 ∷ join (r ∷ rs)
join-append [] rs p r = refl
join-append (q ∷ ps) rs p r =
    ap (λ x. p ++ 47 ∷ x) (join-append ps rs q r)
    ∙ sym (append_assoc p (47 ∷ join (q ∷ ps)) (47 ∷ join (r ∷ rs)))

-- A topic without wildcards, followed by "/#", matches the topic itself and the topics below it, and
-- no others.
pub match_subtree :
    (pattern topic : Bytes)
    → IsLiteral (split pattern)
    → (match_mqtt_topic (pattern ++ codes "/#") topic ≡ true)
      ↔ ((topic ≡ pattern) ⊎ ((rest : Bytes) × (topic ≡ pattern ++ 47 ∷ rest)))
unfolding match_mqtt_topic
match_subtree pattern topic h =
    let (to, from) = match-hash (split pattern) (split topic) h in
    let hash : split (pattern ++ codes "/#") ≡ split pattern ++ codes "#" ∷ [] =
      split-append pattern (codes "#") in
    (
      λ e.
          let (r, f) = to (sym (ap (λ x. match_parts x (split topic)) hash) ∙ e) in
          below pattern topic r f,
      λ x. ap (λ y. match_parts y (split topic)) hash ∙ from (above pattern topic x),
    )
  where
    below :
        (s t : Bytes) (r : List Bytes)
        → split t ≡ split s ++ r
        → (t ≡ s) ⊎ ((rest : Bytes) × (t ≡ s ++ 47 ∷ rest))
    below s t [] f = inl (split-injective t s (f ∙ append-nil (split s)))
    below s t (r ∷ rs) f =
        let (w, ws, e) = split_cons s in
        inr (
          join (r ∷ rs),
          sym (join-split t)
              ∙ ap join f
              ∙ ap (λ x. join (x ++ r ∷ rs)) e
              ∙ join-append ws rs w r
              ∙ ap (λ x. join x ++ 47 ∷ join (r ∷ rs)) (sym e)
              ∙ ap (λ x. x ++ 47 ∷ join (r ∷ rs)) (join-split s),
        )

    above :
        (s t : Bytes)
        → ((t ≡ s) ⊎ ((rest : Bytes) × (t ≡ s ++ 47 ∷ rest)))
        → (r : List Bytes) × (split t ≡ split s ++ r)
    above s t (inl e) = ([], ap split e ∙ sym (append-nil (split s)))
    above s t (inr (rest, e)) = (split rest, ap split e ∙ split-append s rest)
