-- ===== src/Mqtt/Conn/Covered.antt =====
-- mqtt.go: lists of topics and the topics that have handlers.
use go_mihome.Common.{
  ℕ, ◌≡◌, refl, sym, ap, ◌∙◌, List, [], ◌∷◌, Bool, true, false, ◌||◌, arith, if◌then◌else◌,
  Bool-cases, inl, inr,
}
use go_mihome.Common.Bytes.{Bytes, bytes_eq, bytes_eq_iff}
use go_mihome.Common.Dict.{Dict, lookup, insert, delete, lookup-insert, lookup-delete}
use go_mihome.Mqtt.Conn.{topics, drop_topic, has_handlers}

abbrev pub member : Bytes → List Bytes → Bool
member topic [] = false
member topic (t ∷ ts) = bytes_eq t topic || member topic ts

-- The topic has handlers.
abbrev pub handled : Bytes → Dict (List ℕ) → Bool
handled topic subs = has_handlers (lookup topic subs)

pub member-topics : (k : Bytes) (m : Dict (List ℕ)) → member k (topics m) ≡ handled k m
unfolding lookup
member-topics k [] = refl
member-topics k ((t, ids) ∷ m) = elim (Bool-cases (bytes_eq t k)) [
  | inl e ↦ rw (e, lookup)
  | inr e ↦ rw (e, lookup) (member-topics k m)
]

pub member-drop :
    (topic k : Bytes) (ts : List Bytes)
    → member k (drop_topic topic ts) ≡ (if bytes_eq topic k then false else member k ts)
unfolding drop_topic
member-drop topic k [] = ground arith
member-drop topic k (t ∷ ts) =
    ground
      (arith, bytes_eq_iff t topic, bytes_eq_iff topic k, bytes_eq_iff t k, member-drop topic k ts)

pub handled-insert :
    (topic k : Bytes) (ids : List ℕ) (m : Dict (List ℕ))
    → handled k (insert topic ids m) ≡ (if bytes_eq topic k then true else handled k m)
handled-insert topic k ids m =
    ap has_handlers (lookup-insert topic k ids m)
    ∙ elim (Bool-cases (bytes_eq topic k)) [ inl e ↦ rw e | inr e ↦ rw e ]

pub handled-delete :
    (topic k : Bytes) (m : Dict (List ℕ))
    → handled k (delete topic m) ≡ (if bytes_eq topic k then false else handled k m)
handled-delete topic k m =
    ap has_handlers (lookup-delete topic k m)
    ∙ elim (Bool-cases (bytes_eq topic k)) [ inl e ↦ rw e | inr e ↦ rw e ]

-- A list of topics that are those with handlers.
abbrev pub Covers : List Bytes → Dict (List ℕ) → Type 0
Covers ts subs = (k : Bytes) → member k ts ≡ handled k subs

pub Covers-add :
    (topic : Bytes) (ids : List ℕ) (ts : List Bytes) (subs : Dict (List ℕ))
    → Covers ts subs
    → Covers (topic ∷ ts) (insert topic ids subs)
Covers-add topic ids ts subs h k = elim (Bool-cases (bytes_eq topic k)) [
  | inl e ↦ rw e (sym (handled-insert topic k ids subs ∙ rw e))
  | inr e ↦ rw e (h k ∙ sym (handled-insert topic k ids subs ∙ rw e))
]

pub Covers-set :
    (topic : Bytes) (ids : List ℕ) (ts : List Bytes) (subs : Dict (List ℕ))
    → handled topic subs ≡ true
    → Covers ts subs
    → Covers ts (insert topic ids subs)
Covers-set topic ids ts subs old h k = elim (Bool-cases (bytes_eq topic k)) [
  | inl e ↦
      h k
      ∙ ap (λ x. handled x subs) (sym ((bytes_eq_iff topic k).0 e))
      ∙ old
      ∙ sym (handled-insert topic k ids subs ∙ rw e)
  | inr e ↦ h k ∙ sym (handled-insert topic k ids subs ∙ rw e)
]

pub Covers-drop :
    (topic : Bytes) (ts : List Bytes) (subs : Dict (List ℕ))
    → Covers ts subs
    → Covers (drop_topic topic ts) (delete topic subs)
Covers-drop topic ts subs h k = member-drop topic k ts ∙ elim (Bool-cases (bytes_eq topic k)) [
  | inl e ↦ rw e (sym (handled-delete topic k subs ∙ rw e))
  | inr e ↦ rw e (h k ∙ sym (handled-delete topic k subs ∙ rw e))
]
