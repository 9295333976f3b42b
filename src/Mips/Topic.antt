-- ===== src/Mips/Topic.antt =====
-- common.go: the match of an MQTT topic with a pattern.
pub mod Literal
use go_mihome.Common.{ℕ, List, [], ◌∷◌, Bool, true, false, ◌==◌, if◌then◌else◌}
use go_mihome.Common.Bytes.{Bytes, codes, bytes_eq}

-- `strings.Split(text, "/")`; 47 is the slash.
abbrev pub onto_first : ℕ → List Bytes → List Bytes
onto_first c [] = (c ∷ []) ∷ []
onto_first c (w ∷ ws) = (c ∷ w) ∷ ws

unfoldable pub split : Bytes → List Bytes
split [] = [] ∷ []
split (c ∷ cs) = let rest = split cs in if c == 47 then [] ∷ rest else onto_first c rest

-- The loop over the parts of the pattern.
unfoldable pub match_parts : List Bytes → List Bytes → Bool
match_parts [] [] = true
match_parts [] (t ∷ ts) = false
match_parts (p ∷ ps) [] = bytes_eq p (codes "#")
match_parts (p ∷ ps) (t ∷ ts) =
    let rest = match_parts ps ts in
    if bytes_eq p (codes "#")
    then true
    else if bytes_eq p (codes "+")
    then rest
    else if bytes_eq p t
    then rest
    else false

unfoldable pub match_mqtt_topic : Bytes → Bytes → Bool
unfolding split match_parts
match_mqtt_topic pattern topic = match_parts (split pattern) (split topic)
