-- ===== src/Common/Hex.antt =====
-- encoding/hex: the decoder that the device tokens and the keys go through.
use go_mihome.Common.{ℕ, ◌+◌, ◌-◌, ◌*◌, [], ◌∷◌, Option, none, some, ◌&&◌, leb, if◌then◌else◌}
use go_mihome.Common.Bytes.{Bytes}

hex_value : ℕ → Option ℕ
hex_value c =
    if leb 48 c && leb c 57
    then some (c - 48)
    else if leb 97 c && leb c 102
    then some (c - 87)
    else if leb 65 c && leb c 70
    then some (c - 55)
    else none

hex_pair : Option ℕ → Option ℕ → Option Bytes → Option Bytes
hex_pair (some h) (some l) (some r) = some ((h * 16 + l) ∷ r)
hex_pair _ _ _ = none

-- `none` on a character that is no hexadecimal digit, and on an odd number of them.
unfoldable pub hex_decode : Bytes → Option Bytes
unfolding hex_value hex_pair
hex_decode [] = some []
hex_decode (x ∷ []) = none
hex_decode (x ∷ y ∷ r) = hex_pair (hex_value x) (hex_value y) (hex_decode r)
