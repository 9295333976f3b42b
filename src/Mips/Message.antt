-- ===== src/Mips/Message.antt =====
-- mips_types.go: the envelope of a MIPS message and its field framing. A text is its bytes. The writes
-- to a bytes.Buffer cannot fail, so Pack returns the bytes alone.
pub mod Fields
pub mod Framing
use go_mihome.Common.{
  ℕ, zero, suc, ◌+◌, ◌-◌, ◌%◌, ◌^◌, Bool, true, false, List, [], ◌∷◌, ◌++◌, Option, none, some,
  ◌==◌, ltb, if◌then◌else◌, length, get_or, take, drop, not,
}
use go_mihome.Common.Result.{ok, err, fault, invalid_response, Result, fail_if, ◌>>=◌, ◌>>◌}
use go_mihome.Common.Bytes.{Bytes, le32, read_le32}

pub record Message : Type 0 where
  pub id : ℕ
  pub from : Bytes
  pub reply_topic : Bytes
  pub payload : Bytes

pub data FieldType : Type 0 where
  id_field reply_topic_field payload_field from_field : FieldType

pub byte_of : FieldType → ℕ
byte_of id_field = 0
byte_of reply_topic_field = 1
byte_of payload_field = 2
byte_of from_field = 3

-- The field behind what the buffer holds: its length, its type and its bytes.
unfoldable pub write_field : Bytes → FieldType → Bytes → Bool → Bytes
unfolding byte_of le32
write_field buf t d nul =
    let field = if nul then d ++ 0 ∷ [] else d in
    buf ++ (le32 (length field % 4294967296) ++ (byte_of t ∷ field))

abbrev pub is_empty : Bytes → Bool
is_empty [] = true
is_empty (x ∷ xs) = false

unfoldable pub pack : Message → Bytes
pack m =
    let buf = write_field [] id_field (le32 (m.id % 4294967296)) false in
    let buf = if not (is_empty m.from) then write_field buf from_field m.from true else buf in
    let buf =
      if not (is_empty m.reply_topic)
      then write_field buf reply_topic_field m.reply_topic true
      else buf in
    write_field buf payload_field m.payload true

-- `bytes.TrimRight(data, "\x00")`.
abbrev pub trim_cons : ℕ → Bytes → Bytes
trim_cons b [] = if b == 0 then [] else b ∷ []
trim_cons b (x ∷ xs) = b ∷ x ∷ xs

unfoldable pub trim : Bytes → Bytes
trim [] = []
trim (b ∷ bs) = trim_cons b (trim bs)

abbrev pub no_message : Message
no_message = record { id = 0; from = []; reply_topic = []; payload = [] }

-- The `switch` on the type of one field; a type that it does not name changes nothing.
pub store_field : ℕ → Bytes → Message → Result Message
unfolding trim read_le32
store_field t d msg =
    if t == 0
    then (if length d == 4
        then ok (record msg { id = read_le32 d })
        else err (fault invalid_response "unpack mips message" "invalid id field"))
    else if t == 1
    then ok (record msg { reply_topic = trim d })
    else if t == 2
    then ok (record msg { payload = trim d })
    else if t == 3
    then ok (record msg { from = trim d })
    else ok msg

-- One round of the loop, on the bytes from `offset` on: the bytes behind the field, and the message.
pub read_field : Bytes → Message → Result (Bytes × Message)
unfolding read_le32 store_field
read_field p msg =
    let size = read_le32 p in
    let body = drop 5 p in
    do
      fail_if (ltb (length p) 5)
          (fault invalid_response "unpack mips message" "truncated field header")
      fail_if (ltb (length body) size)
          (fault invalid_response "unpack mips message" "truncated field payload")
      next ← store_field (get_or p 4 0) (take size body) msg
      ok (drop size body, next)

-- The loop; `none` means that the fuel ran out.
pub unpack_fields : ℕ → Bytes → Message → Option (Result Message)
unfolding read_field
unpack_fields zero rest msg = none
unpack_fields (suc f) [] msg = some (ok msg)
unpack_fields (suc f) (b ∷ bs) msg = elim (read_field (b ∷ bs) msg) [
  | ok (rest, next) ↦ unpack_fields f rest next
  | err e ↦ some (err e)
]

-- A field takes five bytes at least, so one round for each byte is enough.
unfoldable pub unpack : Bytes → Option (Result Message)
unfolding unpack_fields
unpack d = unpack_fields (suc (length d)) d no_message
