-- ===== src/Mips/Message/Fields.antt =====
-- mips_types.go: the fields of a packed message, and the loop over them.
use native.Mathlib.Nat.{mod-eq_of_lt}
use go_mihome.Common.{
  ℕ, zero, suc, ◌+◌, ◌%◌, ◌<◌, ◌≡◌, refl, sym, ap, true, false, not, [], ◌∷◌, ◌++◌, append_assoc,
  append-nil, some, arith, if◌then◌else◌, length, drop, length-append, take-length, drop-length,
  inl, inr, ltb-false, length-drop,
}
use go_mihome.Common.Result.{ok, err, Result, Result-cases}
use go_mihome.Common.Bytes.{Bytes, le32, read_le32, read_le32-le32}
use go_mihome.Mips.Message.{
  Message, FieldType, id_field, reply_topic_field, payload_field, from_field, byte_of, write_field,
  is_empty, pack, trim, trim_cons, no_message, store_field, unpack_fields, unpack, read_field,
}

pub trim-append_zero : (d : Bytes) → trim (d ++ 0 ∷ []) ≡ trim d
unfolding trim
trim-append_zero [] = refl
trim-append_zero (b ∷ bs) = ap (trim_cons b) (trim-append_zero bs)

-- The bytes of one field.
abbrev pub field_bytes : ℕ → Bytes → Bytes
field_bytes t d = le32 (length d) ++ (t ∷ d)

pub read_field-shorter :
    (p : Bytes) (msg : Message) {rest : Bytes} {next : Message}
    → read_field p msg ≡ ok (rest, next)
    → length rest < length p
unfolding read_field
read_field-shorter p msg h = ground (arith, length-drop (read_le32 p) (drop 5 p), length-drop 5 p)

-- A whole field at the front is read.
pub read_field_lem :
    (t : ℕ) (d rest : Bytes) (msg next : Message)
    → length d < 4294967296
    → store_field t d msg ≡ ok next
    → read_field (field_bytes t d ++ rest) msg ≡ ok (rest, next)
unfolding read_field le32
read_field_lem t d rest msg next h e = rw (
  ltb-false (length (field_bytes t d ++ rest)) 5 (omega arith),
  read_le32-le32 (length d) (t ∷ (d ++ rest)) h,
  ltb-false (length (d ++ rest)) (length d) (omega (arith, length-append d rest)),
  take-length d rest,
  e,
  drop-length d rest,
)

-- Trimming as a whole: what a reader gets of a message.
unfoldable pub trimmed : Message → Message
trimmed m = record m {
  from = trim m.from;
  reply_topic = trim m.reply_topic;
  payload = trim m.payload;
}

-- A message that the framing can carry: the identifier and the lengths fit their four bytes.
pub record IsPackable (m : Message) : Type 0 where
  pub id_fits : m.id < 4294967296
  pub from_fits : length m.from + 1 < 4294967296
  pub reply_topic_fits : length m.reply_topic + 1 < 4294967296
  pub payload_fits : length m.payload + 1 < 4294967296

pub write_field-nul :
    (buf : Bytes) (t : FieldType) (d : Bytes)
    → length d + 1 < 4294967296
    → write_field buf t d true ≡ buf ++ field_bytes (byte_of t) (d ++ 0 ∷ [])
unfolding write_field
write_field-nul buf t d h =
    ap (λ k. buf ++ (le32 k ++ (byte_of t ∷ (d ++ 0 ∷ []))))
      (omega (arith, length-append d (0 ∷ [])))

-- The bytes of a text field that Pack leaves out if the text is empty.
abbrev pub optional_field : FieldType → Bytes → Bytes
optional_field t [] = []
optional_field t (x ∷ xs) = field_bytes (byte_of t) ((x ∷ xs) ++ 0 ∷ [])

pub write_optional :
    (buf : Bytes) (t : FieldType) (d : Bytes)
    → length d + 1 < 4294967296
    → (if not (is_empty d) then write_field buf t d true else buf) ≡ buf ++ optional_field t d
write_optional buf t [] h = sym (append-nil buf)
write_optional buf t (x ∷ xs) h = write_field-nul buf t (x ∷ xs) h

pub write_id :
    (n : ℕ)
    → n < 4294967296
    → write_field [] id_field (le32 (n % 4294967296)) false ≡ field_bytes 0 (le32 n)
unfolding write_field le32
write_id n h = rw (mod-eq_of_lt h)

-- Pack writes the four fields in this order.
pub pack_lem :
    (m : Message)
    → IsPackable m
    → pack m
      ≡ field_bytes 0 (le32 m.id)
        ++ (optional_field from_field m.from
            ++ (optional_field reply_topic_field m.reply_topic
                ++ field_bytes 2 (m.payload ++ 0 ∷ [])))
unfolding pack le32 byte_of
pack_lem m p =
    rw
      (
        write_id m.id p.id_fits,
        write_optional (field_bytes 0 (le32 m.id)) from_field m.from p.from_fits,
        write_optional (field_bytes 0 (le32 m.id) ++ optional_field from_field m.from)
            reply_topic_field m.reply_topic p.reply_topic_fits,
        write_field-nul _ payload_field m.payload p.payload_fits,
      )
      (simp append_assoc)

-- With enough fuel the result does not depend on the fuel, and there is one.
pub unpack_fields_fuel :
    (f g : ℕ) (p : Bytes) (msg : Message)
    → length p < f
    → length p < g
    → unpack_fields f p msg ≡ unpack_fields g p msg
unfolding unpack_fields
unpack_fields_fuel zero g p msg hf hg = absurd (omega arith)
unpack_fields_fuel (suc f) zero p msg hf hg = absurd (omega arith)
unpack_fields_fuel (suc f) (suc g) [] msg hf hg = refl
unpack_fields_fuel (suc f) (suc g) (b ∷ bs) msg hf hg =
    elim (Result-cases (read_field (b ∷ bs) msg)) [
      | inl ((rest, next), e) ↦
          let shorter = read_field-shorter (b ∷ bs) msg e in
          rw (e, unpack_fields) (unpack_fields_fuel f g rest next (omega arith) (omega arith))
      | inr (_, e) ↦ rw (e, unpack_fields)
    ]

pub unpack_fields_total :
    (f : ℕ) (p : Bytes) (msg : Message)
    → length p < f
    → (r : Result Message) × (unpack_fields f p msg ≡ some r)
unfolding unpack_fields
unpack_fields_total zero p msg h = absurd (omega arith)
unpack_fields_total (suc f) [] msg h = (ok msg, refl)
unpack_fields_total (suc f) (b ∷ bs) msg h = elim (Result-cases (read_field (b ∷ bs) msg)) [
  | inl ((rest, next), e) ↦
      let shorter = read_field-shorter (b ∷ bs) msg e in
      rw (e, unpack_fields) (unpack_fields_total f rest next (omega arith))
  | inr (fail, e) ↦ (err fail, rw (e, unpack_fields))
]

-- Unpacking ends on every input: the fuel is enough.
pub unpack_total : (p : Bytes) → (r : Result Message) × (unpack p ≡ some r)
unfolding unpack
unpack_total p = unpack_fields_total (suc (length p)) p no_message (omega arith)
