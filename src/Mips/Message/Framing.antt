-- ===== src/Mips/Message/Framing.antt =====
-- mips_types.go: packing and unpacking a whole message.
use go_mihome.Common.{
  ℕ, suc, ◌+◌, ◌<◌, ◌≡◌, refl, sym, ap, ◌∙◌, [], ◌∷◌, ◌++◌, append_assoc, append-nil, Option, some,
  arith, length, length-append, lt→ltb,
}
use go_mihome.Common.Result.{Fault, ok, err, fault, invalid_response, Result}
use go_mihome.Common.Bytes.{Bytes, le32, read_le32-le32}
use go_mihome.Mips.Message.{
  Message, reply_topic_field, from_field, byte_of, pack, trim, no_message, store_field,
  unpack_fields, unpack, read_field,
}
use go_mihome.Mips.Message.Fields.{
  trim-append_zero, field_bytes, read_field-shorter, read_field_lem, trimmed, IsPackable,
  optional_field, pack_lem, unpack_fields_fuel,
}

-- The loop with the fuel that its input needs.
finish : Bytes → Message → Option (Result Message)
finish p msg = unpack_fields (suc (length p)) p msg

finish-ok :
    (p : Bytes) (msg : Message) (rest : Bytes) (next : Message)
    → 0 < length p
    → read_field p msg ≡ ok (rest, next)
    → finish p msg ≡ finish rest next
unfolding finish unpack_fields
finish-ok [] msg rest next n e = absurd (omega arith)
finish-ok (b ∷ bs) msg rest next n e =
    let shorter = read_field-shorter (b ∷ bs) msg e in
    rw (e, unpack_fields)
      (unpack_fields_fuel (suc (length bs)) (suc (length rest)) rest next (omega arith)
        (omega arith))

finish-nil : (msg : Message) → finish [] msg ≡ some (ok msg)
unfolding finish unpack_fields
finish-nil msg = refl

read_field_short :
    (p : Bytes) (msg : Message)
    → length p < 5
    → read_field p msg ≡ err (fault invalid_response "unpack mips message" "truncated field header")
unfolding read_field
read_field_short p msg h = rw (lt→ltb (length p) 5 h)

finish-err :
    (p : Bytes) (msg : Message) (e : Fault)
    → 0 < length p
    → read_field p msg ≡ err e
    → finish p msg ≡ some (err e)
unfolding finish unpack_fields
finish-err [] msg e n h = absurd (omega arith)
finish-err (b ∷ bs) msg e n h = rw (h, unpack_fields)

finish-field :
    (t : ℕ) (d rest : Bytes) (msg next : Message)
    → length d < 4294967296
    → store_field t d msg ≡ ok next
    → finish (field_bytes t d ++ rest) msg ≡ finish rest next
finish-field t d rest msg next h e =
    finish-ok (field_bytes t d ++ rest) msg rest next (unfold le32 in omega arith)
      (read_field_lem t d rest msg next h e)

-- A text field that may be left out, read while the message has no such text yet.
finish-from :
    (d rest : Bytes) (msg : Message)
    → length d + 1 < 4294967296
    → msg.from ≡ []
    → finish (optional_field from_field d ++ rest) msg ≡ finish rest (record msg { from = trim d })
unfolding trim byte_of
finish-from [] rest msg h e = ap (finish rest) (cc)
finish-from (x ∷ xs) rest msg h e =
    finish-field 3 ((x ∷ xs) ++ 0 ∷ []) rest msg (record msg { from = trim (x ∷ xs) })
      (omega (arith, length-append xs (0 ∷ [])))
      (unfold store_field in ap (λ k. ok (record msg { from = k })) (trim-append_zero (x ∷ xs)))

finish-reply_topic :
    (d rest : Bytes) (msg : Message)
    → length d + 1 < 4294967296
    → msg.reply_topic ≡ []
    → finish (optional_field reply_topic_field d ++ rest) msg
      ≡ finish rest (record msg { reply_topic = trim d })
unfolding trim byte_of
finish-reply_topic [] rest msg h e = ap (finish rest) (cc)
finish-reply_topic (x ∷ xs) rest msg h e =
    finish-field 1 ((x ∷ xs) ++ 0 ∷ []) rest msg (record msg { reply_topic = trim (x ∷ xs) })
      (omega (arith, length-append xs (0 ∷ [])))
      (unfold store_field in
        ap (λ k. ok (record msg { reply_topic = k })) (trim-append_zero (x ∷ xs)))

store_id :
    (n : ℕ) (msg : Message)
    → n < 4294967296
    → (length (le32 n) < 4294967296) × (store_field 0 (le32 n) msg ≡ ok (record msg { id = n }))
unfolding store_field le32
store_id n msg h =
    (omega arith, ap (λ k. ok (record msg { id = k })) (unfold le32 in read_le32-le32 n [] h))

finish-payload :
    (d rest : Bytes) (msg : Message)
    → length d + 1 < 4294967296
    → finish (field_bytes 2 (d ++ 0 ∷ []) ++ rest) msg
      ≡ finish rest (record msg { payload = trim d })
finish-payload d rest msg h =
    finish-field 2 (d ++ 0 ∷ []) rest msg (record msg { payload = trim d })
      (omega (arith, length-append d (0 ∷ [])))
      (unfold store_field in ap (λ k. ok (record msg { payload = k })) (trim-append_zero d))

regroup : (a b c d e : Bytes) → (a ++ (b ++ (c ++ d))) ++ e ≡ a ++ (b ++ (c ++ (d ++ e)))
regroup a b c d e = simp append_assoc

unpack-finish : (p : Bytes) → unpack p ≡ finish p no_message
unfolding unpack finish
unpack-finish p = refl

finish-pack :
    (m : Message) (junk : Bytes)
    → IsPackable m
    → finish (pack m ++ junk) no_message ≡ finish junk (trimmed m)
unfolding trimmed
finish-pack m junk p =
    let (fits, stored) = store_id m.id no_message p.id_fits in
    rw (pack_lem m p) (
      ap (λ k. finish k no_message)
        (regroup (field_bytes 0 (le32 m.id)) (optional_field from_field m.from)
          (optional_field reply_topic_field m.reply_topic) (field_bytes 2 (m.payload ++ 0 ∷ []))
          junk)
      ∙ finish-field 0 (le32 m.id) _ no_message _ fits stored
      ∙ finish-from m.from _ _ p.from_fits refl
      ∙ finish-reply_topic m.reply_topic _ _ p.reply_topic_fits refl
      ∙ finish-payload m.payload junk _ p.payload_fits)

-- A packed message is unpacked to the message itself, but for the NUL bytes at the end of its three
-- text fields, which are lost. The identifier has to fit 32 bits, and each text with its NUL the 32-bit
-- length.
pub unpack-pack : (m : Message) → IsPackable m → unpack (pack m) ≡ some (ok (trimmed m))
unpack-pack m p =
    ap unpack (sym (append-nil (pack m)))
    ∙ unpack-finish (pack m ++ [])
    ∙ finish-pack m [] p
    ∙ finish-nil (trimmed m)

-- One to four bytes behind a packed message are refused as a truncated field header.
pub unpack-append_junk :
    (m : Message) (junk : Bytes)
    → IsPackable m
    → 0 < length junk
    → length junk < 5
    → unpack (pack m ++ junk)
      ≡ some (err (fault invalid_response "unpack mips message" "truncated field header"))
unpack-append_junk m junk p n h =
    unpack-finish (pack m ++ junk)
    ∙ finish-pack m junk p
    ∙ finish-err junk (trimmed m) _ n (read_field_short junk (trimmed m) h)
