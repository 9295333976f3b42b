-- ===== src/Lan/Runtime/Uplink.antt =====
-- lan.go: recordRecentUplink, which recognises a message that a device sends again.
use go_mihome.Common.{
  ℕ, ◌+◌, ◌*◌, ◌≤◌, ◌<◌, ◌≡◌, refl, sym, ap, ◌∙◌, [], ◌∷◌, ◌++◌, Option, none, some, Bool, true,
  false, ◌==◌, ltb, if◌then◌else◌, arith, All, subst, ◌≢◌,
}
use go_mihome.Common.Bytes.{Bytes, bytes_eq_iff}
use go_mihome.Common.Decimal.{format_uint, parse_uint}
use go_mihome.Common.Decimal.RoundTrip.{IsDigit, format_uint-IsDigit, parse_uint-format_uint}
use go_mihome.Common.Dict.{Dict, lookup, insert, lookup-insert_self}
use go_mihome.Lan.Runtime.Config.{second}

pub uplink_key : Bytes → ℕ → Bytes
uplink_key did msg_id = did ++ (46 ∷ format_uint msg_id)

-- The loop that deletes the entries that are not after now.
purge : ℕ → Dict ℕ → Dict ℕ
purge now [] = []
purge now ((k, expiry) ∷ m) =
    let rest = purge now m in if ltb now expiry then (k, expiry) ∷ rest else rest

-- An entry that is left is after now, which is all that the second test of the expiry asks.
note_uplink : Bytes → ℕ → Dict ℕ → Option ℕ → Dict ℕ × Bool
note_uplink key now m none = (insert key (now + 5 * second) m, false)
note_uplink key now m (some expiry) =
    if ltb now expiry then (m, true) else (insert key (now + 5 * second) m, false)

-- The table of the messages seen, and whether this one was among them. The identifier 0 is none.
unfoldable pub record_recent_uplink : Bytes → ℕ → ℕ → Dict ℕ → Dict ℕ × Bool
unfolding purge note_uplink uplink_key
record_recent_uplink did msg_id now m =
    if msg_id == 0
    then (m, false)
    else note_uplink (uplink_key did msg_id) now (purge now m)
        (lookup (uplink_key did msg_id) (purge now m))

lookup-purge :
    (k : Bytes) (now e : ℕ) (m : Dict ℕ)
    → lookup k m ≡ some e
    → now < e
    → lookup k (purge now m) ≡ some e
unfolding lookup purge
lookup-purge k now e [] h l = ground arith
lookup-purge k now e ((j, w) ∷ m) h l = ground (arith, bytes_eq_iff j k, lookup-purge k now e m)

note_first :
    (key : Bytes) (now : ℕ) (m : Dict ℕ) (o : Option ℕ)
    → (note_uplink key now m o).1 ≡ false
    → (note_uplink key now m o).0 ≡ insert key (now + 5 * second) m
unfolding note_uplink
note_first key now m none h = refl
note_first key now m (some e) h = ground arith

note_again :
    (key : Bytes) (now e : ℕ) (m : Dict ℕ) → now < e → (note_uplink key now m (some e)).1 ≡ true
unfolding note_uplink
note_again key now e m h = ground arith

record_of_id :
    (did : Bytes) (msg_id now : ℕ) (m : Dict ℕ)
    → msg_id ≢ 0
    → record_recent_uplink did msg_id now m
      ≡ note_uplink
          (uplink_key did msg_id)
          now
          (purge now m)
          (lookup (uplink_key did msg_id) (purge now m))
unfolding record_recent_uplink
record_of_id did msg_id now m h = ground arith

-- Of two copies of a message that come less than five seconds apart the second is recognised, if the
-- first one was new and the message has an identifier other than 0.
pub uplink_repeated :
    (did : Bytes) (msg_id now later : ℕ) (m : Dict ℕ)
    → msg_id ≢ 0
    → (record_recent_uplink did msg_id now m).1 ≡ false
    → later < now + 5 * second
    → (record_recent_uplink did msg_id later (record_recent_uplink did msg_id now m).0).1 ≡ true
uplink_repeated did msg_id now later m id first soon =
    let key = uplink_key did msg_id in
    let table = insert key (now + 5 * second) (purge now m) in
    let written : (record_recent_uplink did msg_id now m).0 ≡ table =
      ap (λ p. p.0) (record_of_id did msg_id now m id)
      ∙ note_first key now (purge now m) (lookup key (purge now m))
          (sym (ap (λ p. p.1) (record_of_id did msg_id now m id)) ∙ first) in
    let found : lookup key (purge later table) ≡ some (now + 5 * second) =
      lookup-purge key later (now + 5 * second) table
        (lookup-insert_self key (now + 5 * second) (purge now m)) soon in
    rw (written) (
      ap (λ p. p.1) (record_of_id did msg_id later table id)
      ∙ ap (λ o. (note_uplink key later (purge later table) o).1) found
      ∙ note_again key later (now + 5 * second) (purge later table) soon)

-- Every entry of the table was written at the time t at the latest.
abbrev pub WrittenBy : ℕ → Dict ℕ → Type 0
WrittenBy t = All (λ p. p.1 ≤ t + 5 * second)

purge_all : (now t : ℕ) (m : Dict ℕ) → WrittenBy t m → t + 5 * second ≤ now → purge now m ≡ []
unfolding purge
purge_all now t [] h l = refl
purge_all now t ((k, e) ∷ m) h l = ground (arith, purge_all now t m h.1 l)

-- Five seconds after the last message everything is forgotten: a message is new again, and the table
-- holds it alone.
pub uplink_forgotten :
    (did : Bytes) (msg_id t now : ℕ) (m : Dict ℕ)
    → msg_id ≢ 0
    → WrittenBy t m
    → t + 5 * second ≤ now
    → record_recent_uplink did msg_id now m
      ≡ ((uplink_key did msg_id, now + 5 * second) ∷ [], false)
uplink_forgotten did msg_id t now m id h l =
    record_of_id did msg_id now m id
    ∙ rw (purge_all now t m h l) (unfold note_uplink lookup insert in refl)

digits_end : (xs ds es : Bytes) → All IsDigit ds → ds ≡ xs ++ (46 ∷ es) → ⊥
digits_end [] ds es h e = let point = (subst (All IsDigit) e h).0 in omega arith
digits_end (x ∷ xs) ds es h e = digits_end xs (xs ++ (46 ∷ es)) es (subst (All IsDigit) e h).1 refl

dotted_injective :
    (xs ys ds es : Bytes)
    → All IsDigit ds
    → All IsDigit es
    → xs ++ (46 ∷ ds) ≡ ys ++ (46 ∷ es)
    → (xs ≡ ys) × (ds ≡ es)
dotted_injective [] [] ds es hd he e = (refl, cc)
dotted_injective [] (y ∷ ys) ds es hd he e = absurd (digits_end ys ds es hd (cc))
dotted_injective (x ∷ xs) [] ds es hd he e = absurd (digits_end xs es ds he (cc))
dotted_injective (x ∷ xs) (y ∷ ys) ds es hd he e =
    let (p, q) = dotted_injective xs ys ds es hd he (cc) in (cc, q)

-- The keys of two messages are equal only if the devices and the identifiers are, whatever characters
-- the devices' names hold.
pub uplink_key_injective :
    (d e : Bytes) (a b : ℕ)
    → a < 4294967296
    → b < 4294967296
    → uplink_key d a ≡ uplink_key e b
    → (d ≡ e) × (a ≡ b)
unfolding uplink_key
uplink_key_injective d e a b ha hb h =
    let (same, texts) =
      dotted_injective d e (format_uint a) (format_uint b) (format_uint-IsDigit a)
        (format_uint-IsDigit b) h in
    (
      same,
      (let read : some a ≡ some b =
            sym (parse_uint-format_uint a (omega arith))
            ∙ ap parse_uint texts
            ∙ parse_uint-format_uint b (omega arith) in
          cc),
    )
