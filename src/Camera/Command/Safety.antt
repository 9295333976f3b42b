-- ===== src/Camera/Command/Safety.antt =====
-- camera/native_cs2.go: when the worker's turn ends, and when it ends the program.
use go_mihome.Common.{
  ℕ, ◌+◌, ◌*◌, ◌≤◌, ◌<◌, ◌≡◌, ◌≢◌, ◌⊎◌, ◌↔◌, ◌∙◌, refl, sym, List, [], ◌∷◌, ◌++◌, Option, none,
  some, Bool, true, false, ◌==◌, ltb, if◌then◌else◌, length, get_or, take, drop, arith, All-take,
  All-drop, All-append, inl, inr, Bool-cases,
}
use go_mihome.Common.Result.{Fault, context, Result, ok, err}
use go_mihome.Common.Bytes.{Bytes, IsBytes}
use go_mihome.Camera.Channel.{DataChannel}
use go_mihome.Camera.Channel.Stream.{push_total}
use go_mihome.Camera.Channel.Sequence.{IsReady, push_seq_total}
use go_mihome.Camera.Command.{
  Connection, Effect, written, acked, Outcome, continued, stopped, panicked, control, media, unused,
  beyond, select_channel, fill, conclude, receive, acknowledge, keepalive, put, drw, dispatch, turn,
}

-- The message that ends the program: a DRW message for a channel number that the array does not have, or
-- for a channel that is open with fewer than eight bytes read.
abbrev pub Fatal : Bytes → ℕ → Type 0
Fatal b n =
    (get_or b 1 0 ≡ 208)
    × ((4 ≤ get_or b 5 0) ⊎ ((n < 8) × ((get_or b 5 0 ≡ 0) ⊎ (get_or b 5 0 ≡ 2))))

put-IsSafe :
    (r : Option (DataChannel × List Effect × Option Fault)) (place : DataChannel → Connection)
    (w : List Effect)
    → put r place w ≢ some panicked
put-IsSafe none place w h = ground arith
put-IsSafe (some (e, v, none)) place w h = ground arith
put-IsSafe (some (e, v, some x)) place w h = ground arith

receive_total :
    (tcp : Bool) (id hi lo : ℕ) (c : DataChannel) (d : Bytes)
    → IsReady c
    → IsBytes d
    → (r : DataChannel × List Effect × Option Fault) × (receive tcp id hi lo c d ≡ some r)
unfolding receive
receive_total true id hi lo c d h b =
    let (e, x, r) = push_total c d h.wired b in ((e, [], x), rw (r, receive))
receive_total false id hi lo c d h b =
    let (e, n, x, r) = push_seq_total c (hi * 256 + lo) d h b in
    ((e, acknowledge n id hi lo, x), rw (r, receive))

pub select_channel_cases :
    (id : ℕ)
    → ((select_channel id ≡ control) × (id ≡ 0))
      ⊎ (((select_channel id ≡ media) × (id ≡ 2))
          ⊎ (((select_channel id ≡ unused) × (id < 4) × (id ≢ 0) × (id ≢ 2))
              ⊎ ((select_channel id ≡ beyond) × (4 ≤ id))))
unfolding select_channel
select_channel_cases id = ground arith

abbrev OpenedFatal : Bytes → ℕ → Type 0
OpenedFatal b n = (4 ≤ get_or b 5 0) ⊎ ((n < 8) × ((get_or b 5 0 ≡ 0) ⊎ (get_or b 5 0 ≡ 2)))

drw_panics :
    (now : ℕ) (c : Connection) (n : ℕ) → (drw now c n ≡ some panicked) ↔ OpenedFatal c.buffer n
unfolding drw
drw_panics now c n =
    let id = get_or c.buffer 5 0 in
    let hi = get_or c.buffer 6 0 in
    let lo = get_or c.buffer 7 0 in
    let d = drop 8 (take n c.buffer) in
    let p = if c.is_tcp then keepalive now c else (c, []) in
    let calm =
      put-IsSafe (receive c.is_tcp id hi lo c.control d) (λ e. record p.0 { control = e }) p.1 in
    let calm2 =
      put-IsSafe (receive c.is_tcp id hi lo c.media d) (λ e. record p.0 { media = e }) p.1 in
    elim (select_channel_cases id) [
      | inl (e, z) ↦ elim (Bool-cases (ltb n 8)) [
        | inl l ↦ rw (e, drw, l) (λ x. inr (ground arith, inl z), λ x. refl)
        | inr l ↦ rw (e, drw, l) (λ x. absurd (calm x), λ x. absurd (ground arith))
      ]
      | inr (inl (e, z)) ↦ elim (Bool-cases (ltb n 8)) [
        | inl l ↦ rw (e, drw, l) (λ x. inr (ground arith, inr z), λ x. refl)
        | inr l ↦ rw (e, drw, l) (λ x. absurd (calm2 x), λ x. absurd (ground arith))
      ]
      | inr (inr (inl (e, z, _, _))) ↦
          rw (e, drw) (λ x. absurd (ground arith), λ x. absurd (ground arith))
      | inr (inr (inr (e, z))) ↦ rw (e, drw) (λ x. inl z, λ x. refl)
    ]

drw_total :
    (now : ℕ) (c : Connection) (n : ℕ)
    → IsReady c.control
    → IsReady c.media
    → IsBytes c.buffer
    → (o : Outcome) × (drw now c n ≡ some o)
unfolding drw
drw_total now c n h k b =
    let id = get_or c.buffer 5 0 in
    let hi = get_or c.buffer 6 0 in
    let lo = get_or c.buffer 7 0 in
    let d = drop 8 (take n c.buffer) in
    let p = if c.is_tcp then keepalive now c else (c, []) in
    let bytes =
      All-drop (λ x. x < 256) 8 (take n c.buffer) (All-take (λ x. x < 256) n c.buffer b) in
    elim (select_channel_cases id) [
      | inl (e, z) ↦ elim (Bool-cases (ltb n 8)) [
        | inl l ↦ rw (e, drw, l) (panicked, refl)
        | inr l ↦
            let (r, q) = receive_total c.is_tcp id hi lo c.control d h bytes in
            (conclude r.2 (record p.0 { control = r.0 }) (p.1 ++ r.1), rw (e, drw, l, q))
      ]
      | inr (inl (e, z)) ↦ elim (Bool-cases (ltb n 8)) [
        | inl l ↦ rw (e, drw, l) (panicked, refl)
        | inr l ↦
            let (r, q) = receive_total c.is_tcp id hi lo c.media d k bytes in
            (conclude r.2 (record p.0 { media = r.0 }) (p.1 ++ r.1), rw (e, drw, l, q))
      ]
      | inr (inr (inl (e, z, _, _))) ↦ rw (e, drw) (continued c [], refl)
      | inr (inr (inr (e, z))) ↦ rw (e, drw) (panicked, refl)
    ]

-- The other messages leave the connection as it is.
pub dispatch_other :
    (now : ℕ) (c : Connection) (n : ℕ)
    → (get_or c.buffer 1 0 == 208) ≡ false
    → (w : List Effect) × (dispatch now c n ≡ some (continued c w))
unfolding dispatch
dispatch_other now c n h = elim (Bool-cases (get_or c.buffer 1 0 == 224)) [
  | inl e ↦ (written (241 ∷ 225 ∷ 0 ∷ 0 ∷ []) ∷ [], rw (h, dispatch, e))
  | inr e ↦ elim (Bool-cases (get_or c.buffer 1 0 == 209)) [
    | inl f ↦ (if c.cmd_ack then acked ∷ [] else [], rw (h, dispatch, e, f))
    | inr f ↦ ([], rw (h, dispatch, e, f))
  ]
]

pub dispatch_data :
    (now : ℕ) (c : Connection) (n : ℕ)
    → (get_or c.buffer 1 0 == 208) ≡ true
    → dispatch now c n ≡ drw now c n
unfolding dispatch
dispatch_data now c n h = rw (h, dispatch)

-- A turn of the worker ends, on any bytes, from channels that are ready.
pub turn_ends :
    (now : ℕ) (c : Connection) (r : Result Bytes)
    → IsReady c.control
    → IsReady c.media
    → IsBytes c.buffer
    → ((d : Bytes) → r ≡ ok d → IsBytes d)
    → (o : Outcome) × (turn now c r ≡ some o)
unfolding turn fill
turn_ends now c (err e) h k b s = (stopped (record c { fault = some (context "cs2" e) }) [], refl)
turn_ends now c (ok d) h k b s =
    let filled = record c { buffer = fill d c.buffer } in
    let bytes =
      All-append (λ x. x < 256) d (drop (length d) c.buffer) (s d refl)
        (All-drop (λ x. x < 256) (length d) c.buffer b) in
    elim (Bool-cases (get_or filled.buffer 1 0 == 208)) [
      | inl e ↦
          let (o, r) = drw_total now filled (length d) h k bytes in
          (o, dispatch_data now filled (length d) e ∙ r)
      | inr e ↦ let (w, r) = dispatch_other now filled (length d) e in (continued filled w, r)
    ]

-- A turn ends the program exactly where it read a DRW message for a channel number from 4 on, or one of
-- fewer than eight bytes for channel 0 or 2. Both are bytes that the device chose. The bytes of the header
-- are those in the buffer: past the end of a short message they are what earlier messages left there.
pub turn_panics :
    (now : ℕ) (c : Connection) (d : Bytes)
    → (turn now c (ok d) ≡ some panicked) ↔ Fatal (fill d c.buffer) (length d)
unfolding turn
turn_panics now c d =
    let filled = record c { buffer = fill d c.buffer } in
    let (to, from) = drw_panics now filled (length d) in
    elim (Bool-cases (get_or filled.buffer 1 0 == 208)) [
      | inl e ↦
          let data_case = dispatch_data now filled (length d) e in
          (λ x. (ground arith, to (sym data_case ∙ x)), λ x. data_case ∙ from x.1)
      | inr e ↦
          let (w, r) = dispatch_other now filled (length d) e in
          (
            λ x.
                let no : some (continued filled w) ≡ some panicked = sym r ∙ x in
                absurd (ground arith),
            λ x. let kind = x.0 in absurd (ground arith),
          )
    ]
