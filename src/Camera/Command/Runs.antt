-- ===== src/Camera/Command/Runs.antt =====
-- camera/native_cs2.go: a connection from newMiHomeCS2Conn on, with the turns of its worker, the commands
-- that are written to it and the frames that are read from it.
use go_mihome.Common.{
  ℕ, zero, suc, ◌*◌, ◌+◌, ◌<◌, ◌≡◌, ◌∙◌, refl, sym, subst, List, [], Option, none, some, Bool, true,
  false, ◌==◌, ltb, if◌then◌else◌, length, get_or, take, drop, arith, All-take, All-drop,
  All-append, inl, inr, Bool-cases, Option-cases, replicate,
}
use go_mihome.Common.Result.{Fault, Result, ok}
use go_mihome.Common.Bytes.{Bytes, IsBytes}
use go_mihome.Camera.Channel.{DataChannel, new_data_channel, push, push_seq, pop}
use go_mihome.Camera.Channel.Sequence.{IsReady, push-IsReady}
use go_mihome.Camera.Channel.Kept.{push_seq-IsReady, pop-IsReady}
use go_mihome.Camera.Command.{
  Connection, Effect, Outcome, continued, panicked, fill, receive, acknowledge, keepalive, put, drw,
  turn, new_connection, write_command,
}
use go_mihome.Camera.Command.Safety.{select_channel_cases, dispatch_other, dispatch_data, turn_ends}

-- What is done to a connection: a turn of the worker after which it goes on, a command, a frame that a reader
-- takes from a channel, and a callback for acknowledgements that is set or cleared.
pub data Step (c : Connection) : Connection → Type 0 where
  turned :
      (now : ℕ) (d : Bytes) (e : Connection) (w : List Effect)
      → IsBytes d
      → turn now c (ok d) ≡ some (continued e w)
      → Step c e
  commanded : (command : ℕ) (payload : Bytes) → Step c (write_command command payload c).0
  control_read :
      (frame : Bytes) (e : DataChannel)
      → pop c.control ≡ some (frame, e)
      → Step c (record c { control = e })
  media_read :
      (frame : Bytes) (e : DataChannel)
      → pop c.media ≡ some (frame, e)
      → Step c (record c { media = e })
  callback : (present : Bool) → Step c (record c { cmd_ack = present })

pub data Reach (s : Connection) : Connection → Type 0 where
  here : Reach s s
  next : {c d : Connection} → Reach s c → Step c d → Reach s d

record IsFit (c : Connection) : Type 0 where
  control_ready : IsReady c.control
  media_ready : IsReady c.media
  bytes : IsBytes c.buffer

receive-IsReady :
    (tcp : Bool) (id hi lo : ℕ) (c e : DataChannel) (d : Bytes) (w : List Effect)
    → IsReady c
    → IsBytes d
    → receive tcp id hi lo c d ≡ some (e, w, none)
    → IsReady e
unfolding receive
receive-IsReady true id hi lo c e d w h b r = elim (Option-cases (push c d)) [
  | inl a ↦ absurd (let no : none ≡ some (e, w, none) = rw (a, receive) at r in ground arith)
  | inr ((x, f), a) ↦
      let last : some (x, [], f) ≡ some (e, w, none) = rw (a, receive) at r in
      push-IsReady c e d h b (ground arith)
]
receive-IsReady false id hi lo c e d w h b r = elim (Option-cases (push_seq c (hi * 256 + lo) d)) [
  | inl a ↦ absurd (let no : none ≡ some (e, w, none) = rw (a, receive) at r in ground arith)
  | inr ((x, n, f), a) ↦
      let last : some (x, acknowledge n id hi lo, f) ≡ some (e, w, none) = rw (a, receive) at r in
      push_seq-IsReady c e (hi * 256 + lo) d n h b (ground arith)
]

put_continued :
    (r : Option (DataChannel × List Effect × Option Fault)) (place : DataChannel → Connection)
    (v w : List Effect) (e : Connection)
    → put r place v ≡ some (continued e w)
    → (x : DataChannel) × (u : List Effect) × (r ≡ some (x, u, none)) × (place x ≡ e)
put_continued none place v w e h = absurd (ground arith)
put_continued (some (x, u, none)) place v w e h = (x, u, refl, ground arith)
put_continued (some (x, u, some f)) place v w e h = absurd (ground arith)

if_IsFit :
    (b : Bool) (x y : Connection × List Effect)
    → IsFit x.0
    → IsFit y.0
    → IsFit (if b then x else y).0
if_IsFit true x y h k = h
if_IsFit false x y h k = k

keepalive-IsFit :
    (now : ℕ) (c : Connection) → IsFit c → IsFit (if c.is_tcp then keepalive now c else (c, [])).0
keepalive-IsFit now c h =
    if_IsFit c.is_tcp (keepalive now c) (c, [])
      (if_IsFit (ltb c.keepalive_at now) (record c { keepalive_at = _ }, _) (c, [])
        (record { control_ready = h.control_ready; media_ready = h.media_ready; bytes = h.bytes })
        h)
      h

drw-IsFit :
    (now : ℕ) (c e : Connection) (n : ℕ) (w : List Effect)
    → IsFit c
    → drw now c n ≡ some (continued e w)
    → IsFit e
unfolding drw
drw-IsFit now c e n w h r =
    let id = get_or c.buffer 5 0 in
    let hi = get_or c.buffer 6 0 in
    let lo = get_or c.buffer 7 0 in
    let d = drop 8 (take n c.buffer) in
    let p = if c.is_tcp then keepalive now c else (c, []) in
    let k = keepalive-IsFit now c h in
    let bytes =
      All-drop (λ x. x < 256) 8 (take n c.buffer) (All-take (λ x. x < 256) n c.buffer h.bytes) in
    elim (select_channel_cases id) [
      | inl (s, z) ↦ elim (Bool-cases (ltb n 8)) [
        | inl l ↦
            absurd
              (let no : some panicked ≡ some (continued e w) = rw (s, drw, l) at r in ground arith)
        | inr l ↦
            let (x, u, got, is) =
              put_continued (receive c.is_tcp id hi lo c.control d)
                (λ x. record p.0 { control = x }) p.1 w e (rw (s, drw, l) at r) in
            subst IsFit is (record {
              control_ready =
                  receive-IsReady c.is_tcp id hi lo c.control x d u h.control_ready bytes got;
              media_ready = k.media_ready;
              bytes = k.bytes;
            })
      ]
      | inr (inl (s, z)) ↦ elim (Bool-cases (ltb n 8)) [
        | inl l ↦
            absurd
              (let no : some panicked ≡ some (continued e w) = rw (s, drw, l) at r in ground arith)
        | inr l ↦
            let (x, u, got, is) =
              put_continued (receive c.is_tcp id hi lo c.media d) (λ x. record p.0 { media = x })
                p.1 w e (rw (s, drw, l) at r) in
            subst IsFit is (record {
              control_ready = k.control_ready;
              media_ready = receive-IsReady c.is_tcp id hi lo c.media x d u h.media_ready bytes got;
              bytes = k.bytes;
            })
      ]
      | inr (inr (inl (s, z, _, _))) ↦
          let same : some (continued c []) ≡ some (continued e w) = rw (s, drw) at r in
          let is : c ≡ e = ground arith in subst IsFit is h
      | inr (inr (inr (s, z))) ↦
          absurd (let no : some panicked ≡ some (continued e w) = rw (s, drw) at r in ground arith)
    ]

fill-IsFit :
    (d : Bytes) (c : Connection)
    → IsBytes d
    → IsFit c
    → IsFit (record c { buffer = fill d c.buffer })
unfolding fill
fill-IsFit d c b h = record {
  control_ready = h.control_ready;
  media_ready = h.media_ready;
  bytes =
      All-append (λ x. x < 256) d (drop (length d) c.buffer) b
        (All-drop (λ x. x < 256) (length d) c.buffer h.bytes);
}

turn-IsFit :
    (now : ℕ) (c e : Connection) (d : Bytes) (w : List Effect)
    → IsFit c
    → IsBytes d
    → turn now c (ok d) ≡ some (continued e w)
    → IsFit e
unfolding turn
turn-IsFit now c e d w h b r =
    let filled = record c { buffer = fill d c.buffer } in
    let k = fill-IsFit d c b h in
    elim (Bool-cases (get_or filled.buffer 1 0 == 208)) [
      | inl s ↦
          drw-IsFit now filled e (length d) w k (sym (dispatch_data now filled (length d) s) ∙ r)
      | inr s ↦
          let (v, left) = dispatch_other now filled (length d) s in
          let same : some (continued filled v) ≡ some (continued e w) = sym left ∙ r in
          let is : filled ≡ e = ground arith in subst IsFit is k
    ]

Step-IsFit : {c d : Connection} → Step c d → IsFit c → IsFit d
unfolding write_command
Step-IsFit {c} (turned now d e w b r) h = turn-IsFit now c e d w h b r
Step-IsFit (commanded command payload) h = record {
  control_ready = h.control_ready;
  media_ready = h.media_ready;
  bytes = h.bytes;
}
Step-IsFit {c} (control_read frame e r) h = record {
  control_ready = pop-IsReady c.control e frame h.control_ready r;
  media_ready = h.media_ready;
  bytes = h.bytes;
}
Step-IsFit {c} (media_read frame e r) h = record {
  control_ready = h.control_ready;
  media_ready = pop-IsReady c.media e frame h.media_ready r;
  bytes = h.bytes;
}
Step-IsFit (callback present) h = record {
  control_ready = h.control_ready;
  media_ready = h.media_ready;
  bytes = h.bytes;
}

zeros-IsBytes : (n : ℕ) → IsBytes (replicate n 0)
zeros-IsBytes zero = tt
zeros-IsBytes (suc n) = (omega arith, zeros-IsBytes n)

new-IsReady : (push_size pop_size : ℕ) → IsReady (new_data_channel push_size pop_size)
unfolding new_data_channel
new-IsReady push_size pop_size = record {
  wired = record { bytes = tt; size = omega arith };
  stored = tt;
}

Reach-IsFit : (is_tcp : Bool) {c : Connection} → Reach (new_connection is_tcp) c → IsFit c
unfolding new_connection
Reach-IsFit is_tcp here = record {
  control_ready = new-IsReady 0 10;
  media_ready = new-IsReady 250 100;
  bytes = zeros-IsBytes 1200;
}
Reach-IsFit is_tcp (next r s) = Step-IsFit s (Reach-IsFit is_tcp r)

-- On a connection that is new, or that is left by any turns of the worker on bytes that the device sent, with
-- commands written, frames read and callbacks set in between, the next turn of the worker ends: the loops that
-- cut frames and take kept packets do not run for ever, whatever bytes come or whatever the error of the read.
pub turn_total :
    (is_tcp : Bool) (now : ℕ) (c : Connection) (r : Result Bytes)
    → Reach (new_connection is_tcp) c
    → ((d : Bytes) → r ≡ ok d → IsBytes d)
    → (o : Outcome) × (turn now c r ≡ some o)
turn_total is_tcp now c r reached bytes =
    let fit = Reach-IsFit is_tcp reached in
    turn_ends now c r fit.control_ready fit.media_ready fit.bytes bytes
