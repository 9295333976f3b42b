-- ===== src/Camera/Channel/Stream.antt =====
-- camera/native_cs2.go: the bytes that arrive at Push, and the frames that it cuts.
use go_mihome.Common.{
  ℕ, zero, suc, ◌≤◌, ◌<◌, ◌≡◌, ◌⊎◌, sym, subst, ap, ◌∙◌, List, [], ◌∷◌, ◌++◌, append_assoc,
  append-nil, Option, none, some, ◌==◌, length, arith, All-append, Bool-cases, inl, inr,
}
use go_mihome.Common.Result.{Fault}
use go_mihome.Common.Bytes.{Bytes, IsBytes, be32}
use go_mihome.Camera.Channel.{DataChannel, push_round, push_loop, push, pop_full}
use go_mihome.Camera.Channel.Frames.{
  frame, frames, pending, IsWired, push_round-again, push_round-done, Round-cases,
}

-- Nothing more can be cut from a channel: it waits for the rest of a frame, or for the byte behind a
-- size or a short frame.
abbrev pub IsStalled : DataChannel → Type 0
IsStalled c = (length c.wait_data ≤ 4) ⊎ (length c.wait_data < c.wait_size)

-- What a run of the loop has cut: the frames, and that their bytes and the rest are those before.
pub record Cut (c d : DataChannel) (ps : List Bytes) : Type 0 where
  pub wired : IsWired d
  pub queued : d.pop_buf ≡ c.pop_buf ++ ps
  pub stream : frames ps ++ pending d ≡ pending c
  pub stalled : IsStalled d

push_loop-Cut :
    (f : ℕ) (c d : DataChannel)
    → IsWired c
    → push_loop f c ≡ some (d, none)
    → (ps : List Bytes) × Cut c d ps
unfolding push_loop frames
push_loop-Cut zero c d h e = absurd (ground arith)
push_loop-Cut (suc f) c d h e = elim (Round-cases (push_round c)) [
  | inl (m, r) ↦
      let (wired, shorter, one) = push_round-again c m h r in
      let (p, queued, stream) = one in
      let (ps, cut) = push_loop-Cut f m d wired (rw (r, push_loop) at e) in
      (
        p ∷ ps,
        record {
          wired = cut.wired;
          queued = cut.queued ∙ ap (λ q. q ++ ps) queued ∙ append_assoc c.pop_buf (p ∷ []) ps;
          stream =
              append_assoc (frame p) (frames ps) (pending d)
              ∙ ap (λ r. frame p ++ r) cut.stream
              ∙ stream;
          stalled = cut.stalled;
        },
      )
  | inr (inl (m, r)) ↦
      let (wired, popped, same, stalled) = push_round-done c m h r in
      let last : some (m, none) ≡ some (d, none) = rw (r, push_loop) at e in
      let is : m ≡ d = ground arith in
      (
        [],
        subst (λ x. Cut c x []) is
            (record {
              wired = wired;
              queued = popped ∙ sym (append-nil c.pop_buf);
              stream = same;
              stalled = stalled;
            }),
      )
  | inr (inr (m, r)) ↦
      let last : some (m, some pop_full) ≡ some (d, none) = rw (r, push_loop) at e in
      absurd (ground arith)
]

push_loop_total :
    (f : ℕ) (c : DataChannel)
    → IsWired c
    → length c.wait_data < f
    → (d : DataChannel) × (e : Option Fault) × (push_loop f c ≡ some (d, e))
unfolding push_loop
push_loop_total zero c h l = absurd (omega arith)
push_loop_total (suc f) c h l = elim (Round-cases (push_round c)) [
  | inl (m, r) ↦
      let (wired, shorter, _) = push_round-again c m h r in
      rw (r, push_loop) (push_loop_total f m wired (omega arith))
  | inr (inl (m, r)) ↦ (m, none, rw (r, push_loop))
  | inr (inr (m, r)) ↦ (m, some pop_full, rw (r, push_loop))
]

abbrev loaded : DataChannel → Bytes → DataChannel
loaded c buffer = record c { wait_data = c.wait_data ++ buffer }

loaded-IsWired :
    (c : DataChannel) (buffer : Bytes) → IsWired c → IsBytes buffer → IsWired (loaded c buffer)
loaded-IsWired c buffer h b = record {
  bytes = All-append (λ x. x < 256) c.wait_data buffer h.bytes b;
  size = h.size;
}

pending-loaded :
    (c : DataChannel) (buffer : Bytes) → pending (loaded c buffer) ≡ pending c ++ buffer
unfolding pending
pending-loaded c buffer = elim (Bool-cases (c.wait_size == 0)) [
  | inl e ↦ rw e
  | inr e ↦ rw e (sym (append_assoc (be32 c.wait_size) c.wait_data buffer))
]

-- Push ends on every input: the fuel is enough.
pub push_total :
    (c : DataChannel) (buffer : Bytes)
    → IsWired c
    → IsBytes buffer
    → (d : DataChannel) × (e : Option Fault) × (push c buffer ≡ some (d, e))
unfolding push
push_total c buffer h b =
    push_loop_total (suc (length (c.wait_data ++ buffer))) (loaded c buffer)
      (loaded-IsWired c buffer h b) (omega arith)

-- A Push without an error appends frames to the reader's queue. Written out with their lengths, these
-- frames and what then waits are exactly what waited before and the new bytes: nothing is lost, made up
-- or put in another order. It goes on until no frame can be cut any more.
pub push_stream :
    (c d : DataChannel) (buffer : Bytes)
    → IsWired c
    → IsBytes buffer
    → push c buffer ≡ some (d, none)
    → (ps : List Bytes) × (d.pop_buf ≡ c.pop_buf ++ ps)
      × (frames ps ++ pending d ≡ pending c ++ buffer)
      × IsWired d
      × IsStalled d
unfolding push
push_stream c d buffer h b e =
    let (ps, cut) =
      push_loop-Cut (suc (length (c.wait_data ++ buffer))) (loaded c buffer) d
        (loaded-IsWired c buffer h b) e in
    (ps, cut.queued, cut.stream ∙ pending-loaded c buffer, cut.wired, cut.stalled)
