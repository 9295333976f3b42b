-- ===== src/Camera/Channel/Frames.antt =====
-- camera/native_cs2.go: the bytes that a channel holds, and one round of the loop in Push.
use go_mihome.Common.{
  ◌≤◌, ◌<◌, ◌≡◌, ◌⊎◌, refl, sym, subst, ap, ap₂, ◌∙◌, List, [], ◌∷◌, ◌++◌, append_assoc, ◌==◌, ltb,
  if◌then◌else◌, length, take, drop, arith, length-take, length-drop, take-append-drop, All-drop,
  Bool-cases, inl, inr, ltb→lt,
}
use go_mihome.Common.Bytes.{Bytes, IsBytes, be32, read_be32, be32-read_be32}
use go_mihome.Camera.Channel.{
  DataChannel, Round, again, done, full, read_size, pop_frame, push_round,
}

-- A frame on the wire: its length and its bytes.
unfoldable pub frame : Bytes → Bytes
frame p = be32 (length p) ++ p

unfoldable pub frames : List Bytes → Bytes
unfolding frame
frames [] = []
frames (p ∷ ps) = frame p ++ frames ps

pub frames-append : (ps qs : List Bytes) → frames (ps ++ qs) ≡ frames ps ++ frames qs
unfolding frames
frames-append [] qs = refl
frames-append (p ∷ ps) qs =
    ap (λ r. frame p ++ r) (frames-append ps qs)
    ∙ sym (append_assoc (frame p) (frames ps) (frames qs))

-- The bytes that wait for their frame to be complete, with the size that was read of them.
unfoldable pub pending : DataChannel → Bytes
pending c = if c.wait_size == 0 then c.wait_data else be32 c.wait_size ++ c.wait_data

pending-zero : (c : DataChannel) → c.wait_size ≡ 0 → pending c ≡ c.wait_data
unfolding pending
pending-zero c h = rw h

pending-pos : (c : DataChannel) → 0 < c.wait_size → pending c ≡ be32 c.wait_size ++ c.wait_data
unfolding pending
pending-pos c h = ground arith

pub record IsWired (c : DataChannel) : Type 0 where
  pub bytes : IsBytes c.wait_data
  pub size : c.wait_size < 4294967296

read_be32_front :
    (d : Bytes)
    → IsBytes d
    → 4 < length d
    → (be32 (read_be32 d) ++ drop 4 d ≡ d) × (read_be32 d < 4294967296)
unfolding read_be32
read_be32_front [] h l = absurd (omega arith)
read_be32_front (a ∷ []) h l = absurd (omega arith)
read_be32_front (a ∷ b ∷ []) h l = absurd (omega arith)
read_be32_front (a ∷ b ∷ c ∷ []) h l = absurd (omega arith)
read_be32_front (a ∷ b ∷ c ∷ d ∷ r) h l =
    (be32-read_be32 a b c d r h.0 h.1.0 h.1.1.0 h.1.1.1.0, omega arith)

read_size_lem :
    (c : DataChannel)
    → IsWired c
    → 4 < length c.wait_data
    → (be32 (read_size c).wait_size ++ (read_size c).wait_data ≡ pending c)
      × IsWired (read_size c)
      × ((read_size c).pop_buf ≡ c.pop_buf)
      × (length (read_size c).wait_data ≤ length c.wait_data)
      × ((length (read_size c).wait_data < length c.wait_data) ⊎ (0 < (read_size c).wait_size))
unfolding read_size pending
read_size_lem c h l = elim (Bool-cases (c.wait_size == 0)) [
  | inl e ↦
      let (front, small) = read_be32_front c.wait_data h.bytes l in
      let left = length-drop 4 c.wait_data in
      rw e (
        front,
        record { bytes = All-drop (λ b. b < 256) 4 c.wait_data h.bytes; size = small },
        refl,
        omega arith,
        inl (omega arith),
      )
  | inr e ↦ rw e (refl, h, refl, omega arith, inr (ground arith))
]

pop_frame-again :
    (c d : DataChannel)
    → IsWired c
    → pop_frame c ≡ again d
    → (c.wait_size ≤ length c.wait_data)
      × (d.pop_buf ≡ c.pop_buf ++ take c.wait_size c.wait_data ∷ [])
      × (d.wait_data ≡ drop c.wait_size c.wait_data)
      × (d.wait_size ≡ 0)
unfolding pop_frame
pop_frame-again c d h e = (ground arith, ground arith, ground arith, ground arith)

pop_frame-done :
    (c d : DataChannel) → pop_frame c ≡ done d → (d ≡ c) × (length c.wait_data < c.wait_size)
unfolding pop_frame
pop_frame-done c d e = (ground arith, ground arith)

-- A round that goes on turns the front of the waiting bytes into one frame, and takes some of them.
pub push_round-again :
    (c d : DataChannel)
    → IsWired c
    → push_round c ≡ again d
    → IsWired d
      × (length d.wait_data < length c.wait_data)
      × ((p : Bytes) × (d.pop_buf ≡ c.pop_buf ++ p ∷ []) × (frame p ++ pending d ≡ pending c))
unfolding push_round frame
push_round-again c d h e = elim (Bool-cases (ltb 4 (length c.wait_data))) [
  | inl l ↦
      let m = read_size c in
      let (same, wired, popped, shorter, moved) =
        read_size_lem c h (ltb→lt 4 (length c.wait_data) l) in
      let (fits, queue, rest, cleared) = pop_frame-again m d wired (rw (l, push_round) at e) in
      let p = take m.wait_size m.wait_data in
      let size : length p ≡ m.wait_size = omega (arith, length-take m.wait_size m.wait_data) in
      let left = length-drop m.wait_size m.wait_data in
      let kept : pending d ≡ drop m.wait_size m.wait_data = pending-zero d cleared ∙ rest in
      (
        record {
          bytes =
              subst IsBytes (sym rest)
                (All-drop (λ b. b < 256) m.wait_size m.wait_data wired.bytes);
          size = omega arith;
        },
        subst (λ w. length w < length c.wait_data) (sym rest) (omega arith),
        (
          p,
          queue ∙ ap (λ q. q ++ p ∷ []) popped,
          ap₂ (λ n r. (be32 n ++ p) ++ r) size kept
              ∙ append_assoc (be32 m.wait_size) p (drop m.wait_size m.wait_data)
              ∙ ap (λ w. be32 m.wait_size ++ w) (take-append-drop m.wait_size m.wait_data)
              ∙ same,
        ),
      )
  | inr l ↦ absurd (ground arith)
]

-- The loop is left without an error only when no frame is complete.
pub push_round-done :
    (c d : DataChannel)
    → IsWired c
    → push_round c ≡ done d
    → IsWired d
      × (d.pop_buf ≡ c.pop_buf)
      × (pending d ≡ pending c)
      × ((length d.wait_data ≤ 4) ⊎ (length d.wait_data < d.wait_size))
unfolding push_round
push_round-done c d h e = elim (Bool-cases (ltb 4 (length c.wait_data))) [
  | inl l ↦
      let m = read_size c in
      let (same, wired, popped, shorter, moved) =
        read_size_lem c h (ltb→lt 4 (length c.wait_data) l) in
      let (is, short) = pop_frame-done m d (rw (l, push_round) at e) in
      rw is (wired, popped, pending-pos m (omega arith) ∙ same, inr short)
  | inr l ↦ let is : d ≡ c = ground arith in rw is (h, refl, refl, inl (ground arith))
]

pub Round-cases :
    (r : Round)
    → ((d : DataChannel) × (r ≡ again d))
      ⊎ (((d : DataChannel) × (r ≡ done d)) ⊎ ((d : DataChannel) × (r ≡ full d)))
Round-cases (again d) = inl (d, refl)
Round-cases (done d) = inr (inl (d, refl))
Round-cases (full d) = inr (inr (d, refl))
