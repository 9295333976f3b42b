-- ===== src/Camera/Channel/Ahead.antt =====
-- camera/native_cs2.go: the packets that a channel keeps, and the number that it waits for.
use go_mihome.Common.{
  ℕ, zero, suc, ◌+◌, ◌%◌, ◌≤◌, ◌<◌, ◌≡◌, ◌≢◌, refl, subst, ◌∙◌, List, [], ◌∷◌, ◌++◌, Option, none,
  some, Bool, true, false, ◌==◌, ltb, if◌then◌else◌, length, arith, All, inl, inr, Bool-cases,
}
use go_mihome.Common.Result.{Fault}
use go_mihome.Common.Bytes.{Bytes}
use go_mihome.Camera.Channel.Frames.{Round-cases}
use go_mihome.Camera.Channel.{
  DataChannel, Round, again, done, full, read_size, pop_frame, push_round, push_loop, push,
  pop_full, lookup_seq, delete_seq, distance,
}

-- The parts of a channel that Push leaves alone.
abbrev pub Keeps : DataChannel → DataChannel → Type 0
Keeps c d = (d.wait_seq ≡ c.wait_seq) × (d.push_buf ≡ c.push_buf) × (d.push_size ≡ c.push_size)

abbrev pub KeepsRound : DataChannel → Round → Type 0
KeepsRound c (again d) = Keeps c d
KeepsRound c (done d) = Keeps c d
KeepsRound c (full d) = Keeps c d

pub KeepsRound-if :
    (c : DataChannel) (b : Bool) (x y : Round)
    → KeepsRound c x
    → KeepsRound c y
    → KeepsRound c (if b then x else y)
KeepsRound-if c true x y h k = h
KeepsRound-if c false x y h k = k

pub read_size-Keeps : (c : DataChannel) → Keeps c (read_size c)
unfolding read_size
read_size-Keeps c = ground arith

pub pop_frame-Keeps : (c m : DataChannel) → Keeps c m → KeepsRound c (pop_frame m)
unfolding pop_frame
pop_frame-Keeps c m h =
    KeepsRound-if c (ltb (length m.wait_data) m.wait_size) _ _ h
      (KeepsRound-if c (ltb (length m.pop_buf) m.pop_size) _ _ h h)

pub push_round-Keeps : (c : DataChannel) → KeepsRound c (push_round c)
unfolding push_round
push_round-Keeps c =
    KeepsRound-if c (ltb 4 (length c.wait_data)) _ _
      (pop_frame-Keeps c (read_size c) (read_size-Keeps c)) (refl, refl, refl)

pub KeepsRound-eq : (c : DataChannel) (r : Round) → push_round c ≡ r → KeepsRound c r
KeepsRound-eq c r e = subst (KeepsRound c) e (push_round-Keeps c)

pub Keeps-trans : (c d e : DataChannel) → Keeps c d → Keeps d e → Keeps c e
Keeps-trans c d e h k = (k.0 ∙ h.0, k.1 ∙ h.1, k.2 ∙ h.2)

pub push_loop-Keeps :
    (f : ℕ) (c d : DataChannel) (e : Option Fault) → push_loop f c ≡ some (d, e) → Keeps c d
unfolding push_loop
push_loop-Keeps zero c d e h = absurd (ground arith)
push_loop-Keeps (suc f) c d e h = elim (Round-cases (push_round c)) [
  | inl (m, r) ↦
      Keeps-trans c m d (KeepsRound-eq c (again m) r)
        (push_loop-Keeps f m d e (rw (r, push_loop) at h))
  | inr (inl (m, r)) ↦
      let last : some (m, none) ≡ some (d, e) = rw (r, push_loop) at h in
      let is : m ≡ d = ground arith in subst (Keeps c) is (KeepsRound-eq c (done m) r)
  | inr (inr (m, r)) ↦
      let last : some (m, some pop_full) ≡ some (d, e) = rw (r, push_loop) at h in
      let is : m ≡ d = ground arith in subst (Keeps c) is (KeepsRound-eq c (full m) r)
]

pub push-Keeps :
    (c d : DataChannel) (buffer : Bytes) (e : Option Fault)
    → push c buffer ≡ some (d, e)
    → Keeps c d
unfolding push
push-Keeps c d buffer e h =
    push_loop-Keeps (suc (length (c.wait_data ++ buffer)))
      (record c { wait_data = c.wait_data ++ buffer }) d e h

-- The packets that are kept are ahead of the one that is waited for, by less than half the range.
abbrev pub IsAheadOf : ℕ → ℕ → Type 0
IsAheadOf w k = (k < 65536) × (0 < distance k w) × (distance k w < 32768)

abbrev pub Ahead : ℕ → List (ℕ × Bytes) → Type 0
Ahead w = All (λ p. IsAheadOf w p.0)

pub record IsOrdered (c : DataChannel) : Type 0 where
  pub range : c.wait_seq < 65536
  pub ahead : Ahead c.wait_seq c.push_buf
  pub few : length c.push_buf ≤ c.push_size

pub IsOrdered-Keeps : (c d : DataChannel) → Keeps c d → IsOrdered c → IsOrdered d
IsOrdered-Keeps c d k h = record {
  range = rw k.0 h.range;
  ahead = rw (k.0, k.1) h.ahead;
  few = rw (k.1, k.2) h.few;
}

pub next_ahead :
    (w k : ℕ) → w < 65536 → IsAheadOf w k → k ≢ (w + 1) % 65536 → IsAheadOf ((w + 1) % 65536) k
next_ahead w k h a n = (omega arith, omega arith, omega arith)

-- When the next packet is taken out, or is not there, the others are ahead of the one behind it.
pub Ahead-delete_seq :
    (w : ℕ) (m : List (ℕ × Bytes))
    → w < 65536
    → Ahead w m
    → Ahead ((w + 1) % 65536) (delete_seq ((w + 1) % 65536) m)
unfolding delete_seq
Ahead-delete_seq w [] h a = tt
Ahead-delete_seq w ((k, p) ∷ m) h a =
    let rest = Ahead-delete_seq w m h a.1 in
    elim (Bool-cases (k == (w + 1) % 65536)) [
      | inl e ↦ rw e rest
      | inr e ↦ rw e (next_ahead w k h a.0 (ground arith), rest)
    ]

pub Ahead-missing :
    (w : ℕ) (m : List (ℕ × Bytes))
    → w < 65536
    → Ahead w m
    → lookup_seq ((w + 1) % 65536) m ≡ none
    → Ahead ((w + 1) % 65536) m
unfolding lookup_seq
Ahead-missing w [] h a e = tt
Ahead-missing w ((k, p) ∷ m) h a e =
    (next_ahead w k h a.0 (ground arith), Ahead-missing w m h a.1 (ground arith))

pub length-delete_seq :
    (k : ℕ) (m : List (ℕ × Bytes))
    → (length (delete_seq k m) ≤ length m)
      × ((p : Bytes) → lookup_seq k m ≡ some p → length (delete_seq k m) < length m)
unfolding delete_seq lookup_seq
length-delete_seq k [] = (omega arith, λ p e. absurd (ground arith))
length-delete_seq k ((j, q) ∷ m) =
    let (le, lt) = length-delete_seq k m in
    (
      ground arith,
      λ p e. elim (Bool-cases (j == k)) [
        | inl s ↦ rw s (omega arith)
        | inr n ↦ let less = lt p (ground arith) in rw n (omega arith)
      ],
    )
