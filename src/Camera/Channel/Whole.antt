-- ===== src/Camera/Channel/Whole.antt =====
-- camera/native_cs2.go: one frame through Push, at once and in two parts.
use go_mihome.Common.{
  ℕ, suc, ◌-◌, ◌≤◌, ◌<◌, ◌≡◌, refl, ap₂, ◌∙◌, [], ◌∷◌, ◌++◌, Option, none, some, true, ltb, length,
  drop, arith, length-append, take_all, lt→ltb, ltb-false,
}
use go_mihome.Common.Result.{Fault}
use go_mihome.Common.Bytes.{Bytes, be32, read_be32-be32}
use go_mihome.Camera.Channel.Frames.{frame}
use go_mihome.Camera.Channel.{
  DataChannel, again, done, read_size, pop_frame, push_round, push_loop, push,
}

-- A channel between two frames, with room for one more.
pub record IsIdle (c : DataChannel) : Type 0 where
  pub no_data : c.wait_data ≡ []
  pub no_size : c.wait_size ≡ 0
  pub room : length c.pop_buf < c.pop_size

abbrev pub holding : DataChannel → ℕ → Bytes → DataChannel
holding c n r = record c { wait_size = n; wait_data = r }

abbrev pub delivering : DataChannel → Bytes → DataChannel
delivering c p = record c { wait_size = 0; wait_data = []; pop_buf = c.pop_buf ++ p ∷ [] }

drop_all : (p : Bytes) → drop (length p) p ≡ []
drop_all [] = refl
drop_all (x ∷ p) = drop_all p

loop_done :
    (f : ℕ) (c d : DataChannel) → push_round c ≡ done d → push_loop (suc f) c ≡ some (d, none)
unfolding push_loop
loop_done f c d e = rw (e, push_loop)

loop_again :
    (f : ℕ) (c d : DataChannel) → push_round c ≡ again d → push_loop (suc f) c ≡ push_loop f d
unfolding push_loop
loop_again f c d e = rw (e, push_loop)

short_round : (c : DataChannel) → length c.wait_data ≤ 4 → push_round c ≡ done c
unfolding push_round
short_round c h = rw (ltb-false 4 (length c.wait_data) h)

-- The size is read where more than its four bytes wait.
sized_round :
    (c : DataChannel) (n : ℕ) (r : Bytes)
    → n < 4294967296
    → 0 < length r
    → push_round (holding c 0 (be32 n ++ r)) ≡ pop_frame (holding c n r)
unfolding push_round read_size be32
sized_round c n r h l =
    let long : ltb 4 (suc (suc (suc (suc (length r))))) ≡ true = ground arith in
    rw (long, read_be32-be32 n r h)

pop_frame_fits :
    (c : DataChannel) (p : Bytes)
    → length c.pop_buf < c.pop_size
    → pop_frame (holding c (length p) p) ≡ again (delivering c p)
unfolding pop_frame
pop_frame_fits c p h = rw (
  ltb-false (length p) (length p) (omega arith),
  lt→ltb (length c.pop_buf) c.pop_size h,
  take_all p,
  drop_all p,
)

pop_frame_short :
    (c : DataChannel) (n : ℕ) (r : Bytes)
    → length r < n
    → pop_frame (holding c n r) ≡ done (holding c n r)
unfolding pop_frame
pop_frame_short c n r h = rw (lt→ltb (length r) n h)

idle-loaded :
    (c : DataChannel) (b : Bytes)
    → IsIdle c
    → record c { wait_data = c.wait_data ++ b } ≡ holding c 0 b
idle-loaded c b h = rw (h.no_data, h.no_size)

-- The channel with the bytes, however it came by them.
push_from :
    (c d : DataChannel) (b : Bytes) (r : Option (DataChannel × Option Fault))
    → record c { wait_data = c.wait_data ++ b } ≡ d
    → 0 < length b
    → ((f : ℕ) → push_loop (suc (suc f)) d ≡ r)
    → push c b ≡ r
unfolding push
push_from c d b r e l h =
    let more = length-append c.wait_data b in
    let fuel : suc (length (c.wait_data ++ b)) ≡ suc (suc (length (c.wait_data ++ b) - 1)) =
      omega arith in
    ap₂ push_loop fuel e ∙ h (length (c.wait_data ++ b) - 1)

-- A frame of at least one byte that comes at once, on a channel between two frames with room for one
-- more, is delivered at once, and the channel is between two frames again.
pub push_whole :
    (c : DataChannel) (p : Bytes)
    → IsIdle c
    → 0 < length p
    → length p < 4294967296
    → push c (frame p) ≡ some (delivering c p, none)
unfolding frame be32
push_whole c p h l b =
    push_from c (holding c 0 (frame p)) (frame p) (some (delivering c p, none))
      (idle-loaded c (frame p) h) (omega arith)
      (λ f.
        loop_again (suc f) (holding c 0 (frame p)) (delivering c p)
          (sized_round c (length p) p b l ∙ pop_frame_fits c p h.room)
        ∙ loop_done f (delivering c p) (delivering c p)
            (short_round (delivering c p) (omega arith)))

-- A frame of two, three or four bytes whose first byte comes with the size and whose other bytes come
-- later is not delivered by the second push, though it is complete: all its bytes wait, with their
-- number, on a channel whose queue has not changed.
pub push_short_parts :
    (c : DataChannel) (a : ℕ) (r : Bytes)
    → IsIdle c
    → 0 < length r
    → length r ≤ 3
    → (push c (be32 (length (a ∷ r)) ++ a ∷ []) ≡ some (holding c (length (a ∷ r)) (a ∷ []), none))
      × (push (holding c (length (a ∷ r)) (a ∷ [])) r
          ≡ some (holding c (length (a ∷ r)) (a ∷ r), none))
unfolding be32
push_short_parts c a r h l m =
    let n = length (a ∷ r) in
    (
      push_from c (holding c 0 (be32 n ++ a ∷ [])) (be32 n ++ a ∷ [])
          (some (holding c n (a ∷ []), none)) (idle-loaded c (be32 n ++ a ∷ []) h) (omega arith)
          (λ f. loop_done (suc f) (holding c 0 (be32 n ++ a ∷ [])) (holding c n (a ∷ [])) (
            sized_round c n (a ∷ []) (omega arith) (omega arith)
            ∙ pop_frame_short c n (a ∷ []) (omega arith))),
      push_from (holding c n (a ∷ [])) (holding c n (a ∷ r)) r (some (holding c n (a ∷ r), none))
          refl l
          (λ f.
            loop_done (suc f) (holding c n (a ∷ r)) (holding c n (a ∷ r))
              (short_round (holding c n (a ∷ r)) (omega arith))),
    )
