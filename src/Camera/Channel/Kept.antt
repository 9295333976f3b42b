-- ===== src/Camera/Channel/Kept.antt =====
-- camera/native_cs2.go: the channel that Push and PushSeq leave when they do not fail.
use go_mihome.Common.{
  ℕ, zero, suc, ◌+◌, ◌%◌, ◌≡◌, subst, [], ◌∷◌, Option, none, some, ◌==◌, ltb, length, arith,
  All-append, inl, inr, Bool-cases, Option-cases,
}
use go_mihome.Common.Bytes.{Bytes, IsBytes}
use go_mihome.Camera.Channel.{
  DataChannel, push, lookup_seq, distance, drain, keep_early, push_seq, with_count, pop,
}
use go_mihome.Camera.Channel.Order.{with_count-eq}
use go_mihome.Camera.Channel.Sequence.{
  IsReady, after, taken, push-IsReady, taken-IsReady, lookup_seq-IsBytes,
}

-- Moving the number that is waited for keeps a channel ready.
after-IsReady : (d : DataChannel) → IsReady d → IsReady (after d)
after-IsReady d h = record {
  wired = record { bytes = h.wired.bytes; size = h.wired.size };
  stored = h.stored;
}

drain-IsReady :
    (f n : ℕ) (p : Bytes) (c d : DataChannel) (m : ℕ)
    → IsReady c
    → IsBytes p
    → drain f n p c ≡ some (d, m, none)
    → IsReady d
unfolding drain
drain-IsReady zero n p c d m h b r = absurd (ground arith)
drain-IsReady (suc f) n p c d m h b r = elim (Option-cases (push c p)) [
  | inl a ↦ absurd (let no : none ≡ some (d, m, none) = rw (a, drain) at r in ground arith)
  | inr ((q, some x), a) ↦
      absurd (let no : some (q, n, some x) ≡ some (d, m, none) = rw (a, drain) at r in ground arith)
  | inr ((q, none), a) ↦
      let k = push-IsReady c q p h b a in
      elim (Option-cases (lookup_seq ((q.wait_seq + 1) % 65536) q.push_buf)) [
        | inl o ↦
            let last : some (after q, n, none) ≡ some (d, m, none) = rw (a, drain, o) at r in
            let is : after q ≡ d = ground arith in subst IsReady is (after-IsReady q k)
        | inr (t, o) ↦
            drain-IsReady f (n + 1) t (taken q) d m (taken-IsReady q k)
              (lookup_seq-IsBytes ((q.wait_seq + 1) % 65536) q.push_buf t k.stored o)
              (rw (a, drain, o) at r)
      ]
]

keep_early-IsReady :
    (s : ℕ) (p : Bytes) (c : DataChannel) → IsReady c → IsBytes p → IsReady (keep_early s p c).0
unfolding keep_early
keep_early-IsReady s p c h b = elim (Bool-cases (c.push_size == 0)) [
  | inl z ↦ rw (z, keep_early) h
  | inr z ↦ elim (Option-cases (lookup_seq s c.push_buf)) [
    | inr (q, o) ↦ rw (z, o, keep_early) h
    | inl o ↦ elim (Bool-cases (length c.push_buf == c.push_size)) [
      | inl full ↦ rw (z, o, full, keep_early) h
      | inr room ↦
          rw (z, o, room, keep_early)
            (record {
              wired = record { bytes = h.wired.bytes; size = h.wired.size };
              stored = All-append (λ x. IsBytes x.1) c.push_buf ((s, p) ∷ []) h.stored (b, tt);
            })
    ]
  ]
]

pub push_seq-IsReady :
    (c d : DataChannel) (s : ℕ) (p : Bytes) (n : Option ℕ)
    → IsReady c
    → IsBytes p
    → push_seq c s p ≡ some (d, n, none)
    → IsReady d
unfolding push_seq
push_seq-IsReady c d s p n h b r = elim (Bool-cases (distance s c.wait_seq == 0)) [
  | inl z ↦
      let run : with_count (drain (suc (length c.push_buf)) 1 p c) ≡ some (d, n, none) =
        rw (z, push_seq) at r in
      let (m, got) = with_count-eq (drain (suc (length c.push_buf)) 1 p c) d n none run in
      drain-IsReady (suc (length c.push_buf)) 1 p c d m h b got
  | inr z ↦ elim (Bool-cases (ltb (distance s c.wait_seq) 32768)) [
    | inl l ↦
        let run : some ((keep_early s p c).0, (keep_early s p c).1, none) ≡ some (d, n, none) =
          rw (z, l, push_seq) at r in
        let is : (keep_early s p c).0 ≡ d = ground arith in
        subst IsReady is (keep_early-IsReady s p c h b)
    | inr l ↦
        let run : some (c, some 0, none) ≡ some (d, n, none) = rw (z, l, push_seq) at r in
        let is : c ≡ d = ground arith in subst IsReady is h
  ]
]

pub pop-IsReady :
    (c d : DataChannel) (frame : Bytes) → IsReady c → pop c ≡ some (frame, d) → IsReady d
unfolding pop
pop-IsReady c d frame h e = record {
  wired = record { bytes = ground (arith, h.wired.bytes); size = ground (arith, h.wired.size) };
  stored = ground (arith, h.stored);
}
