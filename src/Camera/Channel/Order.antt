-- ===== src/Camera/Channel/Order.antt =====
-- camera/native_cs2.go: the order of the packets in PushSeq.
use go_mihome.Common.{
  ℕ, zero, suc, ◌+◌, ◌%◌, ◌≤◌, ◌<◌, ◌≡◌, subst, [], ◌∷◌, ◌++◌, Option, none, some, ◌==◌, ltb,
  length, arith, length-append, All-append, inl, inr, Bool-cases, Option-cases, ltb→lt,
}
use go_mihome.Common.Result.{Fault}
use go_mihome.Common.Bytes.{Bytes}
use go_mihome.Camera.Channel.{
  DataChannel, push, lookup_seq, delete_seq, distance, drain, keep_early, push_seq, Pushed,
  with_count,
}
use go_mihome.Camera.Channel.Ahead.{
  push-Keeps, IsAheadOf, IsOrdered, IsOrdered-Keeps, Ahead-delete_seq, Ahead-missing,
  length-delete_seq,
}

-- What was pushed of a packet and those that follow it, and what it says of the channel.
drain-IsOrdered :
    (f n : ℕ) (p : Bytes) (c d : DataChannel) (m : ℕ) (e : Option Fault)
    → IsOrdered c
    → drain f n p c ≡ some (d, m, e)
    → IsOrdered d
unfolding drain
drain-IsOrdered zero n p c d m e h r = absurd (ground arith)
drain-IsOrdered (suc f) n p c d m e h r = elim (Option-cases (push c p)) [
  | inl a ↦ absurd (let no : none ≡ some (d, m, e) = rw (a, drain) at r in ground arith)
  | inr ((q, some x), a) ↦
      let last : some (q, n, some x) ≡ some (d, m, e) = rw (a, drain) at r in
      let is : q ≡ d = ground arith in
      subst IsOrdered is (IsOrdered-Keeps c q (push-Keeps c q p (some x) a) h)
  | inr ((q, none), a) ↦
      let k = IsOrdered-Keeps c q (push-Keeps c q p none a) h in
      let seq = (q.wait_seq + 1) % 65536 in
      elim (Option-cases (lookup_seq seq q.push_buf)) [
        | inl b ↦
            let last : some (record q { wait_seq = seq }, n, none) ≡ some (d, m, e) =
              rw (a, drain, b) at r in
            let is : record q { wait_seq = seq } ≡ d = ground arith in
            subst IsOrdered is (record {
              range = omega arith;
              ahead = Ahead-missing q.wait_seq q.push_buf k.range k.ahead b;
              few = k.few;
            })
        | inr (next, b) ↦
            drain-IsOrdered f (n + 1) next
              (record q { wait_seq = seq; push_buf = delete_seq seq q.push_buf }) d m e
              (record {
                range = omega arith;
                ahead = Ahead-delete_seq q.wait_seq q.push_buf k.range k.ahead;
                few = (let le = (length-delete_seq seq q.push_buf).0 in omega (arith, k.few));
              })
              (rw (a, drain, b) at r)
      ]
]

pub with_count-eq :
    (r : Option Pushed) (d : DataChannel) (n : Option ℕ) (e : Option Fault)
    → with_count r ≡ some (d, n, e)
    → (m : ℕ) × (r ≡ some (d, m, e))
with_count-eq none d n e h = absurd (ground arith)
with_count-eq (some (q, m, x)) d n e h = (m, ground arith)

keep_early-IsOrdered :
    (c : DataChannel) (s : ℕ) (p : Bytes)
    → IsOrdered c
    → s < 65536
    → 0 < distance s c.wait_seq
    → distance s c.wait_seq < 32768
    → IsOrdered (keep_early s p c).0
unfolding keep_early
keep_early-IsOrdered c s p h r a b = elim (Bool-cases (c.push_size == 0)) [
  | inl z ↦ rw z h
  | inr z ↦ elim (Option-cases (lookup_seq s c.push_buf)) [
    | inr (q, l) ↦ rw (z, l) h
    | inl l ↦ elim (Bool-cases (length c.push_buf == c.push_size)) [
      | inl t ↦ rw (z, l, t) h
      | inr t ↦
          let one = length-append c.push_buf ((s, p) ∷ []) in
          let bound : length (c.push_buf ++ (s, p) ∷ []) ≤ c.push_size = ground (arith, h.few) in
          rw (z, l, t)
            (record {
              range = h.range;
              ahead =
                  All-append (λ x. IsAheadOf c.wait_seq x.0) c.push_buf ((s, p) ∷ []) h.ahead
                    ((r, a, b), tt);
              few = bound;
            })
    ]
  ]
]

-- PushSeq keeps a channel in order: the sequence numbers of the packets that it holds back stay within
-- 16 bits, strictly ahead of the one waited for and less than half the range ahead, so that none of them
-- is taken for an old one, and there are at most push_size of them. This holds for every packet, in
-- turn, early or old, and also where the push fails.
pub push_seq-IsOrdered :
    (c d : DataChannel) (s : ℕ) (p : Bytes) (n : Option ℕ) (e : Option Fault)
    → IsOrdered c
    → s < 65536
    → push_seq c s p ≡ some (d, n, e)
    → IsOrdered d
unfolding push_seq
push_seq-IsOrdered c d s p n e h r eq = elim (Bool-cases (distance s c.wait_seq == 0)) [
  | inl z ↦
      let (m, run) =
        with_count-eq (drain (suc (length c.push_buf)) 1 p c) d n e (rw (z, push_seq) at eq) in
      drain-IsOrdered (suc (length c.push_buf)) 1 p c d m e h run
  | inr z ↦ elim (Bool-cases (ltb (distance s c.wait_seq) 32768)) [
    | inl l ↦
        let k =
          keep_early-IsOrdered c s p h r (ground arith) (ltb→lt (distance s c.wait_seq) 32768 l) in
        let last : some ((keep_early s p c).0, (keep_early s p c).1, none) ≡ some (d, n, e) =
          rw (z, push_seq, l) at eq in
        let is : (keep_early s p c).0 ≡ d = ground arith in subst IsOrdered is k
    | inr l ↦
        let last : some (c, some 0, none) ≡ some (d, n, e) = rw (z, push_seq, l) at eq in
        let is : c ≡ d = ground arith in subst IsOrdered is h
  ]
]
