-- ===== src/Camera/Channel/Sequence.antt =====
-- camera/native_cs2.go: what PushSeq delivers when the packet that is waited for arrives.
use go_mihome.Common.{
  ℕ, zero, suc, ◌+◌, ◌%◌, ◌<◌, ◌≡◌, refl, sym, subst, ap, ◌∙◌, List, [], ◌∷◌, ◌++◌, append_assoc,
  append-nil, Option, none, some, true, ◌==◌, ltb, length, arith, All, inl, inr, Bool-cases,
  Option-cases,
}
use go_mihome.Common.Result.{Fault}
use go_mihome.Common.Bytes.{Bytes, IsBytes}
use go_mihome.Camera.Channel.Frames.{frames, frames-append, pending, IsWired}
use go_mihome.Camera.Channel.Stream.{push_total, push_stream}
use go_mihome.Camera.Channel.Ahead.{push-Keeps, length-delete_seq}
use go_mihome.Camera.Channel.Order.{with_count-eq}
use go_mihome.Camera.Channel.{
  DataChannel, push, lookup_seq, delete_seq, distance, drain, push_seq, with_count, keep_early,
}

-- The packets that follow number w without a gap, taken out of those kept, up to the first that is missing.
abbrev pub Chain : ℕ → List (ℕ × Bytes) → List Bytes → Type 0
Chain w m [] = lookup_seq ((w + 1) % 65536) m ≡ none
Chain w m (q ∷ qs) =
    (lookup_seq ((w + 1) % 65536) m ≡ some q)
    × Chain ((w + 1) % 65536) (delete_seq ((w + 1) % 65536) m) qs

abbrev pub joined : List Bytes → Bytes
joined [] = []
joined (q ∷ qs) = q ++ joined qs

abbrev pub StoresBytes : List (ℕ × Bytes) → Type 0
StoresBytes = All (λ p. IsBytes p.1)

pub lookup_seq-IsBytes :
    (k : ℕ) (m : List (ℕ × Bytes)) (p : Bytes) → StoresBytes m → lookup_seq k m ≡ some p → IsBytes p
unfolding lookup_seq
lookup_seq-IsBytes k [] p h e = absurd (ground arith)
lookup_seq-IsBytes k ((j, q) ∷ m) p h e = elim (Bool-cases (j == k)) [
  | inl s ↦
      let is : some q ≡ some p = rw (s, lookup_seq) at e in
      let same : q ≡ p = ground arith in subst IsBytes same h.0
  | inr s ↦ lookup_seq-IsBytes k m p h.1 (rw (s, lookup_seq) at e)
]

delete_seq-StoresBytes :
    (k : ℕ) (m : List (ℕ × Bytes)) → StoresBytes m → StoresBytes (delete_seq k m)
unfolding delete_seq
delete_seq-StoresBytes k [] h = tt
delete_seq-StoresBytes k ((j, q) ∷ m) h = elim (Bool-cases (j == k)) [
  | inl s ↦ rw s (delete_seq-StoresBytes k m h.1)
  | inr s ↦ rw s (h.0, delete_seq-StoresBytes k m h.1)
]

-- A channel that the loop can start from: its bytes are bytes, those kept as well.
pub record IsReady (c : DataChannel) : Type 0 where
  pub wired : IsWired c
  pub stored : StoresBytes c.push_buf

abbrev pub after : DataChannel → DataChannel
after d = record d { wait_seq = (d.wait_seq + 1) % 65536 }

abbrev pub taken : DataChannel → DataChannel
taken d = record d {
  wait_seq = (d.wait_seq + 1) % 65536;
  push_buf = delete_seq ((d.wait_seq + 1) % 65536) d.push_buf;
}

pub push-IsReady :
    (c d : DataChannel) (p : Bytes) → IsReady c → IsBytes p → push c p ≡ some (d, none) → IsReady d
push-IsReady c d p h b e =
    let (ps, queued, stream, wired, stalled) = push_stream c d p h.wired b e in
    let (w, m, s) = push-Keeps c d p none e in record { wired = wired; stored = rw m h.stored }

pub taken-IsReady : (d : DataChannel) → IsReady d → IsReady (taken d)
taken-IsReady d h = record {
  wired = record { bytes = h.wired.bytes; size = h.wired.size };
  stored = delete_seq-StoresBytes ((d.wait_seq + 1) % 65536) d.push_buf h.stored;
}

drain_total :
    (f n : ℕ) (p : Bytes) (c : DataChannel)
    → IsReady c
    → IsBytes p
    → length c.push_buf < f
    → (d : DataChannel) × (m : ℕ) × (e : Option Fault) × (drain f n p c ≡ some (d, m, e))
unfolding drain
drain_total zero n p c h b l = absurd (omega arith)
drain_total (suc f) n p c h b l =
    let (d, e, r) = push_total c p h.wired b in
    elim (Option-cases e) [
      | inr (x, s) ↦
          let run : push c p ≡ some (d, some x) = rw s at r in (d, n, some x, rw (run, drain))
      | inl s ↦
          let run : push c p ≡ some (d, none) = rw s at r in
          let k = push-IsReady c d p h b run in
          let (w, m, z) = push-Keeps c d p none run in
          let seq = (d.wait_seq + 1) % 65536 in
          elim (Option-cases (lookup_seq seq d.push_buf)) [
            | inl o ↦ (after d, n, none, rw (run, drain, o))
            | inr (q, o) ↦
                let less = (length-delete_seq seq d.push_buf).1 q o in
                let same : length d.push_buf ≡ length c.push_buf = ap length m in
                rw (run, drain, o)
                  (drain_total f (n + 1) q (taken d) (taken-IsReady d k)
                    (lookup_seq-IsBytes seq d.push_buf q k.stored o) (omega arith))
          ]
    ]

-- PushSeq ends on every packet: the fuel is enough for all the packets that are kept.
pub push_seq_total :
    (c : DataChannel) (s : ℕ) (p : Bytes)
    → IsReady c
    → IsBytes p
    → (d : DataChannel) × (n : Option ℕ) × (e : Option Fault) × (push_seq c s p ≡ some (d, n, e))
unfolding push_seq
push_seq_total c s p h b = elim (Bool-cases (distance s c.wait_seq == 0)) [
  | inl z ↦
      let (d, m, e, r) = drain_total (suc (length c.push_buf)) 1 p c h b (omega arith) in
      (d, some m, e, rw (z, r))
  | inr z ↦ elim (Bool-cases (ltb (distance s c.wait_seq) 32768)) [
    | inl l ↦ rw (z, l) ((keep_early s p c).0, (keep_early s p c).1, none, refl)
    | inr l ↦ rw (z, l) (c, some 0, none, refl)
  ]
]

-- What a run of the loop in PushSeq has done, for the packets qs that followed the first.
record Delivered (c d : DataChannel) (p : Bytes) (n m : ℕ) (qs : List Bytes) : Type 0 where
  chain : Chain c.wait_seq c.push_buf qs
  count : m ≡ n + length qs
  next : d.wait_seq ≡ (c.wait_seq + length qs + 1) % 65536
  missing : lookup_seq d.wait_seq d.push_buf ≡ none
  cut :
      (ps : List Bytes) × (d.pop_buf ≡ c.pop_buf ++ ps)
      × (frames ps ++ pending d ≡ pending c ++ (p ++ joined qs))

Chain-transport :
    (v w : ℕ) (m k : List (ℕ × Bytes)) (qs : List Bytes)
    → v ≡ w
    → m ≡ k
    → Chain v m qs
    → Chain w k qs
Chain-transport v w m k qs e f h = subst (λ x. Chain x k qs) e (subst (λ x. Chain v x qs) f h)

drain-Delivered :
    (f n : ℕ) (p : Bytes) (c d : DataChannel) (m : ℕ)
    → IsReady c
    → IsBytes p
    → c.wait_seq < 65536
    → drain f n p c ≡ some (d, m, none)
    → (qs : List Bytes) × Delivered c d p n m qs
unfolding drain pending
drain-Delivered zero n p c d m h b w r = absurd (ground arith)
drain-Delivered (suc f) n p c d m h b w r = elim (Option-cases (push c p)) [
  | inl a ↦ absurd (let no : none ≡ some (d, m, none) = rw (a, drain) at r in ground arith)
  | inr ((q, some x), a) ↦
      absurd (let no : some (q, n, some x) ≡ some (d, m, none) = rw (a, drain) at r in ground arith)
  | inr ((q, none), a) ↦
      let (ps, queued, stream, wired, stalled) = push_stream c q p h.wired b a in
      let k = push-IsReady c q p h b a in
      let (same, buf, size) = push-Keeps c q p none a in
      elim (Option-cases (lookup_seq ((q.wait_seq + 1) % 65536) q.push_buf)) [
        | inl o ↦
            let last : some (after q, n, none) ≡ some (d, m, none) = rw (a, drain, o) at r in
            let is : after q ≡ d = ground arith in
            let count : n ≡ m = ground arith in
            (
              [],
              subst (λ x. Delivered c x p n m []) is
                  (record {
                    chain = rw (same, buf) at o;
                    count = omega arith;
                    next = ap (λ v. (v + 1) % 65536) same ∙ ap (λ v. v % 65536) (omega arith);
                    missing = o;
                    cut = (ps, queued, stream ∙ ap (λ z. pending c ++ z) (sym (append-nil p)));
                  }),
            )
        | inr (t, o) ↦
            let (qs, rest) =
              drain-Delivered f (n + 1) t (taken q) d m (taken-IsReady q k)
                (lookup_seq-IsBytes ((q.wait_seq + 1) % 65536) q.push_buf t k.stored o)
                (omega arith) (rw (a, drain, o) at r) in
            let (more, queued2, stream2) = rest.cut in
            let chain : Chain q.wait_seq q.push_buf (t ∷ qs) = (o, rest.chain) in
            (
              t ∷ qs,
              record {
                chain =
                    Chain-transport q.wait_seq c.wait_seq q.push_buf c.push_buf (t ∷ qs) same buf
                      chain;
                count = (let c2 = rest.count in omega arith);
                next = (let nx = rest.next in omega arith);
                missing = rest.missing;
                cut = (
                  ps ++ more,
                  queued2 ∙ ap (λ z. z ++ more) queued ∙ append_assoc c.pop_buf ps more,
                  ap (λ z. z ++ pending d) (frames-append ps more)
                      ∙ append_assoc (frames ps) (frames more) (pending d)
                      ∙ ap (λ z. frames ps ++ z) stream2
                      ∙ sym (append_assoc (frames ps) (pending q) (t ++ joined qs))
                      ∙ ap (λ z. z ++ (t ++ joined qs)) stream
                      ∙ append_assoc (pending c) p (t ++ joined qs),
                );
              },
            )
      ]
]

-- When the packet that is waited for arrives and no push fails, PushSeq delivers it and then the
-- packets that were kept and follow it without a gap, up to the first number that is missing. The number
-- waited for moves on by as many, which is the number returned. The reader gets the bytes in that order:
-- its new frames, written out, and what then waits are what waited before, then the packets' bytes.
pub push_seq_in_order :
    (c d : DataChannel) (p : Bytes) (n : Option ℕ)
    → IsReady c
    → IsBytes p
    → c.wait_seq < 65536
    → push_seq c c.wait_seq p ≡ some (d, n, none)
    → (qs : List Bytes) × Chain c.wait_seq c.push_buf qs
      × (n ≡ some (1 + length qs))
      × (d.wait_seq ≡ (c.wait_seq + length qs + 1) % 65536)
      × (lookup_seq d.wait_seq d.push_buf ≡ none)
      × ((ps : List Bytes) × (d.pop_buf ≡ c.pop_buf ++ ps)
          × (frames ps ++ pending d ≡ pending c ++ (p ++ joined qs)))
unfolding push_seq
push_seq_in_order c d p n h b w e =
    let zero_distance : (distance c.wait_seq c.wait_seq == 0) ≡ true = ground arith in
    let run : with_count (drain (suc (length c.push_buf)) 1 p c) ≡ some (d, n, none) =
      rw (zero_distance, push_seq) at e in
    let (m, r) = with_count-eq (drain (suc (length c.push_buf)) 1 p c) d n none run in
    let (qs, x) = drain-Delivered (suc (length c.push_buf)) 1 p c d m h b w r in
    let counted : some (d, some m, none) ≡ some (d, n, none) = rw (r, with_count) at run in
    let is : n ≡ some m = ground arith in
    (qs, x.chain, is ∙ ap some x.count, x.next, x.missing, x.cut)
