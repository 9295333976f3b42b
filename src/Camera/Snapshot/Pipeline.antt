-- ===== src/Camera/Snapshot/Pipeline.antt =====
-- camera/stream_manager.go: the pipelines that a worker starts, holds and closes.
use go_mihome.Common.{
  ℕ, ◌+◌, ◌≤◌, ◌≡◌, List, [], Option, none, some, Bool, true, false, ◌&&◌, ◌||◌, not, ◌==◌,
  if◌then◌else◌, arith, Bool-cases, Option-cases, subst, inl, inr,
}
use go_mihome.Common.Result.{Result, ok, err, Fault}
use go_mihome.Common.Bytes.{bytes_eq}
use go_mihome.Camera.Snapshot.{
  JpegFrame, CameraWorker, PipelineCall, give_up, woken, ended, tried, after_start, ensure_started,
  restart_pipeline, on_jpeg, Wait, cancelled, timed_out, arrived, Outcome, wait, wait_for_snapshot,
  Attempt, and_then, round, get_snapshot, snapshot_expired, current_snapshot,
}
use go_mihome.Camera.Snapshot.Accounts.{
  IsHeld, Accounts, Accounts-compose, ensure-Accounts, restart-Accounts,
}

-- The same of an outcome.
abbrev pub Steady : ℕ → CameraWorker → Outcome → Type 0
Steady n w (v, calls, r) = Accounts n w v calls

still : (w : CameraWorker) (r : Result JpegFrame) → IsHeld w → Steady 0 w (w, [], r)
still w r h = (h, omega arith, omega arith)

jpeg-IsHeld : (now : ℕ) (f : JpegFrame) (w : CameraWorker) → IsHeld w → IsHeld (on_jpeg now f w).0
unfolding on_jpeg
jpeg-IsHeld now f w h = elim (Bool-cases (bytes_eq f.payload [])) [
  | inl e ↦ rw e h
  | inr e ↦ rw e h
]

give_up-Steady : (e : Fault) (w : CameraWorker) → Steady 0 w (give_up e w)
give_up-Steady e w = restart-Accounts true w

woken-Steady : (e : Fault) (w : CameraWorker) → IsHeld w → Steady 0 w (woken e w)
woken-Steady e w h = elim (Bool-cases (not w.has_frame || bytes_eq w.snapshot.payload [])) [
  | inl k ↦ rw k (give_up-Steady e w)
  | inr k ↦ rw k (still w (ok w.snapshot) h)
]

wait-Steady : (e : Fault) (how : Wait) (w : CameraWorker) → IsHeld w → Steady 0 w (wait e how w)
unfolding wait on_jpeg
wait-Steady e (cancelled f) w h = still w (err f) h
wait-Steady e timed_out w h = give_up-Steady e w
wait-Steady e (arrived now f) w h = elim (Bool-cases (bytes_eq f.payload [])) [
  | inl k ↦ rw k (give_up-Steady e w)
  | inr k ↦ rw k (
      woken-Steady e
        (record w {
          snapshot = record f { captured_at = if f.captured_at == 0 then now else f.captured_at };
          has_frame = true;
        })
        h)
]

wait_for-Steady :
    (e : Fault) (now : ℕ) (how : Wait) (w : CameraWorker)
    → IsHeld w
    → Steady 0 w (wait_for_snapshot e now how w)
unfolding wait_for_snapshot
wait_for-Steady e now how w h = elim (Bool-cases (w.has_frame && not (snapshot_expired now w))) [
  | inl k ↦ rw k (still w (ok w.snapshot) h)
  | inr k ↦ rw k (wait-Steady e how w h)
]

module _ (unavailable : Fault) (is_bridge is_frame : Fault → Bool) where
  abbrev Next : ℕ → (CameraWorker → Outcome) → Type 0
  Next m next = (v : CameraWorker) → IsHeld v → Steady m v (next v)

  more :
      (m n : ℕ) (w v : CameraWorker) (calls : List PipelineCall)
      → n ≤ m
      → Accounts n w v calls
      → Accounts m w v calls
  more m n w v calls l (h, e, k) = (h, e, omega arith)

  then-Steady :
      (n m : ℕ) (w v : CameraWorker) (calls : List PipelineCall) (o : Outcome)
      → Accounts n w v calls
      → Steady m v o
      → Steady (n + m) w (and_then calls o)
  then-Steady n m w v calls (u, later, r) a b = Accounts-compose n m w v u calls later a b

  then_quietly-Steady :
      (m : ℕ) (w v : CameraWorker) (calls : List PipelineCall) (o : Outcome)
      → Accounts 0 w v calls
      → Steady m v o
      → Steady m w (and_then calls o)
  then_quietly-Steady m w v calls o a b =
      let zero_more : 0 + m ≡ m = omega arith in
      subst (λ k. Steady k w (and_then calls o)) zero_more (then-Steady 0 m w v calls o a b)

  restarted-Steady :
      (m : ℕ) (next : CameraWorker → Outcome) (w : CameraWorker)
      → Next m next
      → Steady m w (and_then (restart_pipeline true w).1 (next (restart_pipeline true w).0))
  restarted-Steady m next w go =
      let (v, calls) = restart_pipeline true w in
      let a = restart-Accounts true w in then_quietly-Steady m w v calls (next v) a (go v a.0)

  ended-Steady :
      (m : ℕ) (retry : Bool) (next : CameraWorker → Outcome) (w : CameraWorker) (o : Outcome)
      → Next m next
      → Steady 0 w o
      → Steady m w (ended unavailable is_bridge is_frame retry next o)
  ended-Steady m retry next w (v, calls, ok f) go a = more m 0 w v calls (omega arith) a
  ended-Steady m retry next w (v, calls, err e) go a = elim (Bool-cases (retry && is_frame e)) [
    | inl k ↦ rw k (then_quietly-Steady m w v calls (next v) a (go v a.0))
    | inr k ↦ rw k (more m 0 w v calls (omega arith) a)
  ]

  tried-Steady :
      (m : ℕ) (a : Attempt) (retry : Bool) (next : CameraWorker → Outcome) (w : CameraWorker)
      → Next m next
      → IsHeld w
      → Steady m w (tried unavailable is_bridge is_frame a retry next w)
  tried-Steady m a retry next w go h = elim (Option-cases (current_snapshot a.now w)) [
    | inr (f, k) ↦ rw (k, tried) (more m 0 w w [] (omega arith) (still w (ok f) h))
    | inl k ↦ elim (Bool-cases (snapshot_expired a.now w)) [
      | inl x ↦ rw (k, tried) (rw x (restarted-Steady m next w go))
      | inr x ↦
          rw (k, tried)
            (rw x (
              ended-Steady m retry next w (wait_for_snapshot unavailable a.now a.how w) go
                (wait_for-Steady unavailable a.now a.how w h)))
    ]
  ]

  after_start-Steady :
      (m : ℕ) (a : Attempt) (retry : Bool) (next : CameraWorker → Outcome) (e : Option Fault)
      (w : CameraWorker)
      → Next m next
      → IsHeld w
      → Steady m w (after_start unavailable is_bridge is_frame a retry next e w)
  after_start-Steady m a retry next none w go h = tried-Steady m a retry next w go h
  after_start-Steady m a retry next (some e) w go h = elim (Bool-cases (retry && is_bridge e)) [
    | inl k ↦ rw k (restarted-Steady m next w go)
    | inr k ↦ rw k (more m 0 w w [] (omega arith) (still w (err e) h))
  ]

  round-Steady :
      (m : ℕ) (a : Attempt) (retry : Bool) (next : CameraWorker → Outcome) (w : CameraWorker)
      → Next m next
      → IsHeld w
      → Steady (1 + m) w (round unavailable is_bridge is_frame a retry next w)
  unfolding round
  round-Steady m a retry next w go h =
      let (v, calls) = ensure_started a.outcome w in
      let started = ensure-Accounts a.outcome w h in
      then-Steady 1 m w v calls
        (after_start unavailable is_bridge is_frame a retry next v.start_err v) started
        (after_start-Steady m a retry next v.start_err v go started.0)

  -- However the pipeline starts and the waits end, asking a worker for a picture that holds a pipeline only
  -- if it has been started without an error starts at most two pipelines, and the pipelines that the worker held or started are those that it has closed and the one,
  -- if any, that it holds afterwards; a pipeline that it holds has been started without an error.
  pub get_snapshot-Steady :
      (first second : Attempt) (w : CameraWorker)
      → IsHeld w
      → Steady 2 w (get_snapshot unavailable is_bridge is_frame first second w)
  unfolding get_snapshot
  get_snapshot-Steady first second w h =
      round-Steady 1 first true
        (round unavailable is_bridge is_frame second false (λ v. (v, [], err unavailable))) w
        (λ v k.
          round-Steady 0 second false (λ u. (u, [], err unavailable)) v
            (λ u l. still u (err unavailable) l) k)
        h
