-- ===== src/Camera/Snapshot.antt =====
-- camera/stream_manager.go: the worker that keeps the latest picture of a camera, and the manager of the
-- workers. What the pipeline's start returns, the times and what happens during a wait are arguments.
pub mod Accounts
pub mod Pipeline
pub mod Manager
use go_mihome.Common.{
  ℕ, zero, suc, ◌+◌, ◌-◌, ◌*◌, List, [], ◌∷◌, ◌++◌, Option, none, some, Bool, true, false, ◌&&◌,
  ◌||◌, not, if◌then◌else◌, ◌==◌, ltb,
}
use go_mihome.Common.Result.{Result, ok, err, Fault}
use go_mihome.Common.Bytes.{Bytes, bytes_eq}
use go_mihome.Lan.Runtime.Config.{second}

-- JPEGFrame; the time 0 is the zero time.
pub record JpegFrame : Type 0 where
  pub payload : Bytes
  pub captured_at : ℕ

-- cameraWorker: `started` says that startOnce is done, `closer` that a pipeline is held.
pub record CameraWorker : Type 0 where
  pub started : Bool
  pub start_err : Option Fault
  pub closer : Bool
  pub snapshot : JpegFrame
  pub has_frame : Bool
  pub frame_timeout : ℕ

-- The pipelines that are started and closed.
pub data PipelineCall : Type 0 where
  start close : PipelineCall

abbrev pub no_frame : JpegFrame
no_frame = record { payload = []; captured_at = 0 }

unfoldable pub new_worker : CameraWorker
new_worker = record {
  started = false;
  start_err = none;
  closer = false;
  snapshot = no_frame;
  has_frame = false;
  frame_timeout = 0;
}

unfoldable pub snapshot_wait_timeout : CameraWorker → ℕ
snapshot_wait_timeout w = if ltb 0 w.frame_timeout then w.frame_timeout else 15 * second

-- A frame of the future is not expired: its age is negative in the source and 0 here.
unfoldable pub snapshot_expired : ℕ → CameraWorker → Bool
unfolding snapshot_wait_timeout
snapshot_expired now w =
    if not w.has_frame || bytes_eq w.snapshot.payload []
    then false
    else if w.snapshot.captured_at == 0
    then true
    else ltb (snapshot_wait_timeout w) (now - w.snapshot.captured_at)

unfoldable pub current_snapshot : ℕ → CameraWorker → Option JpegFrame
unfolding snapshot_expired
current_snapshot now w = if not w.has_frame || snapshot_expired now w then none else some w.snapshot

unfoldable pub last_snapshot : CameraWorker → Option JpegFrame
last_snapshot w =
    if not w.has_frame || bytes_eq w.snapshot.payload [] then none else some w.snapshot

-- The body of startOnce.Do with what the factory returns.
abbrev run_start : Option Fault → CameraWorker → CameraWorker × List PipelineCall
run_start (some e) w = (record w { started = true; start_err = some e }, [])
run_start none w = (record w { started = true; closer = true }, start ∷ [])

abbrev do_once : Option Fault → CameraWorker → CameraWorker × List PipelineCall
do_once outcome w = if w.started then (w, []) else run_start outcome w

abbrev forget_failure : Option Fault → CameraWorker → CameraWorker
forget_failure none w = w
forget_failure (some e) w = record w { start_err = none; started = false }

-- The error is the worker's start_err afterwards.
unfoldable pub ensure_started : Option Fault → CameraWorker → CameraWorker × List PipelineCall
ensure_started outcome w = do_once outcome (forget_failure w.start_err w)

unfoldable pub restart_pipeline : Bool → CameraWorker → CameraWorker × List PipelineCall
restart_pipeline clear w = (
  record w {
    start_err = none;
    started = false;
    closer = false;
    snapshot = if clear then no_frame else w.snapshot;
    has_frame = if clear then false else w.has_frame;
  },
  if w.closer then close ∷ [] else [],
)

-- The frame is kept; all who wait are woken, unless it has no payload.
unfoldable pub on_jpeg : ℕ → JpegFrame → CameraWorker → CameraWorker × Bool
on_jpeg now f w = if bytes_eq f.payload [] then (w, false) else (
  record w {
    snapshot = record f { captured_at = if f.captured_at == 0 then now else f.captured_at };
    has_frame = true;
  },
  true,
)

-- How a wait ends: the context is done, the time is over, or the pipeline delivers a frame.
pub data Wait : Type 0 where
  cancelled : Fault → Wait
  timed_out : Wait
  arrived : ℕ → JpegFrame → Wait

-- The state, the pipelines started and closed, and the result.
abbrev pub Outcome : Type 0
Outcome = CameraWorker × List PipelineCall × Result JpegFrame

abbrev pub give_up : Fault → CameraWorker → Outcome
give_up e w = let (v, calls) = restart_pipeline true w in (v, calls, err e)

-- What is done with the frame that the worker has when the waiting goroutine is woken.
abbrev pub woken : Fault → CameraWorker → Outcome
woken unavailable w =
    if not w.has_frame || bytes_eq w.snapshot.payload []
    then give_up unavailable w
    else (w, [], ok w.snapshot)

-- The wait itself. A frame with no payload wakes nobody, so that the time runs out.
unfoldable pub wait : Fault → Wait → CameraWorker → Outcome
unfolding on_jpeg restart_pipeline
wait unavailable (cancelled e) w = (w, [], err e)
wait unavailable timed_out w = give_up unavailable w
wait unavailable (arrived now f) w =
    let (v, wakes) = on_jpeg now f w in if wakes then woken unavailable v else give_up unavailable v

-- waitForSnapshot; `unavailable` is ErrCameraFrameUnavailable.
unfoldable pub wait_for_snapshot : Fault → ℕ → Wait → CameraWorker → Outcome
unfolding snapshot_expired wait
wait_for_snapshot unavailable now how w =
    if w.has_frame && not (snapshot_expired now w)
    then (w, [], ok w.snapshot)
    else wait unavailable how w

-- One round of the loop of GetSnapshot: what the start returns, the time, and how a wait ends. `is_bridge`
-- and `is_frame` are errors.Is with ErrCameraBridgeUnavailable and ErrCameraFrameUnavailable.
pub record Attempt : Type 0 where
  pub outcome : Option Fault
  pub now : ℕ
  pub how : Wait

abbrev pub and_then : List PipelineCall → Outcome → Outcome
and_then before (w, calls, r) = (w, before ++ calls, r)

module _ (unavailable : Fault) (is_bridge is_frame : Fault → Bool) where
  -- The last round, and a round that is followed by another one.
  abbrev pub ended : Bool → (CameraWorker → Outcome) → Outcome → Outcome
  ended retry next (w, calls, ok f) = (w, calls, ok f)
  ended retry next (w, calls, err e) =
      if retry && is_frame e then and_then calls (next w) else (w, calls, err e)

  abbrev pub tried : Attempt → Bool → (CameraWorker → Outcome) → CameraWorker → Outcome
  tried a retry next w = elim (current_snapshot a.now w) [
    | some f ↦ (w, [], ok f)
    | none ↦
        if snapshot_expired a.now w
        then (let (v, calls) = restart_pipeline true w in and_then calls (next v))
        else ended retry next (wait_for_snapshot unavailable a.now a.how w)
  ]

  abbrev pub after_start :
      Attempt → Bool → (CameraWorker → Outcome) → Option Fault → CameraWorker → Outcome
  after_start a retry next none w = tried a retry next w
  after_start a retry next (some e) w =
      if retry && is_bridge e
      then (let (v, calls) = restart_pipeline true w in and_then calls (next v))
      else (w, [], err e)

  unfoldable pub round : Attempt → Bool → (CameraWorker → Outcome) → CameraWorker → Outcome
  unfolding ensure_started current_snapshot snapshot_expired restart_pipeline wait_for_snapshot
  round a retry next w =
      let (v, calls) = ensure_started a.outcome w in
      and_then calls (after_start a retry next v.start_err v)

  -- GetSnapshot: two rounds.
  unfoldable pub get_snapshot : Attempt → Attempt → CameraWorker → Outcome
  unfolding round
  get_snapshot first second = round first true (round second false (λ w. (w, [], err unavailable)))
