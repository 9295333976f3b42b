-- ===== src/Camera/Snapshot/Accounts.antt =====
-- camera/stream_manager.go: the pipelines started and closed by the parts of GetSnapshot.
use go_mihome.Common.{
  ℕ, ◌+◌, ◌≤◌, ◌≡◌, refl, List, [], ◌∷◌, ◌++◌, Option, none, some, Bool, true, false, if◌then◌else◌,
  arith,
}
use go_mihome.Common.Result.{Fault}
use go_mihome.Camera.Snapshot.{
  CameraWorker, PipelineCall, start, close, ensure_started, restart_pipeline,
}

abbrev pub Held : Bool → Bool → Option Fault → Type 0
Held false started e = Unit
Held true started e = (started ≡ true) × (e ≡ none)

-- A pipeline that is held has been started, and without an error.
abbrev pub IsHeld : CameraWorker → Type 0
IsHeld w = Held w.closer w.started w.start_err

abbrev pub starts : List PipelineCall → ℕ
starts [] = 0
starts (start ∷ cs) = 1 + starts cs
starts (close ∷ cs) = starts cs

abbrev pub closes : List PipelineCall → ℕ
closes [] = 0
closes (start ∷ cs) = closes cs
closes (close ∷ cs) = 1 + closes cs

abbrev pub held : CameraWorker → ℕ
held w = if w.closer then 1 else 0

pub starts-append : (xs ys : List PipelineCall) → starts (xs ++ ys) ≡ starts xs + starts ys
starts-append [] ys = omega arith
starts-append (start ∷ cs) ys = omega (arith, starts-append cs ys)
starts-append (close ∷ cs) ys = omega (arith, starts-append cs ys)

pub closes-append : (xs ys : List PipelineCall) → closes (xs ++ ys) ≡ closes xs + closes ys
closes-append [] ys = omega arith
closes-append (start ∷ cs) ys = omega (arith, closes-append cs ys)
closes-append (close ∷ cs) ys = omega (arith, closes-append cs ys)

-- From w the calls lead to v: the pipelines held and started are those closed and held, and at most n are
-- started.
abbrev pub Accounts : ℕ → CameraWorker → CameraWorker → List PipelineCall → Type 0
Accounts n w v calls =
    IsHeld v × (held w + starts calls ≡ closes calls + held v) × (starts calls ≤ n)

pub Accounts-compose :
    (n m : ℕ) (u v w : CameraWorker) (xs ys : List PipelineCall)
    → Accounts n u v xs
    → Accounts m v w ys
    → Accounts (n + m) u w (xs ++ ys)
Accounts-compose n m u v w xs ys (h, e, l) (h', e', l') = (
  h',
  omega (arith, starts-append xs ys, closes-append xs ys),
  omega (arith, starts-append xs ys),
)

-- The calls and the state of a step, with its result left out.
abbrev pub Keeps : ℕ → CameraWorker → CameraWorker × List PipelineCall → Type 0
Keeps n w (v, calls) = Accounts n w v calls

pub once-Accounts :
    (outcome e : Option Fault) (started closer : Bool) (w : CameraWorker)
    → Held closer started e
    → Keeps 1
        (record w { started = started; start_err = e; closer = closer })
        (ensure_started outcome (record w { started = started; start_err = e; closer = closer }))
unfolding ensure_started
once-Accounts (some f) none true closer w h = (h, omega arith, omega arith)
once-Accounts none none true closer w h = (h, omega arith, omega arith)
once-Accounts (some f) none false false w h = (tt, omega arith, omega arith)
once-Accounts none none false false w h = ((refl, refl), omega arith, omega arith)
once-Accounts (some f) (some e) started false w h = (tt, omega arith, omega arith)
once-Accounts none (some e) started false w h = ((refl, refl), omega arith, omega arith)
once-Accounts outcome none false true w (h, k) = cc
once-Accounts outcome (some e) started true w (h, k) = absurd (ground arith)

pub ensure-Accounts :
    (outcome : Option Fault) (w : CameraWorker) → IsHeld w → Keeps 1 w (ensure_started outcome w)
ensure-Accounts outcome w h = once-Accounts outcome w.start_err w.started w.closer w h

pub restart-Accounts : (clear : Bool) (w : CameraWorker) → Keeps 0 w (restart_pipeline clear w)
unfolding restart_pipeline
restart-Accounts clear w = (tt, closed w.closer, none_started w.closer)
  where
    closed :
        (b : Bool)
        → (if b then 1 else 0) + starts (if b then close ∷ [] else [])
          ≡ closes (if b then close ∷ [] else []) + 0
    closed true = omega arith
    closed false = omega arith

    none_started : (b : Bool) → starts (if b then close ∷ [] else []) ≤ 0
    none_started true = omega arith
    none_started false = omega arith
