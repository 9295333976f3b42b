-- ===== src/Camera/Snapshot/Manager.antt =====
-- camera/stream_manager.go: the manager, which has one worker for each camera.
use go_mihome.Common.{
  ◌≡◌, refl, sym, ap, ◌∙◌, Option, none, some, Bool, true, false, if◌then◌else◌, Option-cases, inl,
  inr, ◌==◌,
}
use go_mihome.Common.Int.{ℤ, pos, negsuc}
use go_mihome.Common.Text.{trim_space}
use go_mihome.Common.Bytes.{Bytes, bytes_eq, bytes_eq_iff}
use go_mihome.Common.Dict.{Dict, lookup, insert, lookup-insert, lookup-insert_self}
use go_mihome.Camera.Snapshot.{CameraWorker, JpegFrame, new_worker, last_snapshot}

-- CameraStreamDescriptor.
pub record Descriptor : Type 0 where
  pub camera_id : Bytes
  pub model : Bytes
  pub region : Bytes
  pub access_token : Bytes
  pub channel_count : ℤ
  pub video_quality : Bytes

pub record Managed : Type 0 where
  pub desc : Descriptor
  pub worker : CameraWorker

abbrev at_least_one : ℤ → ℤ
at_least_one (pos n) = if n == 0 then pos 1 else pos n
at_least_one (negsuc n) = pos 1

-- The descriptor as ensureWorker puts it in order.
unfoldable pub normalized : Descriptor → Descriptor
normalized d = record d {
  camera_id = trim_space d.camera_id;
  model = trim_space d.model;
  region = trim_space d.region;
  access_token = trim_space d.access_token;
  channel_count = at_least_one d.channel_count;
}

-- ensureWorker: the table of workers, and the worker of the camera, given what the table has for it.
abbrev found_or_new : Descriptor → Dict Managed → Option Managed → Dict Managed × Managed
found_or_new n workers (some m) = (workers, m)
found_or_new n workers none =
    let m : Managed = record { desc = n; worker = new_worker } in (insert n.camera_id m workers, m)

unfoldable pub ensure_worker : Descriptor → Dict Managed → Dict Managed × Managed
unfolding normalized
ensure_worker d workers =
    let n = normalized d in found_or_new n workers (lookup n.camera_id workers)

unfoldable pub cached_snapshot : Bytes → Dict Managed → Option JpegFrame
cached_snapshot camera_id workers = elim (lookup (trim_space camera_id) workers) [
  | none ↦ none
  | some m ↦ last_snapshot m.worker
]

ensure_found :
    (d : Descriptor) (workers : Dict Managed) (m : Managed)
    → lookup (trim_space d.camera_id) workers ≡ some m
    → ensure_worker d workers ≡ (workers, m)
unfolding ensure_worker normalized
ensure_found d workers m f = ap (found_or_new (normalized d) workers) f

ensure_new :
    (d : Descriptor) (workers : Dict Managed)
    → lookup (trim_space d.camera_id) workers ≡ none
    → let m : Managed = record { desc = normalized d; worker = new_worker } in
      ensure_worker d workers ≡ (insert (trim_space d.camera_id) m workers, m)
unfolding ensure_worker normalized
ensure_new d workers f = ap (found_or_new (normalized d) workers) f

-- The table has the worker returned under the trimmed identifier of the camera, the other cameras keep
-- theirs, and another descriptor of the same camera gets the same worker with the descriptor that it was
-- made from: a new access token, model or region in it is dropped.
pub ensure_worker_once :
    (d e : Descriptor) (id : Bytes) (workers : Dict Managed)
    → trim_space e.camera_id ≡ trim_space d.camera_id
    → let (after, m) = ensure_worker d workers in
      (ensure_worker e after ≡ (after, m))
      × (lookup (trim_space d.camera_id) after ≡ some m)
      × (lookup id after
          ≡ (if bytes_eq (trim_space d.camera_id) id then some m else lookup id workers))
ensure_worker_once d e id workers same =
    elim (Option-cases (lookup (trim_space d.camera_id) workers)) [
      | inr (m, f) ↦ rw (ensure_found d workers m f) (
        ensure_found e workers m (rw same f),
        f,
        kept m f (bytes_eq (trim_space d.camera_id) id) refl,
      )
      | inl f ↦
          let m : Managed = record { desc = normalized d; worker = new_worker } in
          let after = insert (trim_space d.camera_id) m workers in
          let here : lookup (trim_space d.camera_id) after ≡ some m =
            lookup-insert_self (trim_space d.camera_id) m workers in
          rw (ensure_new d workers f) (
            ensure_found e after m (rw same here),
            here,
            lookup-insert (trim_space d.camera_id) id m workers,
          )
    ]
  where
    kept :
        (m : Managed)
        → lookup (trim_space d.camera_id) workers ≡ some m
        → (b : Bool) → bytes_eq (trim_space d.camera_id) id ≡ b
        → lookup id workers ≡ (if b then some m else lookup id workers)
    kept m f false h = refl
    kept m f true h =
        ap (λ k. lookup k workers) (sym ((bytes_eq_iff (trim_space d.camera_id) id).0 h)) ∙ f
