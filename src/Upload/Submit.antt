-- ===== src/Upload/Submit.antt =====
-- Complete of internal/modules/catalog/application/upload_service.go: the verification of every
-- asset, and the submission of the upload to the queue.
use blueprint_audio_backend.Common.{
  ℕ, Option, none, List, [], ◌∷◌, ◌==◌, ◌||◌, not, ltb, Text, text, text_eq,
}
use blueprint_audio_backend.Common.Strings.{Unicode, trim_space}
use blueprint_audio_backend.Db.{
  Result, ok, err, pure, fail, fail_if, fail_none, ◌>>=◌, ◌>>◌, time_now, new_uuid,
}
use blueprint_audio_backend.Catalog.Domain.{
  Error, invalid_upload, upload_expired, upload_state, uuid, decoding, UploadStatus,
  ProcessingStatus, Category, Spec, SpecUploadAsset, SpecUploadSession,
}
use blueprint_audio_backend.Catalog.Sessions.{get_session}
use blueprint_audio_backend.Catalog.Jobs.{finalize_upload}
use blueprint_audio_backend.Catalog.History.{new_job}
use blueprint_audio_backend.Upload.Files.{validate_ready_assets}
use blueprint_audio_backend.Upload.Site.{Objects, Action, lift, from, attempt}
use blueprint_audio_backend.Upload.Service.{
  get_owned_session_spec, verify_uploaded_object, verified_asset,
}

-- Package unicode's tables, and the object store.
module _ (u : Unicode) (objects : Objects) where
  -- Complete's loop over session.Assets
  unfoldable pub verify_assets : List SpecUploadAsset → Action (List SpecUploadAsset)
  verify_assets [] = pure []
  verify_assets (asset ∷ assets) = do
    info ← verify_uploaded_object u objects asset
    rest ← verify_assets assets
    pure (verified_asset u objects asset info ∷ rest)

-- Once a completed upload has left the uploading state, its stored spec is the answer.
abbrev pub if_submitted : UploadStatus → Action Spec → Action Spec → Action Spec
if_submitted UploadStatus.queued done other = done
if_submitted UploadStatus.processing done other = done
if_submitted UploadStatus.completed done other = done
if_submitted _ done other = other

-- a FinalizeUpload that finds another state than uploading
abbrev pub retry_complete : ℕ → ℕ → Result Error SpecUploadSession → Action Spec
retry_complete upload_id producer_id (err e) = fail upload_state
retry_complete upload_id producer_id (ok current) =
    if_submitted current.status (get_owned_session_spec current producer_id) (fail upload_state)

abbrev pub after_finalize : ℕ → ℕ → Spec → Result Error (Unit {0}) → Action Spec
after_finalize upload_id producer_id spec (ok tt) = pure spec
after_finalize upload_id producer_id spec (err upload_state) =
    attempt (lift (get_session upload_id producer_id)) >>= λ current.
    retry_complete upload_id producer_id current
after_finalize upload_id producer_id spec (err e) = fail e

-- the stored metadata without what only processing may set
abbrev pub processing_spec : Spec → Spec
processing_spec spec = record spec {
  processing_status = ProcessingStatus.processing;
  image_url = [];
  preview_url = [];
  wav_url = none;
  stems_url = none;
  duration = 0;
  waveform_peaks = [];
}

-- Package unicode's tables, json.Unmarshal of a spec, and the object store.
module _ (u : Unicode) (decode : Text → Option Spec) (objects : Objects) where
  -- Complete from its check of ExpiresAt on
  unfoldable pub complete_uploading : SpecUploadSession → ℕ → ℕ → Action Spec
  complete_uploading session upload_id producer_id = do
    now ← time_now
    fail_if (ltb session.expires_at now) upload_expired
    from (validate_ready_assets u Category.beat session.assets)
    assets ← verify_assets u objects session.assets
    fail_if (text_eq (trim_space u session.metadata) (text "{}")) invalid_upload
    spec ← fail_none (decode session.metadata) decoding
    fail_if (not (spec.id == session.spec_id) || not (spec.producer_id == producer_id)) upload_state
    job_id ← new_uuid uuid
    result ← attempt (
        lift (
          finalize_upload (record session { assets = assets }) (processing_spec spec)
            (new_job job_id spec.id upload_id)))
    after_finalize upload_id producer_id (processing_spec spec) result

  abbrev pub by_status : UploadStatus → SpecUploadSession → ℕ → ℕ → Action Spec
  by_status UploadStatus.uploading session upload_id producer_id =
      complete_uploading session upload_id producer_id
  by_status UploadStatus.expired session upload_id producer_id = fail upload_expired
  by_status UploadStatus.failed session upload_id producer_id = fail upload_state
  by_status UploadStatus.unset session upload_id producer_id = fail upload_state
  by_status _ session upload_id producer_id = get_owned_session_spec session producer_id

  unfoldable pub complete : ℕ → ℕ → Action Spec
  complete upload_id producer_id = do
    session ← lift (get_session upload_id producer_id)
    by_status session.status session upload_id producer_id
