-- ===== src/Catalog/Request.antt =====
-- The calls of domain.SpecUploadRepository in internal/modules/catalog/domain/upload.go.
use blueprint_audio_backend.Common.Strings.{Text}
use blueprint_audio_backend.Common.{ℕ}
use blueprint_audio_backend.Catalog.Domain.{
  Spec, SpecUploadAsset, SpecUploadSession, ProcessedSpecFiles,
}

-- the methods of domain.SpecUploadRepository that write
pub data Op : Type 0 where
  create_session : SpecUploadSession → Op
  update_session_metadata : ℕ → ℕ → Text → Op
  replace_asset : ℕ → ℕ → SpecUploadAsset → Op
  verify_asset : ℕ → ℕ → ℕ → ℕ → Text → Text → Op
  mark_session_failed : ℕ → Text → Op
  finalize_upload : SpecUploadSession → Spec → ℕ → Op
  expire_upload_sessions : ℕ → Op
  requeue_stale_jobs : ℕ → Op
  claim_next_job : Text → Op
  heartbeat_job : ℕ → Text → Op
  complete_job : ℕ → Text → ProcessedSpecFiles → Op
  fail_job : ℕ → Text → Text → Op
