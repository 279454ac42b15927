-- ===== src/Catalog/Jobs.antt =====
-- The processing queue: FinalizeUpload to FailJob of
-- internal/modules/catalog/infrastructure/persistence/postgres/upload_repo.go.
pub mod Outcomes
pub mod Finalize
pub mod Oldest
pub mod Soundness
pub mod Leases
pub mod Requeue
pub mod Enqueue
use blueprint_audio_backend.Common.Strings.{Text, text, text_eq}
use blueprint_audio_backend.Common.{
  ℕ, Bool, true, false, Option, none, some, List, [], ◌∷◌, ◌++◌, ◌==◌, ◌||◌, ◌&&◌, not, map,
  if◌then◌else◌, ltb, leb, exists_where, find_where, select_where, update_where, count_where,
  member,
}
use blueprint_audio_backend.Db.{
  World, Result, ok, err, M, pure, fail, fail_if, fail_none, ◌>>=◌, ◌>>◌, statement, query, execute,
  insert, time_now, new_uuid, transaction,
}
use blueprint_audio_backend.Catalog.Domain.{
  Error, invalid_upload, upload_not_found, upload_forbidden, upload_expired, upload_state,
  no_processing_job, database, uuid, UploadStatus, ProcessingJobStatus, ProcessingStatus, Spec,
  SpecUploadAsset, SpecUploadSession, SpecProcessingJob, ProcessingBundle, ProcessedSpecFiles,
  is_uploading, is_queued, is_processing,
}
use blueprint_audio_backend.Catalog.Tables.{
  Store, session_is, job_is, spec_is, job_violates, option_text_eq, order_by_kind,
}
use blueprint_audio_backend.Catalog.Sessions.{Action, id_or_new, rows_affected_one, clear_error}
use blueprint_audio_backend.Catalog.Specs.{create_spec_tx}

abbrev pub store_verified : ℕ → ℕ → SpecUploadAsset → ℕ → Action ℕ
store_verified session_id now asset size =
    let p = λ (a : SpecUploadAsset). a.id == asset.id && a.session_id == session_id in
    execute database (λ _ s. (
      count_where p s.assets,
      record s {
        assets =
            update_where p
              (λ a. record a {
                actual_size = some size;
                actual_content_type = asset.actual_content_type;
                etag = asset.etag;
                updated_at = now;
              })
              s.assets;
      },
    ))

-- FinalizeUpload's loop over session.Assets
unfoldable pub store_assets : ℕ → ℕ → List SpecUploadAsset → Action (Unit {0})
store_assets session_id now [] = pure tt
store_assets session_id now (asset ∷ rest) = do
  size ← fail_none asset.actual_size invalid_upload
  rows ← store_verified session_id now asset size
  rows_affected_one rows
  store_assets session_id now rest

abbrev pub insert_job : SpecProcessingJob → Action (Unit {0})
insert_job job =
    insert database database (job_violates job) (λ _ s. record s { jobs = s.jobs ++ job ∷ [] })

-- WHERE id = $1 AND status = 'uploading'
abbrev pub still_uploading : ℕ → SpecUploadSession → Bool
still_uploading id r = r.id == id && is_uploading r.status

abbrev pub set_status : UploadStatus → ℕ → SpecUploadSession → SpecUploadSession
set_status status now r = record r { status = status; updated_at = now }

-- SET status = 'queued', error_message = NULL, updated_at = NOW()
abbrev pub queued_session : ℕ → SpecUploadSession → SpecUploadSession
queued_session now r = set_status UploadStatus.queued now (clear_error now r)

-- UPDATE spec_upload_sessions SET status = 'queued', error_message = NULL …
abbrev pub queue_session : ℕ → ℕ → Action ℕ
queue_session id now = execute database (λ _ s. (
  count_where (still_uploading id) s.sessions,
  record s { sessions = update_where (still_uploading id) (queued_session now) s.sessions },
))

abbrev pub queued_job : ℕ → ℕ → ℕ → ℕ → SpecProcessingJob → SpecProcessingJob
queued_job id spec_id session_id now job = record job {
  id = id;
  spec_id = spec_id;
  session_id = session_id;
  status = ProcessingJobStatus.queued;
  created_at = now;
  updated_at = now;
}

-- the row that FinalizeUpload locks passes all its checks
unfoldable pub check_finalizable : SpecUploadSession → Spec → Action (Unit {0})
check_finalizable session spec = do
  found ← query database (λ s. find_where (session_is session.id) s.sessions)
  locked ← fail_none found upload_not_found
  fail_if (not (locked.producer_id == session.producer_id)) upload_forbidden
  fail_if (not (locked.spec_id == spec.id) || not (is_uploading locked.status)) upload_state
  checked_at ← time_now
  fail_if (ltb locked.expires_at checked_at) upload_expired

-- the end of FinalizeUpload: the job's INSERT and the session's UPDATE
unfoldable pub enqueue : ℕ → ℕ → SpecProcessingJob → Action (Unit {0})
enqueue session_id tx_now job = do
  insert_job job
  rows ← queue_session session_id tx_now
  rows_affected_one rows

abbrev pub create_job : SpecUploadSession → ℕ → SpecProcessingJob → ℕ → Action (Unit {0})
create_job session tx_now job spec_id = do
  now ← time_now
  id ← id_or_new job.id
  enqueue session.id tx_now (queued_job id spec_id session.id now job)

abbrev pub finalize_body : SpecUploadSession → Spec → SpecProcessingJob → ℕ → Action (Unit {0})
finalize_body session spec job tx_now = do
  check_finalizable session spec
  store_assets session.id tx_now session.assets
  spec_id ← create_spec_tx spec
  create_job session tx_now job spec_id

unfoldable pub finalize_upload : SpecUploadSession → Spec → SpecProcessingJob → Action (Unit {0})
finalize_upload session spec job = transaction database (finalize_body session spec job)

abbrev pub is_expired : ℕ → SpecUploadSession → Bool
is_expired before r = is_uploading r.status && ltb r.expires_at before

unfoldable pub expire_upload_sessions : ℕ → Action ℕ
expire_upload_sessions expired_before = execute database (λ now s. (
  count_where (is_expired expired_before) s.sessions,
  record s {
    sessions =
        update_where (is_expired expired_before)
          (λ r. record r {
            status = UploadStatus.expired;
            error_message = some (text "upload session expired");
            completed_at = some now;
            updated_at = now;
          })
          s.sessions;
  },
))

-- `locked_at < $1`, which a null does not satisfy
abbrev pub locked_before : Option ℕ → ℕ → Bool
locked_before none before = false
locked_before (some at) before = ltb at before

abbrev pub is_stale : ℕ → SpecProcessingJob → Bool
is_stale before j = is_processing j.status && locked_before j.locked_at before

abbrev pub requeued : ℕ → SpecProcessingJob → SpecProcessingJob
requeued now j = record j {
  status = ProcessingJobStatus.queued;
  worker_id = none;
  locked_at = none;
  updated_at = now;
}

-- RETURNING session_id
abbrev pub stale_sessions : ℕ → Store → List ℕ
stale_sessions before s =
    map (λ (j : SpecProcessingJob). j.session_id) (select_where (is_stale before) s.jobs)

unfoldable pub requeue_stale_jobs : ℕ → Action ℕ
requeue_stale_jobs stale_before = execute database (λ now s.
    let touched = λ (r : SpecUploadSession). member r.id (stale_sessions stale_before s) in
    (
      count_where touched s.sessions,
      record s {
        jobs = update_where (is_stale stale_before) (requeued now) s.jobs;
        sessions = update_where touched (set_status UploadStatus.queued now) s.sessions;
      },
    ))

abbrev pub older : SpecProcessingJob → Option SpecProcessingJob → SpecProcessingJob
older j none = j
older j (some k) = if leb j.created_at k.created_at then j else k

-- ORDER BY created_at LIMIT 1, over the rows that satisfy `p`
abbrev pub oldest_where :
    (SpecProcessingJob → Bool) → List SpecProcessingJob → Option SpecProcessingJob
oldest_where p [] = none
oldest_where p (j ∷ jobs) =
    let rest = oldest_where p jobs in if p j then some (older j rest) else rest

abbrev pub claimed : Text → ℕ → SpecProcessingJob → SpecProcessingJob
claimed worker_id now j = record j {
  status = ProcessingJobStatus.processing;
  worker_id = some worker_id;
  locked_at = some now;
  started_at = elim j.started_at [ none ↦ some now | some at ↦ some at ];
  updated_at = now;
  error_message = none;
}

-- The candidate's UPDATE … RETURNING. SKIP LOCKED passes over the rows that other
-- transactions hold while this statement runs.
abbrev pub claim_candidate : Text → ℕ → Action (Option SpecProcessingJob)
claim_candidate worker_id now env w =
    let p = λ (j : SpecProcessingJob). is_queued j.status && not (env.locked w.tick j.id) in
    execute database
      (λ _ s. elim (oldest_where p s.jobs) [
        | none ↦ (none, s)
        | some j ↦ (
          some (claimed worker_id now j),
          record s { jobs = update_where (job_is j.id) (claimed worker_id now) s.jobs },
        )
      ])
      env w

abbrev pub set_session : ℕ → (SpecUploadSession → SpecUploadSession) → Action (Unit {0})
set_session id f =
    execute database
      (λ _ s. (tt, record s { sessions = update_where (session_is id) f s.sessions }))

abbrev pub read_bundle : SpecProcessingJob → Action ProcessingBundle
read_bundle job = do
  found ← query database (λ s. find_where (session_is job.session_id) s.sessions)
  session ← fail_none found database
  assets ←
      query database
        (λ s. order_by_kind (select_where (λ a. a.session_id == job.session_id) s.assets))
  row ← query database (λ s. find_where (spec_is job.spec_id) s.specs)
  spec ← fail_none row database
  pure (record { job = job; session = session; spec = spec; assets = assets })

unfoldable pub claim_next_job : Text → Action ProcessingBundle
claim_next_job worker_id = transaction database (λ now. do
  candidate ← claim_candidate worker_id now
  job ← fail_none candidate no_processing_job
  set_session job.session_id (set_status UploadStatus.processing now)
  read_bundle job)

-- WHERE id = $1 AND status = 'processing' AND worker_id = $2
abbrev pub holds_lease : ℕ → Text → SpecProcessingJob → Bool
holds_lease job_id worker_id j =
    j.id == job_id && (is_processing j.status && option_text_eq j.worker_id (some worker_id))

unfoldable pub heartbeat_job : ℕ → Text → Action (Unit {0})
heartbeat_job job_id worker_id = do
  rows ← execute database (λ now s. (
    count_where (holds_lease job_id worker_id) s.jobs,
    record s {
      jobs =
          update_where (holds_lease job_id worker_id)
            (λ j. record j { locked_at = some now; updated_at = now }) s.jobs;
    },
  ))
  rows_affected_one rows

abbrev pub leased_job : ℕ → Text → Action SpecProcessingJob
leased_job job_id worker_id = do
  found ← query database (λ s. find_where (holds_lease job_id worker_id) s.jobs)
  fail_none found upload_state

abbrev pub published : ProcessedSpecFiles → ℕ → Spec → Spec
published result now sp = record sp {
  image_url = result.image_url;
  preview_url = result.preview_url;
  wav_url = result.wav_url;
  stems_url = result.stems_url;
  duration = result.duration;
  waveform_peaks = result.waveform_peaks;
  processing_status = ProcessingStatus.completed;
  updated_at = now;
}

abbrev pub publish_spec : ℕ → ProcessedSpecFiles → ℕ → Action ℕ
publish_spec spec_id result now = execute database (λ _ s. (
  count_where (spec_is spec_id) s.specs,
  record s { specs = update_where (spec_is spec_id) (published result now) s.specs },
))

abbrev pub set_job : ℕ → (SpecProcessingJob → SpecProcessingJob) → Action (Unit {0})
set_job id f = execute database (λ _ s. (tt, record s { jobs = update_where (job_is id) f s.jobs }))

-- the columns that CompleteJob and FailJob write in the job and in its session
abbrev pub finished_job :
    ProcessingJobStatus → Option Text → ℕ → SpecProcessingJob → SpecProcessingJob
finished_job status message now j = record j {
  status = status;
  completed_at = some now;
  locked_at = none;
  error_message = message;
  updated_at = now;
}

abbrev pub finished_session : UploadStatus → Option Text → ℕ → SpecUploadSession → SpecUploadSession
finished_session status message now r = record r {
  status = status;
  completed_at = some now;
  error_message = message;
  updated_at = now;
}

unfoldable pub complete_job : ℕ → Text → ProcessedSpecFiles → Action (Unit {0})
complete_job job_id worker_id result = transaction database (λ now. do
  ids ← leased_job job_id worker_id
  rows ← publish_spec ids.spec_id result now
  fail_if (rows == 0) upload_state
  set_job job_id (finished_job ProcessingJobStatus.completed none now)
  set_session ids.session_id (finished_session UploadStatus.completed none now))

abbrev pub rejected : ℕ → Spec → Spec
rejected now sp = record sp { processing_status = ProcessingStatus.failed; updated_at = now }

abbrev pub reject_spec : ℕ → ℕ → Action (Unit {0})
reject_spec spec_id now =
    execute database
      (λ _ s. (tt, record s { specs = update_where (spec_is spec_id) (rejected now) s.specs }))

unfoldable pub fail_job : ℕ → Text → Text → Action (Unit {0})
fail_job job_id worker_id reason = transaction database (λ now. do
  ids ← leased_job job_id worker_id
  reject_spec ids.spec_id now
  set_job job_id (finished_job ProcessingJobStatus.failed (some reason) now)
  set_session ids.session_id (finished_session UploadStatus.failed (some reason) now))
