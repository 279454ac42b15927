-- ===== src/Catalog/History.antt =====
-- Histories: the API server and the workers call the upload repository in any order, with any
-- arguments, on a database that may fail at any statement.
use blueprint_audio_backend.Common.{
  ℕ, Option, none, some, List, [], ◌∷◌, ◌≡◌, ◌⊎◌, ◌∙◌, refl, arith,
}
use blueprint_audio_backend.Db.{Env, World}
use blueprint_audio_backend.Catalog.Domain.{UploadStatus, ProcessingJobStatus, SpecProcessingJob}
use blueprint_audio_backend.Catalog.Tables.{Store}
use blueprint_audio_backend.Catalog.Request.{Op}
use blueprint_audio_backend.Catalog.Sessions.{
  create_session, update_session_metadata, replace_asset, verify_asset, mark_session_failed,
}
use blueprint_audio_backend.Catalog.Sessions.Soundness.{
  create_session-Sound, update_session_metadata-Sound, replace_asset-Sound, verify_asset-Sound,
  mark_session_failed-Sound,
}
use blueprint_audio_backend.Catalog.Jobs.{
  finalize_upload, expire_upload_sessions, requeue_stale_jobs, claim_next_job, heartbeat_job,
  complete_job, fail_job,
}
use blueprint_audio_backend.Catalog.Jobs.Soundness.{
  complete_job-Sound, fail_job-Sound, claim_next_job-Sound, heartbeat_job-Sound,
  expire_upload_sessions-Sound,
}
use blueprint_audio_backend.Catalog.Jobs.Requeue.{requeue_stale_jobs-Sound}
use blueprint_audio_backend.Catalog.Jobs.Enqueue.{finalize_upload-Sound}
use blueprint_audio_backend.Catalog.Invariant.{IsValid, status_of}
use blueprint_audio_backend.Catalog.Statuses.{
  Moves, stay, create, abandon, expire, enqueue, claim, requeue, complete, fail, Sound,
}

-- the job that Complete hands to FinalizeUpload, with the identifier `id`
abbrev pub new_job : ℕ → ℕ → ℕ → SpecProcessingJob
new_job id spec_id session_id = record {
  id = id;
  spec_id = spec_id;
  session_id = session_id;
  status = ProcessingJobStatus.queued;
  worker_id = none;
  locked_at = none;
  started_at = none;
  completed_at = none;
  error_message = none;
  created_at = 0;
  updated_at = 0;
}

-- one call; the store that it leaves, whether it succeeds or not
unfoldable pub call : Env → Op → World Store → World Store
call env (Op.create_session session) w = (create_session session env w).1
call env (Op.update_session_metadata u p m) w = (update_session_metadata u p m env w).1
call env (Op.replace_asset u p a) w = (replace_asset u p a env w).1
call env (Op.verify_asset u p a size ct etag) w = (verify_asset u p a size ct etag env w).1
call env (Op.mark_session_failed u reason) w = (mark_session_failed u reason env w).1
call env (Op.finalize_upload session spec id) w =
    (finalize_upload session spec (new_job id spec.id session.id) env w).1
call env (Op.expire_upload_sessions before) w = (expire_upload_sessions before env w).1
call env (Op.requeue_stale_jobs before) w = (requeue_stale_jobs before env w).1
call env (Op.claim_next_job worker) w = (claim_next_job worker env w).1
call env (Op.heartbeat_job id worker) w = (heartbeat_job id worker env w).1
call env (Op.complete_job id worker result) w = (complete_job id worker result env w).1
call env (Op.fail_job id worker reason) w = (fail_job id worker reason env w).1

unfoldable pub run : Env → List Op → World Store → World Store
run env [] w = w
run env (op ∷ ops) w = run env ops (call env op w)

pub call-Sound :
    (env : Env) (op : Op) (w : World Store) → IsValid w.store → Sound w.store (call env op w).store
unfolding call
call-Sound env (Op.create_session session) w v = create_session-Sound session env w v
call-Sound env (Op.update_session_metadata u p m) w v = update_session_metadata-Sound u p m env w v
call-Sound env (Op.replace_asset u p a) w v = replace_asset-Sound u p a env w v
call-Sound env (Op.verify_asset u p a size ct etag) w v =
    verify_asset-Sound u p a size ct etag env w v
call-Sound env (Op.mark_session_failed u reason) w v = mark_session_failed-Sound u reason env w v
call-Sound env (Op.finalize_upload session spec id) w v =
    finalize_upload-Sound session spec (new_job id spec.id session.id) env w refl v
call-Sound env (Op.expire_upload_sessions before) w v = expire_upload_sessions-Sound before env w v
call-Sound env (Op.requeue_stale_jobs before) w v = requeue_stale_jobs-Sound before env w v
call-Sound env (Op.claim_next_job worker) w v = claim_next_job-Sound worker env w v
call-Sound env (Op.heartbeat_job id worker) w v = heartbeat_job-Sound id worker env w v
call-Sound env (Op.complete_job id worker result) w v = complete_job-Sound id worker result env w v
call-Sound env (Op.fail_job id worker reason) w v = fail_job-Sound id worker reason env w v

-- From a store whose queue is well formed, every history of repository calls, whatever fails in
-- it, leaves a store whose queue is well formed: each job's session has the status that the
-- job's status stands for, rows of jobs that share an identifier or a session are one row, and a
-- job has a lock time exactly while it is processing, and then a worker too.
pub run-IsValid :
    (env : Env) (ops : List Op) (w : World Store) → IsValid w.store → IsValid (run env ops w).store
unfolding run
run-IsValid env [] w v = v
run-IsValid env (op ∷ ops) w v = run-IsValid env ops (call env op w) (call-Sound env op w v).valid

-- Where the queue is well formed, one repository call leaves the status of each session as it
-- was, or moves it along one edge of the diagram: created with some status, uploading to
-- failed, expired or queued, queued to processing, and processing back to queued or on to
-- completed or failed.
pub call-Moves :
    (env : Env) (op : Op) (w : World Store) (id : ℕ)
    → IsValid w.store
    → Moves (status_of id w.store.sessions) (status_of id (call env op w).store.sessions)
call-Moves env op w id v = (call-Sound env op w v).moves id

abbrev pub IsSettled : UploadStatus → Type 0
IsSettled st =
    (st ≡ UploadStatus.completed) ⊎ (st ≡ UploadStatus.failed) ⊎ (st ≡ UploadStatus.expired)

pub settled-Moves :
    {a b : Option UploadStatus} (st : UploadStatus) → Moves a b → a ≡ some st → IsSettled st → b ≡ a
settled-Moves st stay e h = refl
settled-Moves st create e h = absurd (ground arith)
settled-Moves st abandon e h = absurd (ground arith)
settled-Moves st expire e h = absurd (ground arith)
settled-Moves st enqueue e h = absurd (ground arith)
settled-Moves st claim e h = absurd (ground arith)
settled-Moves st requeue e h = absurd (ground arith)
settled-Moves st complete e h = absurd (ground arith)
settled-Moves st fail e h = absurd (ground arith)

-- Where the queue is well formed, no history of repository calls changes the status of a session
-- that is completed, failed or expired.
pub run_settled :
    (env : Env) (ops : List Op) (w : World Store) (id : ℕ) (st : UploadStatus)
    → IsValid w.store
    → status_of id w.store.sessions ≡ some st
    → IsSettled st
    → status_of id (run env ops w).store.sessions ≡ some st
unfolding run
run_settled env [] w id st v e h = e
run_settled env (op ∷ ops) w id st v e h =
    run_settled env ops (call env op w) id st (call-Sound env op w v).valid
      (settled-Moves st (call-Moves env op w id v) e h ∙ e) h
