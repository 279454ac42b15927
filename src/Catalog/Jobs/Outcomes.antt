-- ===== src/Catalog/Jobs/Outcomes.antt =====
-- What the store holds after each operation on the queue succeeds.
use blueprint_audio_backend.Common.Strings.{Text}
use blueprint_audio_backend.Common.{
  ℕ, suc, Bool, none, some, List, ◌≡◌, ◌≢◌, inl, inr, arith, find_where, update_where, count_where,
  Option-cases, not, ◌&&◌,
}
use blueprint_audio_backend.Db.{Env, World, ok, transaction}
use blueprint_audio_backend.Catalog.Domain.{
  UploadStatus, ProcessingJobStatus, SpecUploadSession, SpecProcessingJob, ProcessingBundle,
  ProcessedSpecFiles, is_queued,
}
use blueprint_audio_backend.Common.Table.Laws.{find_holds}
use blueprint_audio_backend.Catalog.Tables.{Store, session_is, job_is, spec_is}
use blueprint_audio_backend.Catalog.Jobs.{
  set_status, claimed, claim_next_job, oldest_where, holds_lease, published, finished_job,
  finished_session, complete_job, fail_job, rejected,
}

-- the job `j` and its session after an operation that writes both
abbrev pub moved :
    SpecProcessingJob
    → (SpecProcessingJob → SpecProcessingJob)
    → (SpecUploadSession → SpecUploadSession)
    → Store
    → Store
moved j f g s = record s {
  jobs = update_where (job_is j.id) f s.jobs;
  sessions = update_where (session_is j.session_id) g s.sessions;
}

-- the store after CompleteJob, which ran at `now` for the job `j`
abbrev pub completed_store : SpecProcessingJob → ProcessedSpecFiles → ℕ → Store → Store
completed_store j result now s =
    moved j (finished_job ProcessingJobStatus.completed none now)
      (finished_session UploadStatus.completed none now)
      (record s { specs = update_where (spec_is j.spec_id) (published result now) s.specs })

-- the store after FailJob
abbrev pub failed_store : SpecProcessingJob → Text → ℕ → Store → Store
failed_store j reason now s =
    moved j (finished_job ProcessingJobStatus.failed (some reason) now)
      (finished_session UploadStatus.failed (some reason) now)
      (record s { specs = update_where (spec_is j.spec_id) (rejected now) s.specs })

-- the store after ClaimNextJob
abbrev pub claimed_store : SpecProcessingJob → Text → ℕ → Store → Store
claimed_store j worker_id now =
    moved j (claimed worker_id now) (set_status UploadStatus.processing now)

holds_lease-id :
    (job_id : ℕ) (worker_id : Text) (jobs : List SpecProcessingJob) {j : SpecProcessingJob}
    → find_where (holds_lease job_id worker_id) jobs ≡ some j
    → j.id ≡ job_id
holds_lease-id job_id worker_id jobs {j} h =
    ground (arith, find_holds (holds_lease job_id worker_id) jobs h)

-- Where CompleteJob succeeds, the worker held the lease on the job, the job's spec was in the
-- table, and the spec's files, the job and its session are written together.
pub complete_job_ok :
    (job_id : ℕ) (worker_id : Text) (result : ProcessedSpecFiles) (env : Env) (w : World Store)
    → (complete_job job_id worker_id result env w).0 ≡ ok tt
    → (j : SpecProcessingJob) × (find_where (holds_lease job_id worker_id) w.store.jobs ≡ some j)
      × (count_where (spec_is j.spec_id) w.store.specs ≢ 0)
      × ((complete_job job_id worker_id result env w).1.store
          ≡ completed_store j result (env.clock w.tick) w.store)
unfolding complete_job transaction
complete_job_ok job_id worker_id result env w h =
    elim (Option-cases (find_where (holds_lease job_id worker_id) w.store.jobs)) [
      | inl e ↦ absurd (ground arith)
      | inr (j, e) ↦
          (j, e, ground arith, ground (arith, holds_lease-id job_id worker_id w.store.jobs e))
    ]

-- Where FailJob succeeds, the worker held the lease on the job, and the spec, the job and its
-- session are marked as failed together.
pub fail_job_ok :
    (job_id : ℕ) (worker_id reason : Text) (env : Env) (w : World Store)
    → (fail_job job_id worker_id reason env w).0 ≡ ok tt
    → (j : SpecProcessingJob) × (find_where (holds_lease job_id worker_id) w.store.jobs ≡ some j)
      × ((fail_job job_id worker_id reason env w).1.store
          ≡ failed_store j reason (env.clock w.tick) w.store)
unfolding fail_job transaction
fail_job_ok job_id worker_id reason env w h =
    elim (Option-cases (find_where (holds_lease job_id worker_id) w.store.jobs)) [
      | inl e ↦ absurd (ground arith)
      | inr (j, e) ↦ (j, e, ground (arith, holds_lease-id job_id worker_id w.store.jobs e))
    ]

-- the rows that ClaimNextJob's candidate query can see
abbrev pub claimable : Env → ℕ → SpecProcessingJob → Bool
claimable env tick j = is_queued j.status && not (env.locked tick j.id)

-- ClaimNextJob takes the oldest queued job that nobody else holds.
pub claim_next_job_ok :
    (worker_id : Text) (env : Env) (w : World Store) {b : ProcessingBundle}
    → (claim_next_job worker_id env w).0 ≡ ok b
    → (j : SpecProcessingJob) × (oldest_where (claimable env (suc w.tick)) w.store.jobs ≡ some j)
      × (b.job ≡ claimed worker_id (env.clock w.tick) j)
      × ((claim_next_job worker_id env w).1.store
          ≡ claimed_store j worker_id (env.clock w.tick) w.store)
unfolding claim_next_job transaction
claim_next_job_ok worker_id env w h =
    elim (Option-cases (oldest_where (claimable env (suc w.tick)) w.store.jobs)) [
      | inl e ↦ absurd (ground arith)
      | inr (j, e) ↦ (j, e, ground arith, ground arith)
    ]
