-- ===== src/Catalog/Jobs/Leases.antt =====
-- Leases: which job a worker gets, and that a worker without the lease changes nothing.
use blueprint_audio_backend.Common.Strings.{Text}
use blueprint_audio_backend.Common.Strings.{text_eq_iff}
use blueprint_audio_backend.Common.Strings.{text_eq_refl}
use blueprint_audio_backend.Common.{
  ℕ, suc, ◌≤◌, Bool, true, false, none, some, List, [], ◌∷◌, ◌==◌, ◌≡◌, ◌≢◌, refl, ap, arith,
  Bool-cases, inl, inr, In, find_where, update_where, count_where, if◌then◌else◌,
}
use blueprint_audio_backend.Db.{Env, World, Result, ok, err, transaction}
use blueprint_audio_backend.Catalog.Domain.{
  Error, upload_state, no_processing_job, SpecProcessingJob, ProcessingBundle, ProcessingJobStatus,
  ProcessedSpecFiles,
}
use blueprint_audio_backend.Catalog.Tables.{Store, job_is, spec_is}
use blueprint_audio_backend.Catalog.Jobs.{
  claimed, claim_next_job, oldest_where, holds_lease, heartbeat_job, complete_job, fail_job,
}
use blueprint_audio_backend.Catalog.Jobs.Outcomes.{claimable, claim_next_job_ok}
use blueprint_audio_backend.Catalog.Jobs.Oldest.{
  oldest_where-In, oldest_where-le, oldest_where-none,
}

-- The job that ClaimNextJob returns was queued and held by nobody else, no other such job was
-- created before it, and in the bundle it is processing under this worker, locked at the time of
-- the transaction.
pub claim_next_job_oldest :
    (worker_id : Text) (env : Env) (w : World Store) (b : ProcessingBundle) (k : SpecProcessingJob)
    → (claim_next_job worker_id env w).0 ≡ ok b
    → In k w.store.jobs
    → claimable env (suc w.tick) k ≡ true
    → (b.job.created_at ≤ k.created_at)
      × (b.job.status ≡ ProcessingJobStatus.processing)
      × (b.job.worker_id ≡ some worker_id)
      × (b.job.locked_at ≡ some (env.clock w.tick))
      × ((j : SpecProcessingJob) × In j w.store.jobs
          × (claimable env (suc w.tick) j ≡ true)
          × (j.id ≡ b.job.id))
claim_next_job_oldest worker_id env w b k h m free =
    let (j, e, same, _) = claim_next_job_ok worker_id env w h in
    let p = claimable env (suc w.tick) in
    let (mj, hit) = oldest_where-In p w.store.jobs e in
    (
      rw same (oldest_where-le p w.store.jobs k e m free),
      rw same refl,
      rw same refl,
      rw same refl,
      (j, mj, hit, rw same refl),
    )

claim_next_job-none :
    (worker_id : Text) (env : Env) (w : World Store)
    → (claim_next_job worker_id env w).0 ≡ err no_processing_job
    → (oldest_where (claimable env (suc w.tick)) w.store.jobs ≡ none)
      × ((claim_next_job worker_id env w).1.store ≡ w.store)
unfolding claim_next_job transaction
claim_next_job-none worker_id env w h = (ground arith, ground arith)

-- ClaimNextJob answers that there is no job only where every job is not queued or is held by
-- another transaction, and then the store is as it was.
pub claim_next_job_idle :
    (worker_id : Text) (env : Env) (w : World Store) (k : SpecProcessingJob)
    → (claim_next_job worker_id env w).0 ≡ err no_processing_job
    → In k w.store.jobs
    → (claimable env (suc w.tick) k ≡ false) × ((claim_next_job worker_id env w).1.store ≡ w.store)
claim_next_job_idle worker_id env w k h m =
    let (idle, same) = claim_next_job-none worker_id env w h in
    (oldest_where-none (claimable env (suc w.tick)) w.store.jobs k idle m, same)

count-find_none :
    (p : SpecProcessingJob → Bool) (jobs : List SpecProcessingJob)
    → find_where p jobs ≡ none
    → (count_where p jobs ≡ 0)
      × ((f : SpecProcessingJob → SpecProcessingJob) → update_where p f jobs ≡ jobs)
count-find_none p [] h = (refl, λ f. refl)
count-find_none p (x ∷ jobs) h = elim (Bool-cases (p x)) [
  | inl hit ↦ absurd (ground arith)
  | inr miss ↦
      let (none_left, same) = count-find_none p jobs (ground arith) in
      (ground arith, λ f. rw miss (ap (λ r. x ∷ r) (same f)))
]

-- A worker that holds no lease on a job can neither complete it, nor fail it, nor renew it: the
-- three calls return an error and leave the store as it was.
pub unleased_fenced :
    (job_id : ℕ) (worker_id reason : Text) (result : ProcessedSpecFiles) (env : Env)
    (w : World Store)
    → find_where (holds_lease job_id worker_id) w.store.jobs ≡ none
    → ((complete_job job_id worker_id result env w).0 ≢ ok tt)
      × ((complete_job job_id worker_id result env w).1.store ≡ w.store)
      × ((fail_job job_id worker_id reason env w).0 ≢ ok tt)
      × ((fail_job job_id worker_id reason env w).1.store ≡ w.store)
      × ((heartbeat_job job_id worker_id env w).0 ≢ ok tt)
      × ((heartbeat_job job_id worker_id env w).1.store ≡ w.store)
unfolding complete_job fail_job heartbeat_job transaction
unleased_fenced job_id worker_id reason result env w h =
    let (zero_rows, same) = count-find_none (holds_lease job_id worker_id) w.store.jobs h in
    let kept =
      same (λ j. record j { locked_at = some (env.clock w.tick); updated_at = env.clock w.tick }) in
    (
      (λ e. ground arith),
      ground arith,
      (λ e. ground arith),
      ground arith,
      (λ e. ground arith),
      ground arith,
    )

fenced-rows :
    (w1 w2 : Text) (id now : ℕ) (jobs : List SpecProcessingJob)
    → w1 ≢ w2
    → find_where (holds_lease id w1) (update_where (job_is id) (claimed w2 now) jobs) ≡ none
fenced-rows w1 w2 id now [] ne = refl
fenced-rows w1 w2 id now (j ∷ jobs) ne =
    ground (arith, text_eq_iff w2 w1, fenced-rows w1 w2 id now jobs ne)

-- Once a worker has claimed a job, no other worker holds a lease on it, whoever processed it
-- before.
pub claim_next_job_fences :
    (w1 w2 : Text) (env : Env) (w : World Store) (b : ProcessingBundle)
    → w1 ≢ w2
    → (claim_next_job w2 env w).0 ≡ ok b
    → find_where (holds_lease b.job.id w1) (claim_next_job w2 env w).1.store.jobs ≡ none
claim_next_job_fences w1 w2 env w b ne h =
    let (j, e, same, t) = claim_next_job_ok w2 env w h in
    rw (t, same) (fenced-rows w1 w2 j.id (env.clock w.tick) w.store.jobs ne)

holds-claimed :
    (worker : Text) (now : ℕ) (j : SpecProcessingJob) (jobs : List SpecProcessingJob)
    → In j jobs
    → (k : SpecProcessingJob) × (find_where
          (holds_lease j.id worker)
          (update_where (job_is j.id) (claimed worker now) jobs)
        ≡ some k)
holds-claimed worker now j [] m = absurd m
holds-claimed worker now j (x ∷ jobs) (inl e) =
    (claimed worker now x, rw e (ground (arith, text_eq_refl worker)))
holds-claimed worker now j (x ∷ jobs) (inr m) = elim (Bool-cases (x.id == j.id)) [
  | inl same ↦ (claimed worker now x, ground (arith, text_eq_refl worker))
  | inr other ↦ let (k, found) = holds-claimed worker now j jobs m in (k, ground arith)
]

-- The worker that claims a job holds the lease on it.
pub claim_next_job_leases :
    (worker : Text) (env : Env) (w : World Store) (b : ProcessingBundle)
    → (claim_next_job worker env w).0 ≡ ok b
    → (k : SpecProcessingJob) × (find_where
          (holds_lease b.job.id worker)
          (claim_next_job worker env w).1.store.jobs
        ≡ some k)
claim_next_job_leases worker env w b h =
    let (j, e, same, t) = claim_next_job_ok worker env w h in
    let (mj, _) = oldest_where-In (claimable env (suc w.tick)) w.store.jobs e in
    rw (t, same) (holds-claimed worker (env.clock w.tick) j w.store.jobs mj)

-- CompleteJob's verdict on a database that fails nowhere
abbrev pub verdict : ℕ → Text → Store → Result Error (Unit {0})
verdict job_id worker_id s = elim (find_where (holds_lease job_id worker_id) s.jobs) [
  | none ↦ err upload_state
  | some j ↦ if count_where (spec_is j.spec_id) s.specs == 0 then err upload_state else ok tt
]

-- On a database that fails nowhere, CompleteJob succeeds where the worker holds the lease on the
-- job and the job's spec is in the table, and returns ErrUploadState otherwise.
pub complete_job_total :
    (job_id : ℕ) (worker_id : Text) (result : ProcessedSpecFiles) (env : Env) (w : World Store)
    → ((n : ℕ) → env.fault n ≡ false)
    → (complete_job job_id worker_id result env w).0 ≡ verdict job_id worker_id w.store
unfolding complete_job transaction
complete_job_total job_id worker_id result env w sure = ground (
  arith,
  sure w.tick,
  sure (suc w.tick),
  sure (suc (suc w.tick)),
  sure (suc (suc (suc w.tick))),
  sure (suc (suc (suc (suc w.tick)))),
  sure (suc (suc (suc (suc (suc w.tick))))),
)
