-- ===== src/Catalog/Jobs/Soundness.antt =====
-- Every operation on the queue keeps its invariant, and moves a session's status only as the
-- diagram of Statuses allows.
use blueprint_audio_backend.Common.Strings.{Text, text}
use blueprint_audio_backend.Common.{
  ℕ, true, false, Option, none, some, List, ◌==◌, ◌≡◌, refl, arith, suc, sym, Bool-cases, inl, inr,
  find_where, In, ==_iff,
}
use blueprint_audio_backend.Common.Table.Laws.{find-In, find_holds}
use blueprint_audio_backend.Db.{Env, World}
use blueprint_audio_backend.Db.Laws.{transaction-IsAtomic, IsAtomic}
use blueprint_audio_backend.Catalog.Domain.{
  database, UploadStatus, ProcessingJobStatus, SpecUploadSession, SpecProcessingJob,
  ProcessedSpecFiles, is_processing,
}
use blueprint_audio_backend.Catalog.Tables.{Store}
use blueprint_audio_backend.Catalog.Jobs.{
  set_status, claimed, claim_next_job, holds_lease, finished_job, finished_session, complete_job,
  fail_job, heartbeat_job, expire_upload_sessions, is_expired,
}
use blueprint_audio_backend.Catalog.Jobs.Oldest.{oldest_where-In}
use blueprint_audio_backend.Catalog.Jobs.Outcomes.{
  moved, complete_job_ok, fail_job_ok, claim_next_job_ok, claimable,
}
use blueprint_audio_backend.Catalog.Invariant.{
  IsValid, LeaseFits, session_status, status_of, status-update, moved-IsValid, renewed,
  renewed-IsValid,
}
use blueprint_audio_backend.Catalog.Statuses.{
  Moves, stay, expire, claim, complete, fail, Moves-along, Sound, Sound-refl, Sound-along,
  guarded-Sound,
}
use blueprint_audio_backend.Catalog.Sessions.Soundness.{atomic-Sound}

-- an operation that moves one job and its session along an edge of the diagram
moved-Sound :
    (f : SpecProcessingJob → SpecProcessingJob) (g : SpecUploadSession → SpecUploadSession)
    (st : ProcessingJobStatus)
    → ((j : SpecProcessingJob) → (f j).id ≡ j.id)
    → ((j : SpecProcessingJob) → (f j).session_id ≡ j.session_id)
    → ((j : SpecProcessingJob) → (f j).status ≡ st)
    → ((r : SpecUploadSession) → (g r).id ≡ r.id)
    → ((r : SpecUploadSession) → (g r).status ≡ session_status st)
    → ((j : SpecProcessingJob) → LeaseFits j → LeaseFits (f j))
    → (j : SpecProcessingJob) (s : Store) → In j s.jobs
    → Moves (some (session_status j.status)) (some (session_status st))
    → IsValid s
    → Sound s (moved j f g s)
moved-Sound f g st fid fs fst gid gst fits j s mj m v = record {
  valid = moved-IsValid f g st fid fs fst gid gst j s fits mj v;
  moves = λ k.
      let after =
        status-update (λ i. i == j.session_id) g (session_status st) s.sessions k gid gst in
      elim (Bool-cases (k == j.session_id)) [
        | inr other ↦ Moves-along refl (rw other at after) stay
        | inl same ↦
            let here : status_of k s.sessions ≡ some (session_status j.status) =
              rw ((==_iff k j.session_id).0 same) (v.tracked j mj) in
            Moves-along here (ground arith) m
      ];
}

complete_job-IsAtomic :
    (job_id : ℕ) (worker_id : Text) (result : ProcessedSpecFiles)
    → IsAtomic (complete_job job_id worker_id result)
unfolding complete_job
complete_job-IsAtomic job_id worker_id result = transaction-IsAtomic database _

fail_job-IsAtomic :
    (job_id : ℕ) (worker_id reason : Text) → IsAtomic (fail_job job_id worker_id reason)
unfolding fail_job
fail_job-IsAtomic job_id worker_id reason = transaction-IsAtomic database _

claim_next_job-IsAtomic : (worker_id : Text) → IsAtomic (claim_next_job worker_id)
unfolding claim_next_job
claim_next_job-IsAtomic worker_id = transaction-IsAtomic database _

leased-In :
    (job_id : ℕ) (worker_id : Text) (jobs : List SpecProcessingJob) {j : SpecProcessingJob}
    → find_where (holds_lease job_id worker_id) jobs ≡ some j
    → In j jobs × (j.status ≡ ProcessingJobStatus.processing)
leased-In job_id worker_id jobs {j} h = (
  find-In (holds_lease job_id worker_id) jobs h,
  ground (arith, find_holds (holds_lease job_id worker_id) jobs h),
)

-- a finished job holds no lease
finished-LeaseFits :
    (st : ProcessingJobStatus) (message : Option Text) (now : ℕ)
    → is_processing st ≡ false
    → (j : SpecProcessingJob) → LeaseFits j
    → LeaseFits (finished_job st message now j)
finished-LeaseFits st message now h j l = (sym h, λ p. cc)

pub complete_job-Sound :
    (job_id : ℕ) (worker_id : Text) (result : ProcessedSpecFiles) (env : Env) (w : World Store)
    → IsValid w.store
    → Sound w.store (complete_job job_id worker_id result env w).1.store
complete_job-Sound job_id worker_id result env w v =
    atomic-Sound (complete_job job_id worker_id result) env w
      (complete_job-IsAtomic job_id worker_id result) v
      λ _ h.
        let (j, e, _, t) = complete_job_ok job_id worker_id result env w h in
        let (mj, processing) = leased-In job_id worker_id w.store.jobs e in
        let now = env.clock w.tick in
        let done =
          moved-Sound (finished_job ProcessingJobStatus.completed none now)
            (finished_session UploadStatus.completed none now) ProcessingJobStatus.completed
            (λ j. refl) (λ j. refl) (λ j. refl) (λ r. refl) (λ r. refl)
            (finished-LeaseFits ProcessingJobStatus.completed none now refl) j w.store mj
            (rw processing complete) v in
        Sound-along t (record {
          valid = record {
            tracked = done.valid.tracked;
            keyed = done.valid.keyed;
            leased = done.valid.leased;
          };
          moves = done.moves;
        })

pub fail_job-Sound :
    (job_id : ℕ) (worker_id reason : Text) (env : Env) (w : World Store)
    → IsValid w.store
    → Sound w.store (fail_job job_id worker_id reason env w).1.store
fail_job-Sound job_id worker_id reason env w v =
    atomic-Sound (fail_job job_id worker_id reason) env w
      (fail_job-IsAtomic job_id worker_id reason) v
      λ _ h.
        let (j, e, t) = fail_job_ok job_id worker_id reason env w h in
        let (mj, processing) = leased-In job_id worker_id w.store.jobs e in
        let now = env.clock w.tick in
        let done =
          moved-Sound (finished_job ProcessingJobStatus.failed (some reason) now)
            (finished_session UploadStatus.failed (some reason) now) ProcessingJobStatus.failed
            (λ j. refl) (λ j. refl) (λ j. refl) (λ r. refl) (λ r. refl)
            (finished-LeaseFits ProcessingJobStatus.failed (some reason) now refl) j w.store mj
            (rw processing fail) v in
        Sound-along t (record {
          valid = record {
            tracked = done.valid.tracked;
            keyed = done.valid.keyed;
            leased = done.valid.leased;
          };
          moves = done.moves;
        })

pub claim_next_job-Sound :
    (worker_id : Text) (env : Env) (w : World Store)
    → IsValid w.store
    → Sound w.store (claim_next_job worker_id env w).1.store
claim_next_job-Sound worker_id env w v =
    atomic-Sound (claim_next_job worker_id) env w (claim_next_job-IsAtomic worker_id) v λ _ h.
      let (j, e, _, t) = claim_next_job_ok worker_id env w h in
      let (mj, free) = oldest_where-In (claimable env (suc w.tick)) w.store.jobs e in
      let now = env.clock w.tick in
      let is_free : j.status ≡ ProcessingJobStatus.queued = ground arith in
      Sound-along t (
        moved-Sound (claimed worker_id now) (set_status UploadStatus.processing now)
          ProcessingJobStatus.processing (λ j. refl) (λ j. refl) (λ j. refl) (λ r. refl) (λ r. refl)
          (λ j l. (refl, λ p. refl)) j w.store mj (rw is_free claim) v)

heartbeat_job_ran :
    (job_id : ℕ) (worker_id : Text) (env : Env) (w : World Store)
    → env.fault w.tick ≡ false
    → (heartbeat_job job_id worker_id env w).1.store
      ≡ renewed
          (holds_lease job_id worker_id)
          (λ j. record j { locked_at = some (env.clock w.tick); updated_at = env.clock w.tick })
          w.store
unfolding heartbeat_job
heartbeat_job_ran job_id worker_id env w e = ground arith

heartbeat_job_fault :
    (job_id : ℕ) (worker_id : Text) (env : Env) (w : World Store)
    → env.fault w.tick ≡ true
    → (heartbeat_job job_id worker_id env w).1.store ≡ w.store
unfolding heartbeat_job
heartbeat_job_fault job_id worker_id env w e = ground arith

pub heartbeat_job-Sound :
    (job_id : ℕ) (worker_id : Text) (env : Env) (w : World Store)
    → IsValid w.store
    → Sound w.store (heartbeat_job job_id worker_id env w).1.store
heartbeat_job-Sound job_id worker_id env w v = elim (Bool-cases (env.fault w.tick)) [
  | inl e ↦ Sound-along (heartbeat_job_fault job_id worker_id env w e) (Sound-refl v)
  | inr e ↦ Sound-along (heartbeat_job_ran job_id worker_id env w e) (record {
    valid =
        renewed-IsValid (holds_lease job_id worker_id)
          (λ j. record j { locked_at = some (env.clock w.tick); updated_at = env.clock w.tick })
          w.store (λ j. refl) (λ j. refl) (λ j. refl) (λ j h l. ground arith) v;
    moves = λ k. stay;
  })
]

pub expire_upload_sessions-Sound :
    (before : ℕ) (env : Env) (w : World Store)
    → IsValid w.store
    → Sound w.store (expire_upload_sessions before env w).1.store
unfolding expire_upload_sessions
expire_upload_sessions-Sound before env w v = elim (Bool-cases (env.fault w.tick)) [
  | inl e ↦ Sound-along (ground arith) (Sound-refl v)
  | inr e ↦
      guarded-Sound w.store _ (ground arith) v (is_expired before)
        (λ r. record r {
          status = UploadStatus.expired;
          error_message = some (text "upload session expired");
          completed_at = some (env.clock w.tick);
          updated_at = env.clock w.tick;
        })
        UploadStatus.expired (λ r. refl) (λ r. refl) (λ r h. ground arith) expire (ground arith)
]
