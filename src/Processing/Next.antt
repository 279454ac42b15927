-- ===== src/Processing/Next.antt =====
-- ProcessNext, the heartbeat and the queue's upkeep in
-- internal/modules/catalog/application/processor.go, over the upload repository.
--
-- The heartbeat's goroutine only touches the tables and process only the object store, so one order
-- of their calls stands for all. What other clients of the repository do in between are the calls
-- of a `Round`; a cancellation that reaches process is an answer of the object store.
pub mod Cleanup
pub mod Fencing
pub mod Endings
pub mod Loop
pub mod Tests
use blueprint_audio_backend.Common.{
  ℕ, suc, ◌-◌, Bool, true, false, Option, none, some, List, [], ◌∷◌, ◌++◌, if◌then◌else◌, Text,
  text,
}
use blueprint_audio_backend.Db.{Env, World, Result, ok, err, M, ◌>>=◌, time_now}
use blueprint_audio_backend.Catalog.Domain.{
  Error, no_processing_job, UploadAssetKind, SpecUploadAsset, ProcessingBundle, ProcessedSpecFiles,
  kind_eq,
}
use blueprint_audio_backend.Catalog.Tables.{Store}
use blueprint_audio_backend.Catalog.Request.{Op}
use blueprint_audio_backend.Catalog.History.{run}
use blueprint_audio_backend.Catalog.Jobs.{
  claim_next_job, heartbeat_job, complete_job, fail_job, requeue_stale_jobs, expire_upload_sessions,
}
use blueprint_audio_backend.Processing.Media.{ProcessError, Ports, Bench, is_interruption}
use blueprint_audio_backend.Processing.Process.{process}

pub data NotificationType : Type 0 where
  error success : NotificationType

pub record Notice : Type 0 where
  pub user_id : ℕ
  pub title : Text
  pub message : Text
  pub kind : NotificationType

-- one tick of the heartbeat's timer: what others have called since the last, and whether the
-- context is over once HeartbeatJob has returned
pub record Tick : Type 0 where
  pub others : List Op
  pub is_over : Bool

-- what happens while a job is processed: the timer's ticks, the calls of others before the final
-- transition, and the number of the first call of the object store
pub record Round : Type 0 where
  pub ticks : List Tick
  pub others : List Op
  pub first_call : ℕ

-- the tables, the keys that are deleted and the notifications that are sent
pub record Site : Type 0 where
  pub tables : World Store
  pub deleted : List Text
  pub notices : List Notice

-- how ProcessNext returns: `false, nil`, `false, err`, or `true` with an error or without one
pub data Outcome : Type 0 where
  idle : Outcome
  claim_failed lease_lost completion_failed : Error → Outcome
  interrupted : ProcessError → Outcome
  mark_failed : ProcessError → Error → Outcome
  failed : ProcessError → Outcome
  completed : ProcessedSpecFiles → Outcome

-- heartbeat: the error that it sends on `done`, and the tables
unfoldable pub heartbeat : Env → ℕ → Text → List Tick → World Store → Option Error × World Store
heartbeat env job_id worker_id [] w = (none, w)
heartbeat env job_id worker_id (t ∷ ticks) w =
    let (r, w') = heartbeat_job job_id worker_id env (run env t.others w) in
    let rest = heartbeat env job_id worker_id ticks w' in
    elim r [ ok _ ↦ rest | err e ↦ if t.is_over then (none, w') else (some e, w') ]

-- for _, key := range keys { _ = p.objects.Delete(ctx, key) }, whose errors are ignored: `deleted`
-- is the log of the calls of Delete, whether the store has deleted the object or not
abbrev pub cleanup : List Text → Site → Site
cleanup [] s = s
cleanup (key ∷ keys) s = cleanup keys (record s { deleted = key ∷ s.deleted })

-- ProcessNext's loop over bundle.Assets once the job is completed
abbrev pub delete_sources : List SpecUploadAsset → Site → Site
delete_sources [] s = s
delete_sources (a ∷ assets) s =
    if kind_eq a.kind UploadAssetKind.image
    then delete_sources assets (cleanup (a.object_key ∷ a.final_object_key ∷ []) s)
    else delete_sources assets (cleanup (a.object_key ∷ []) s)

-- p.notifier may be nil
abbrev pub notify : Bool → Notice → Site → Site
notify has_notifier n s = if has_notifier then record s { notices = n ∷ s.notices } else s

abbrev pub failure_notice : ProcessingBundle → Notice
failure_notice bundle = record {
  user_id = bundle.spec.producer_id;
  title = text "Upload Failed";
  message = text "Processing for '" ++ (bundle.spec.title ++ text "' failed. Please try again.");
  kind = NotificationType.error;
}

abbrev pub success_notice : ProcessingBundle → Notice
success_notice bundle = record {
  user_id = bundle.spec.producer_id;
  title = text "Upload Complete";
  message = text "'" ++ (bundle.spec.title ++ text "' is now live!");
  kind = NotificationType.success;
}

-- process, from an empty cleanupKeys
abbrev pub attempt :
    Ports → Env → ℕ → ProcessingBundle → Result ProcessError ProcessedSpecFiles × World Bench
attempt p env first_call bundle =
    process p bundle env (record { tick = first_call; store = record { written = []; keys = [] } })

-- `describe` is Error of the errors, and `has_notifier` says that there is a notifier
module _ (p : Ports) (describe : ProcessError → Text) (has_notifier : Bool) where
  -- a failure of process, with cleanupKeys
  unfoldable pub record_failure :
      Env → Text → ProcessingBundle → ProcessError → List Text → Site → Outcome × Site
  record_failure env worker_id bundle e keys s =
      if is_interruption e
      then (Outcome.interrupted e, s)
      else let (marked, w) = fail_job bundle.job.id worker_id (describe e) env s.tables in
        let s' = record s { tables = w } in
        elim marked [
          | err e' ↦ (Outcome.mark_failed e e', s')
          | ok _ ↦ (Outcome.failed e, notify has_notifier (failure_notice bundle) (cleanup keys s'))
        ]

  unfoldable pub record_success :
      Env → Text → ProcessingBundle → ProcessedSpecFiles → Site → Outcome × Site
  record_success env worker_id bundle result s =
      let (done, w) = complete_job bundle.job.id worker_id result env s.tables in
      let s' = record s { tables = w } in
      elim done [
        | err e ↦ (Outcome.completion_failed e, s')
        | ok _ ↦ (
          Outcome.completed result,
          notify has_notifier (success_notice bundle) (delete_sources bundle.assets s'),
        )
      ]

  -- ProcessNext once the heartbeat has ended without an error
  unfoldable pub conclude :
      Env
      → Text
      → ProcessingBundle
      → List Text
      → Result ProcessError ProcessedSpecFiles
      → Site
      → Outcome × Site
  conclude env worker_id bundle keys (err e) s = record_failure env worker_id bundle e keys s
  conclude env worker_id bundle keys (ok files) s = record_success env worker_id bundle files s

  -- ProcessNext once it has claimed a job
  unfoldable pub process_claimed : Env → Text → Round → ProcessingBundle → Site → Outcome × Site
  process_claimed env worker_id r bundle s =
      let (result, bench) = attempt p env r.first_call bundle in
      let (lost, w) = heartbeat env bundle.job.id worker_id r.ticks s.tables in
      elim lost [
        | some e ↦ (Outcome.lease_lost e, record s { tables = w })
        | none ↦
            conclude env worker_id bundle bench.store.keys result
              (record s { tables = run env r.others w })
      ]

  -- errors.Is(err, domain.ErrNoProcessingJob)
  abbrev pub claim_outcome : Error → Outcome
  claim_outcome no_processing_job = Outcome.idle
  claim_outcome e = Outcome.claim_failed e

  unfoldable pub process_next : Env → Text → Round → Site → Outcome × Site
  process_next env worker_id r s =
      let (claim, w) = claim_next_job worker_id env s.tables in
      let s' = record s { tables = w } in
      elim claim [
        | err e ↦ (claim_outcome e, s')
        | ok bundle ↦ process_claimed env worker_id r bundle s'
      ]

-- RequeueStale with a lease
unfoldable pub requeue_stale : ℕ → M Store Error ℕ
requeue_stale lease = do now ← time_now; requeue_stale_jobs (now - lease)

unfoldable pub expire_uploads : M Store Error ℕ
expire_uploads = do now ← time_now; expire_upload_sessions now
