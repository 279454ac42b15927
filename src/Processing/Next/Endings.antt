-- ===== src/Processing/Next/Endings.antt =====
-- What ProcessNext has done where it records the end of a job.
use blueprint_audio_backend.Common.{
  ℕ, Bool, false, some, List, ◌≡◌, ◌≢◌, ◌⊎◌, refl, ◌∙◌, inl, inr, arith, find_where, In, All, subst,
  sym, ap, Text, Bool-cases, Option-cases,
}
use blueprint_audio_backend.Db.{Env, World, Result, ok, err}
use blueprint_audio_backend.Db.Results.{Result-cases}
use blueprint_audio_backend.Catalog.Domain.{
  Error, SpecProcessingJob, ProcessingBundle, ProcessedSpecFiles,
}
use blueprint_audio_backend.Catalog.Tables.{Store}
use blueprint_audio_backend.Catalog.Jobs.{holds_lease, fail_job, complete_job}
use blueprint_audio_backend.Catalog.Jobs.Outcomes.{
  fail_job_ok, complete_job_ok, failed_store, completed_store,
}
use blueprint_audio_backend.Processing.Media.{ProcessError, Ports, is_interruption}
use blueprint_audio_backend.Processing.Process.Keys.{process-keys}
use blueprint_audio_backend.Processing.Next.{
  Round, Site, Outcome, heartbeat, cleanup, delete_sources, notify, failure_notice, success_notice,
  record_failure, record_success, conclude, attempt, process_claimed,
}
use blueprint_audio_backend.Processing.Next.Fencing.{final_tables}
use blueprint_audio_backend.Processing.Next.Cleanup.{
  cleanup-tables, All-In, source_keys, delete_sources-cleanup, notify-kept, Deletes,
  cleanup-Deletes,
}

-- the worker `worker_id` held the lease, and the job has failed in the tables after
abbrev pub FailedJob : Env → ℕ → Text → Text → World Store → World Store → Type 0
FailedJob env job_id worker_id reason w w' =
    (j : SpecProcessingJob) × (find_where (holds_lease job_id worker_id) w.store.jobs ≡ some j)
    × (w'.store ≡ failed_store j reason (env.clock w.tick) w.store)

-- the worker held the lease, and the job is completed with its spec's files
abbrev pub CompletedJob : Env → ℕ → Text → ProcessedSpecFiles → World Store → World Store → Type 0
CompletedJob env job_id worker_id files w w' =
    (j : SpecProcessingJob) × (find_where (holds_lease job_id worker_id) w.store.jobs ≡ some j)
    × (w'.store ≡ completed_store j files (env.clock w.tick) w.store)

module _ (p : Ports) (describe : ProcessError → Text) (has_notifier : Bool) where
  -- the transition succeeded, then the keys were deleted
  record_failure_ok :
      (env : Env) (worker_id : Text) (bundle : ProcessingBundle) (e e' : ProcessError)
      (keys : List Text) (s : Site)
      → (record_failure p describe has_notifier env worker_id bundle e keys s).0 ≡ Outcome.failed e'
      → (e ≡ e')
        × (is_interruption e ≡ false)
        × ((fail_job bundle.job.id worker_id (describe e) env s.tables).0 ≡ ok tt)
        × ((record_failure p describe has_notifier env worker_id bundle e keys s).1
            ≡ notify has_notifier (failure_notice bundle) (
                cleanup keys (record s {
                  tables = (fail_job bundle.job.id worker_id (describe e) env s.tables).1;
                })))
  unfolding record_failure
  record_failure_ok env worker_id bundle e e' keys s h = elim (Bool-cases (is_interruption e)) [
    | inl stops ↦ absurd (ground arith)
    | inr goes_on ↦
        elim (Result-cases (fail_job bundle.job.id worker_id (describe e) env s.tables).0) [
          | inl (x, fails) ↦ absurd (ground arith)
          | inr (_, marks) ↦ (ground arith, goes_on, marks, ground arith)
        ]
  ]

  record_success_ok :
      (env : Env) (worker_id : Text) (bundle : ProcessingBundle) (files files' : ProcessedSpecFiles)
      (s : Site)
      → (record_success p describe has_notifier env worker_id bundle files s).0
        ≡ Outcome.completed files'
      → (files ≡ files')
        × ((complete_job bundle.job.id worker_id files env s.tables).0 ≡ ok tt)
        × ((record_success p describe has_notifier env worker_id bundle files s).1
            ≡ notify has_notifier (success_notice bundle) (
                delete_sources bundle.assets (record s {
                  tables = (complete_job bundle.job.id worker_id files env s.tables).1;
                })))
  unfolding record_success
  record_success_ok env worker_id bundle files files' s h =
      elim (Result-cases (complete_job bundle.job.id worker_id files env s.tables).0) [
        | inl (x, fails) ↦ absurd (ground arith)
        | inr (_, completes) ↦ (ground arith, completes, ground arith)
      ]

  record_failure-ne-completed :
      (env : Env) (worker_id : Text) (bundle : ProcessingBundle) (e : ProcessError)
      (keys : List Text) (s : Site) (files : ProcessedSpecFiles)
      → (record_failure p describe has_notifier env worker_id bundle e keys s).0
        ≢ Outcome.completed files
  unfolding record_failure
  record_failure-ne-completed env worker_id bundle e keys s files h = ground arith

  record_success-ne-failed :
      (env : Env) (worker_id : Text) (bundle : ProcessingBundle) (files : ProcessedSpecFiles)
      (s : Site) (e : ProcessError)
      → (record_success p describe has_notifier env worker_id bundle files s).0 ≢ Outcome.failed e
  unfolding record_success
  record_success-ne-failed env worker_id bundle files s e h = ground arith

  -- how ProcessNext ends, once the heartbeat has ended without an error
  concluded :
      (env : Env) (worker_id : Text) (r : Round) (bundle : ProcessingBundle) (s : Site)
      → ((e : Error) × ((process_claimed p describe has_notifier env worker_id r bundle s).0
            ≡ Outcome.lease_lost e))
        ⊎ (process_claimed p describe has_notifier env worker_id r bundle s
            ≡ conclude p describe has_notifier env worker_id bundle
                (attempt p env r.first_call bundle).1.store.keys
                (attempt p env r.first_call bundle).0
                (record s { tables = final_tables env worker_id r bundle s }))
  unfolding process_claimed
  concluded env worker_id r bundle s =
      elim (Option-cases (heartbeat env bundle.job.id worker_id r.ticks s.tables).0) [
        | inr (e, lost) ↦ inl (e, rw (lost, process_claimed) refl)
        | inl beats ↦ inr (rw (beats, process_claimed) refl)
      ]

  conclude-failed :
      (env : Env) (worker_id : Text) (bundle : ProcessingBundle) (keys : List Text)
      (result : Result ProcessError ProcessedSpecFiles) (s : Site) (e : ProcessError)
      → (conclude p describe has_notifier env worker_id bundle keys result s).0 ≡ Outcome.failed e
      → let s' = (conclude p describe has_notifier env worker_id bundle keys result s).1 in
        (result ≡ err e)
        × (is_interruption e ≡ false)
        × FailedJob env bundle.job.id worker_id (describe e) s.tables s'.tables
        × Deletes keys s.deleted s'.deleted
  unfolding conclude
  conclude-failed env worker_id bundle keys (ok files) s e h =
      absurd (record_success-ne-failed env worker_id bundle files s e h)
  conclude-failed env worker_id bundle keys (err x) s e h =
      let (same, goes_on, marks, ends) = record_failure_ok env worker_id bundle x e keys s h in
      let w = (fail_job bundle.job.id worker_id (describe x) env s.tables).1 in
      let cleaned = cleanup keys (record s { tables = w }) in
      let (kept, tables) = notify-kept has_notifier (failure_notice bundle) cleaned in
      let (j, held, failed) = fail_job_ok bundle.job.id worker_id (describe x) env s.tables marks in
      let after : (record_failure p describe has_notifier env worker_id bundle x keys s).1.tables
          ≡ w =
        ap (λ (t : Site). t.tables) ends ∙ tables ∙ cleanup-tables keys (record s { tables = w }) in
      (
        ap (λ y. err y) same,
        subst (λ y. is_interruption y ≡ false) same goes_on,
        (
          j,
          held,
          ap (λ (t : World Store). t.store) after
              ∙ subst
                  (λ y.
                    w.store ≡ failed_store j (describe y) (env.clock s.tables.tick) s.tables.store)
                  same failed,
        ),
        subst (Deletes keys s.deleted) (sym (ap (λ (t : Site). t.deleted) ends ∙ kept))
            (cleanup-Deletes keys (record s { tables = w })),
      )

  conclude-completed :
      (env : Env) (worker_id : Text) (bundle : ProcessingBundle) (keys : List Text)
      (result : Result ProcessError ProcessedSpecFiles) (s : Site) (files : ProcessedSpecFiles)
      → (conclude p describe has_notifier env worker_id bundle keys result s).0
        ≡ Outcome.completed files
      → let s' = (conclude p describe has_notifier env worker_id bundle keys result s).1 in
        (result ≡ ok files)
        × CompletedJob env bundle.job.id worker_id files s.tables s'.tables
        × Deletes (source_keys bundle.assets) s.deleted s'.deleted
  unfolding conclude
  conclude-completed env worker_id bundle keys (err e) s files h =
      absurd (record_failure-ne-completed env worker_id bundle e keys s files h)
  conclude-completed env worker_id bundle keys (ok x) s files h =
      let (same, completes, ends) = record_success_ok env worker_id bundle x files s h in
      let w = (complete_job bundle.job.id worker_id x env s.tables).1 in
      let sources = source_keys bundle.assets in
      let cleaned = delete_sources bundle.assets (record s { tables = w }) in
      let (kept, tables) = notify-kept has_notifier (success_notice bundle) cleaned in
      let swept = delete_sources-cleanup bundle.assets (record s { tables = w }) in
      let (j, held, _, done) = complete_job_ok bundle.job.id worker_id x env s.tables completes in
      let after : (record_success p describe has_notifier env worker_id bundle x s).1.tables ≡ w =
        ap (λ (t : Site). t.tables) ends
        ∙ tables
        ∙ ap (λ (t : Site). t.tables) swept
        ∙ cleanup-tables sources (record s { tables = w }) in
      (
        ap (λ y. ok y) same,
        (
          j,
          held,
          ap (λ (t : World Store). t.store) after
              ∙ subst (λ y. w.store ≡ completed_store j y (env.clock s.tables.tick) s.tables.store)
                  same done,
        ),
        subst (Deletes sources s.deleted)
            (sym (ap (λ (t : Site). t.deleted) ends ∙ kept ∙ ap (λ (t : Site). t.deleted) swept))
            (cleanup-Deletes sources (record s { tables = w })),
      )

  -- Where ProcessNext records a failure, its attempt failed with that error, which is no
  -- cancellation; the worker held the lease on the job in the tables then, and in these the job, its
  -- session and its spec are marked as failed together; and every object that the attempt may have
  -- written is deleted.
  pub process_claimed-failed :
      (env : Env) (worker_id : Text) (r : Round) (bundle : ProcessingBundle) (s : Site)
      (e : ProcessError)
      → (process_claimed p describe has_notifier env worker_id r bundle s).0 ≡ Outcome.failed e
      → let s' = (process_claimed p describe has_notifier env worker_id r bundle s).1 in
        let (result, bench) = attempt p env r.first_call bundle in
        (result ≡ err e)
        × (is_interruption e ≡ false)
        × FailedJob env bundle.job.id worker_id
            (describe e)
            (final_tables env worker_id r bundle s)
            s'.tables
        × All (λ k. In k s'.deleted) bench.store.written
  process_claimed-failed env worker_id r bundle s e h = elim (concluded env worker_id r bundle s) [
    | inl (x, lost) ↦ absurd (ground arith)
    | inr ends ↦
        let (result, bench) = attempt p env r.first_call bundle in
        let ready = record s { tables = final_tables env worker_id r bundle s } in
        let (fails, goes_on, failed, (swept, _)) =
          conclude-failed env worker_id bundle bench.store.keys result ready e
            (ap (λ (t : Outcome × Site). t.0) (sym ends) ∙ h) in
        let (_, _, _, _, _, covered) = process-keys p bundle env r.first_call in
        rw ends
          (fails, goes_on, failed, All-In _ bench.store.keys bench.store.written covered swept)
  ]

  -- Where ProcessNext completes a job, its attempt succeeded with the files that it publishes; the
  -- worker held the lease on the job in the tables then, and in these the spec's files, the job and
  -- its session are written together; and exactly the uploaded sources and the copy of the
  -- unprocessed cover are deleted.
  pub process_claimed-completed :
      (env : Env) (worker_id : Text) (r : Round) (bundle : ProcessingBundle) (s : Site)
      (files : ProcessedSpecFiles)
      → (process_claimed p describe has_notifier env worker_id r bundle s).0
        ≡ Outcome.completed files
      → let s' = (process_claimed p describe has_notifier env worker_id r bundle s).1 in
        ((attempt p env r.first_call bundle).0 ≡ ok files)
        × CompletedJob env bundle.job.id worker_id files
            (final_tables env worker_id r bundle s)
            s'.tables
        × Deletes (source_keys bundle.assets) s.deleted s'.deleted
  process_claimed-completed env worker_id r bundle s files h =
      elim (concluded env worker_id r bundle s) [
        | inl (x, lost) ↦ absurd (ground arith)
        | inr ends ↦
            let (result, bench) = attempt p env r.first_call bundle in
            let ready = record s { tables = final_tables env worker_id r bundle s } in
            rw ends (
              conclude-completed env worker_id bundle bench.store.keys result ready files
                (ap (λ (t : Outcome × Site). t.0) (sym ends) ∙ h))
      ]
