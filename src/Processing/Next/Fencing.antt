-- ===== src/Processing/Next/Fencing.antt =====
-- The order of ProcessNext's calls: it deletes nothing before the transition that proves its lease.
use blueprint_audio_backend.Common.{
  Bool, true, false, none, List, [], ◌≡◌, ◌⊎◌, refl, inl, inr, arith, find_where, Text,
  Option-cases,
}
use blueprint_audio_backend.Db.{Env, World, Result, ok, err}
use blueprint_audio_backend.Db.Results.{Result-cases}
use blueprint_audio_backend.Catalog.Domain.{ProcessingBundle, ProcessedSpecFiles}
use blueprint_audio_backend.Catalog.Tables.{Store}
use blueprint_audio_backend.Catalog.History.{run}
use blueprint_audio_backend.Catalog.Jobs.{holds_lease, fail_job, complete_job}
use blueprint_audio_backend.Catalog.Jobs.Leases.{unleased_fenced}
use blueprint_audio_backend.Processing.Media.{ProcessError, Ports}
use blueprint_audio_backend.Processing.Next.{
  Round, Site, Outcome, heartbeat, record_failure, record_success, conclude, attempt,
  process_claimed,
}

-- ProcessNext has recorded the end of the job
abbrev pub is_settled : Outcome → Bool
is_settled (Outcome.failed e) = true
is_settled (Outcome.completed files) = true
is_settled _ = false

-- the tables when ProcessNext comes to its final transition
abbrev pub final_tables : Env → Text → Round → ProcessingBundle → Site → World Store
final_tables env worker_id r bundle s =
    run env r.others (heartbeat env bundle.job.id worker_id r.ticks s.tables).1

-- no end of the job is recorded, and nothing else is changed
abbrev IsUnsettled : Site → Outcome × Site → Type 0
IsUnsettled s (o, s') =
    (is_settled o ≡ false)
    × (s'.deleted ≡ s.deleted)
    × (s'.notices ≡ s.notices)
    × (s'.tables.store ≡ s.tables.store)

module _ (p : Ports) (describe : ProcessError → Text) (has_notifier : Bool) where
  record_failure-fenced :
      (env : Env) (worker_id : Text) (bundle : ProcessingBundle) (e : ProcessError)
      (keys : List Text) (s : Site)
      → find_where (holds_lease bundle.job.id worker_id) s.tables.store.jobs ≡ none
      → IsUnsettled s (record_failure p describe has_notifier env worker_id bundle e keys s)
  unfolding record_failure
  record_failure-fenced env worker_id bundle e keys s none_held =
      let no_files : ProcessedSpecFiles = record {
        image_url = [];
        preview_url = [];
        wav_url = none;
        stems_url = none;
        duration = 0;
        waveform_peaks = [];
      } in
      let (_, _, not_failed, kept, _, _) =
        unleased_fenced bundle.job.id worker_id (describe e) no_files env s.tables none_held in
      elim (Result-cases (fail_job bundle.job.id worker_id (describe e) env s.tables).0) [
        | inl (x, fails) ↦ ground (arith, kept)
        | inr (_, marks) ↦ absurd (not_failed marks)
      ]

  record_success-fenced :
      (env : Env) (worker_id : Text) (bundle : ProcessingBundle) (files : ProcessedSpecFiles)
      (s : Site)
      → find_where (holds_lease bundle.job.id worker_id) s.tables.store.jobs ≡ none
      → IsUnsettled s (record_success p describe has_notifier env worker_id bundle files s)
  unfolding record_success
  record_success-fenced env worker_id bundle files s none_held =
      let (not_completed, kept, _, _, _, _) =
        unleased_fenced bundle.job.id worker_id [] files env s.tables none_held in
      elim (Result-cases (complete_job bundle.job.id worker_id files env s.tables).0) [
        | inl (x, fails) ↦ ground (arith, kept)
        | inr (_, completes) ↦ absurd (not_completed completes)
      ]

  conclude-fenced :
      (env : Env) (worker_id : Text) (bundle : ProcessingBundle) (keys : List Text)
      (result : Result ProcessError ProcessedSpecFiles) (s : Site)
      → find_where (holds_lease bundle.job.id worker_id) s.tables.store.jobs ≡ none
      → IsUnsettled s (conclude p describe has_notifier env worker_id bundle keys result s)
  unfolding conclude
  conclude-fenced env worker_id bundle keys (err e) s none_held =
      record_failure-fenced env worker_id bundle e keys s none_held
  conclude-fenced env worker_id bundle keys (ok files) s none_held =
      record_success-fenced env worker_id bundle files s none_held

  -- Where the worker's lease is gone in the tables at the time of the final transition, ProcessNext
  -- does not record an end of the job, deletes no object, notifies nobody, and
  -- leaves the tables as the heartbeat and the other clients left them.
  pub process_claimed-fenced :
      (env : Env) (worker_id : Text) (r : Round) (bundle : ProcessingBundle) (s : Site)
      → find_where
          (holds_lease bundle.job.id worker_id)
          (final_tables env worker_id r bundle s).store.jobs
        ≡ none
      → let (o, s') = process_claimed p describe has_notifier env worker_id r bundle s in
        (is_settled o ≡ false)
        × (s'.deleted ≡ s.deleted)
        × (s'.notices ≡ s.notices)
        × ((s'.tables.store ≡ (final_tables env worker_id r bundle s).store)
            ⊎ (s'.tables ≡ (heartbeat env bundle.job.id worker_id r.ticks s.tables).1))
  unfolding process_claimed
  process_claimed-fenced env worker_id r bundle s none_held =
      let s' = record s { tables = final_tables env worker_id r bundle s } in
      elim (Option-cases (heartbeat env bundle.job.id worker_id r.ticks s.tables).0) [
        | inr (e, lost) ↦
            let w = (heartbeat env bundle.job.id worker_id r.ticks s.tables).1 in
            let ends : process_claimed p describe has_notifier env worker_id r bundle s
                ≡ (Outcome.lease_lost e, record s { tables = w }) =
              rw (lost, process_claimed) refl in
            rw ends (refl, refl, refl, inr refl)
        | inl beats ↦
            let (result, bench) = attempt p env r.first_call bundle in
            let ends : process_claimed p describe has_notifier env worker_id r bundle s
                ≡ conclude p describe has_notifier env worker_id bundle bench.store.keys result s' =
              rw (beats, process_claimed) refl in
            let (unsettled, deleted, notices, tables) =
              conclude-fenced env worker_id bundle bench.store.keys result s' none_held in
            rw ends (unsettled, deleted, notices, inl tables)
      ]
