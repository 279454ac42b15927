-- ===== src/Catalog/Jobs/Enqueue.antt =====
-- FinalizeUpload keeps the queue's invariant: the new job and its session are queued together.
use blueprint_audio_backend.Common.{
  ℕ, true, false, none, some, List, [], ◌∷◌, ◌==◌, ◌≡◌, ◌≢◌, ◌∙◌, ◌||◌, refl, ap, arith, sym, subst,
  inl, inr, update_where, find_where, In,
}
use blueprint_audio_backend.Common.Table.Laws.{In-append, exists_false}
use blueprint_audio_backend.Db.{Env, World}
use blueprint_audio_backend.Db.Laws.{IsAtomic, transaction-IsAtomic}
use blueprint_audio_backend.Catalog.Domain.{
  database, UploadStatus, Spec, SpecUploadSession, SpecProcessingJob, is_uploading,
}
use blueprint_audio_backend.Catalog.Tables.{Store, job_violates, session_is}
use blueprint_audio_backend.Catalog.Jobs.{finalize_upload, still_uploading, queued_session}
use blueprint_audio_backend.Catalog.Jobs.Finalize.{Finalized, finalize_upload_ok}
use blueprint_audio_backend.Catalog.Invariant.{
  IsValid, Tracked, Keyed, Leased, session_status, status_of, appended-Keyed,
}
use blueprint_audio_backend.Catalog.Statuses.{
  Moves, enqueue, Moves-along, Sound, status-guarded, status-guarded-Moves, session_status_settled,
}
use blueprint_audio_backend.Catalog.Sessions.Soundness.{atomic-Sound}

-- the unique constraints, as the insertion of a job checks them
fresh-keys :
    (q : SpecProcessingJob) (s : Store)
    → job_violates q s ≡ false
    → (j : SpecProcessingJob) → In j s.jobs
    → (j.id ≢ q.id) × (j.session_id ≢ q.session_id)
fresh-keys q s h j m =
    let no_clash =
      exists_false
        (λ (r : SpecProcessingJob).
          r.id == q.id || r.spec_id == q.spec_id || r.session_id == q.session_id)
        s.jobs j (ground arith) m in
    ((λ e. ground arith), (λ e. ground arith))

status-queued :
    (at id : ℕ) (sessions : List SpecUploadSession) {r : SpecUploadSession}
    → find_where (session_is id) sessions ≡ some r
    → is_uploading r.status ≡ true
    → status_of id (update_where (still_uploading id) (queued_session at) sessions)
      ≡ some UploadStatus.queued
status-queued at id [] h u = absurd (ground arith)
status-queued at id (x ∷ sessions) {r} h u = ground (arith, status-queued at id sessions {r = r})

module _ (session : SpecUploadSession) (job : SpecProcessingJob) (s t : Store) (v : IsValid s) where
  enqueued-IsValid : job.locked_at ≡ none → Finalized session job s tt t → IsValid t
  enqueued-IsValid unlocked
        (
          (locked, found, uploading),
          (q, of_session, status, unleased, (checked, same, unique), jobs, (at, sessions)),
        ) =
      record { tracked = tracked; keyed = keyed; leased = leased }
    where
      fresh : (j : SpecProcessingJob) → In j s.jobs → (j.id ≢ q.id) × (j.session_id ≢ q.session_id)
      fresh j m = fresh-keys q checked unique j (subst (In j) (sym same) m)

      keyed : Keyed t.jobs
      keyed = subst Keyed (sym jobs) (appended-Keyed s.jobs q fresh v.keyed)

      tracked : Tracked t.jobs t.sessions
      tracked j m = elim (In-append s.jobs q j (subst (In j) jobs m)) [
        | inl old ↦
            ap (status_of j.session_id) sessions
            ∙ status-guarded (still_uploading session.id) (queued_session at)
                (session_status j.status) s.sessions j.session_id (λ r. refl) (λ r h. ground arith)
                (v.tracked j old) (session_status_settled j.status)
        | inr new ↦
            ap (status_of j.session_id) sessions
            ∙ rw (new, of_session, status) (status-queued at session.id s.sessions found uploading)
      ]

      leased : Leased t.jobs
      leased j m = elim (In-append s.jobs q j (subst (In j) jobs m)) [
        | inl old ↦ v.leased j old
        | inr new ↦ rw (new, status, unleased, unlocked) (refl, λ p. absurd (ground arith))
      ]

  enqueued-Moves :
      Finalized session job s tt t
      → (k : ℕ) → Moves (status_of k s.sessions) (status_of k t.sessions)
  enqueued-Moves (_, (q, _, _, _, _, _, (at, sessions))) k =
      Moves-along refl (ap (status_of k) sessions) (
        status-guarded-Moves (still_uploading session.id) (queued_session at) UploadStatus.queued
          s.sessions k (λ r. refl) (λ r. refl) (λ r h. ground arith) enqueue)

finalize_upload-IsAtomic :
    (session : SpecUploadSession) (spec : Spec) (job : SpecProcessingJob)
    → IsAtomic (finalize_upload session spec job)
unfolding finalize_upload
finalize_upload-IsAtomic session spec job = transaction-IsAtomic database _

pub finalize_upload-Sound :
    (session : SpecUploadSession) (spec : Spec) (job : SpecProcessingJob) (env : Env)
    (w : World Store)
    → job.locked_at ≡ none
    → IsValid w.store
    → Sound w.store (finalize_upload session spec job env w).1.store
finalize_upload-Sound session spec job env w unlocked v =
    atomic-Sound (finalize_upload session spec job) env w
      (finalize_upload-IsAtomic session spec job) v
      λ _ h.
        let done = finalize_upload_ok session spec job env w h in
        let t = (finalize_upload session spec job env w).1.store in
        record {
          valid = enqueued-IsValid session job w.store t v unlocked done;
          moves = enqueued-Moves session job w.store t v done;
        }
