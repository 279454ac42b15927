-- ===== src/Catalog/Jobs/Finalize.antt =====
-- What the store holds after FinalizeUpload succeeds.
use blueprint_audio_backend.Common.{
  ℕ, true, false, some, [], ◌∷◌, ◌++◌, ◌≡◌, ◌∙◌, ap, refl, arith, find_where, update_where,
  Option-cases, inl, inr, suc,
}
use blueprint_audio_backend.Db.{Env, World, ok, ◌>>=◌, ◌>>◌}
use blueprint_audio_backend.Db.Laws.{Ensures, >>=-Ensures, transaction-Ensures}
use blueprint_audio_backend.Catalog.Domain.{
  database, ProcessingJobStatus, Spec, SpecUploadSession, SpecProcessingJob, is_uploading,
}
use blueprint_audio_backend.Catalog.Tables.{Store, session_is, job_violates}
use blueprint_audio_backend.Catalog.Sessions.{Action, id_or_new}
use blueprint_audio_backend.Catalog.Specs.{create_spec_tx}
use blueprint_audio_backend.Catalog.Jobs.{
  check_finalizable, still_uploading, queued_session, store_assets, enqueue, finalize_upload,
  create_job, finalize_body, queued_job,
}
use blueprint_audio_backend.Catalog.Frames.{queue, create_spec_tx-Keeps, store_assets-Keeps}

-- the session that FinalizeUpload locks is there and still uploading
abbrev pub Locks : SpecUploadSession → Store → Type 0
Locks session s =
    (locked : SpecUploadSession) × (find_where (session_is session.id) s.sessions ≡ some locked)
    × (is_uploading locked.status ≡ true)

check_finalizable-Locks :
    (session : SpecUploadSession) (spec : Spec) (env : Env) (w : World Store)
    → Ensures (check_finalizable session spec) env w (λ _ t. Locks session w.store × (t ≡ w.store))
unfolding check_finalizable
check_finalizable-Locks session spec env w _ h =
    elim (Option-cases (find_where (session_is session.id) w.store.sessions)) [
      | inl e ↦ absurd (ground arith)
      | inr (r, e) ↦ ((r, e, ground arith), ground arith)
    ]

enqueue_ok :
    (session_id tx_now : ℕ) (q : SpecProcessingJob) (env : Env) (w : World Store)
    → (enqueue session_id tx_now q env w).0 ≡ ok tt
    → (job_violates q w.store ≡ false)
      × ((enqueue session_id tx_now q env w).1.store.jobs ≡ w.store.jobs ++ q ∷ [])
      × ((enqueue session_id tx_now q env w).1.store.sessions
          ≡ update_where (still_uploading session_id) (queued_session tx_now) w.store.sessions)
unfolding enqueue
enqueue_ok session_id tx_now q env w h = (ground arith, ground arith, ground arith)

id_or_new-Keeps :
    (id : ℕ) (env : Env) (w : World Store) (s : Store)
    → queue w.store ≡ queue s
    → queue (id_or_new id env w).1.store ≡ queue s
id_or_new-Keeps id env w s h = ground arith

-- what FinalizeUpload's INSERT of the job has done to the queue `s`
abbrev pub Queues : SpecUploadSession → SpecProcessingJob → Store → Store → Type 0
Queues session job s t =
    (q : SpecProcessingJob) × (q.session_id ≡ session.id)
    × (q.status ≡ ProcessingJobStatus.queued)
    × (q.locked_at ≡ job.locked_at)
    × ((checked : Store) × (checked.jobs ≡ s.jobs) × (job_violates q checked ≡ false))
    × (t.jobs ≡ s.jobs ++ q ∷ [])
    × ((at : ℕ) × (t.sessions
          ≡ update_where (still_uploading session.id) (queued_session at) s.sessions))

create_job-Queues :
    (session : SpecUploadSession) (tx_now : ℕ) (job : SpecProcessingJob) (spec_id : ℕ) (s : Store)
    (env : Env) (w : World Store)
    → queue w.store ≡ queue s
    → Ensures (create_job session tx_now job spec_id) env w (λ _ t. Queues session job s t)
create_job-Queues session tx_now job spec_id s env w same =
    >>=-Ensures (id_or_new job.id)
      (λ id. enqueue session.id tx_now (queued_job id spec_id session.id (env.clock w.tick) job))
      env (record w { tick = suc w.tick }) (λ _ t. queue t ≡ queue s)
      (λ _ t. Queues session job s t)
      (λ a h. id_or_new-Keeps job.id env (record w { tick = suc w.tick }) s same)
      λ id w' same' _ h. wrote id w' same' h
  where
    wrote :
        (id : ℕ) (w' : World Store)
        → queue w'.store ≡ queue s
        → (enqueue session.id tx_now
            (queued_job id spec_id session.id (env.clock w.tick) job)
            env
            w').0
          ≡ ok tt
        → Queues session job s
            (enqueue session.id tx_now
              (queued_job id spec_id session.id (env.clock w.tick) job)
              env
              w').1.store
    wrote id w' same' h =
        let q : SpecProcessingJob = queued_job id spec_id session.id (env.clock w.tick) job in
        let (fresh, jobs, sessions) = enqueue_ok session.id tx_now q env w' h in
        let same_jobs : w'.store.jobs ≡ s.jobs = ap (λ p. p.1) same' in
        let same_sessions : w'.store.sessions ≡ s.sessions = ap (λ p. p.0) same' in
        (q, refl, refl, refl, (w'.store, same_jobs, fresh), cc, (tx_now, cc))

-- FinalizeUpload, where it succeeds in `s`, leaves `t`
abbrev pub Finalized : SpecUploadSession → SpecProcessingJob → Store → Unit {0} → Store → Type 0
Finalized session job s _ t = Locks session s × Queues session job s t

finalize_upload-Finalized :
    (session : SpecUploadSession) (spec : Spec) (job : SpecProcessingJob) (env : Env)
    (w : World Store)
    → Ensures (finalize_upload session spec job) env w (Finalized session job w.store)
unfolding finalize_upload
finalize_upload-Finalized session spec job env w =
    let tx_now = env.clock w.tick in
    let s = w.store in
    let Q = Finalized session job s in
    transaction-Ensures database (finalize_body session spec job) env w Q (
      >>=-Ensures (check_finalizable session spec) (λ _. store tx_now) env
        (record w { tick = suc w.tick }) (λ _ t. Locks session s × (t ≡ s)) Q
        (check_finalizable-Locks session spec env (record w { tick = suc w.tick }))
        λ _ w1 (locks, same1).
          >>=-Ensures (store_assets session.id tx_now session.assets) (λ _. publish tx_now) env w1
            (λ _ t. queue t ≡ queue s) Q
            (λ _ _. store_assets-Keeps session.id tx_now session.assets env w1 ∙ ap queue same1)
            λ _ w2 same2.
              >>=-Ensures (create_spec_tx spec) (create_job session tx_now job) env w2
                (λ _ t. queue t ≡ queue s) Q (λ _ _. create_spec_tx-Keeps spec env w2 ∙ same2)
                λ spec_id w3 same3 b h.
                  (locks, create_job-Queues session tx_now job spec_id s env w3 same3 b h))
  where
    publish : ℕ → Action (Unit {0})
    publish tx_now = create_spec_tx spec >>= create_job session tx_now job

    store : ℕ → Action (Unit {0})
    store tx_now = store_assets session.id tx_now session.assets >> publish tx_now

-- Where FinalizeUpload succeeds, the session was stored and uploading; one row is added to the
-- jobs, queued for the session and with a key that no other job has, and the session's status
-- becomes queued where it was uploading.
pub finalize_upload_ok :
    (session : SpecUploadSession) (spec : Spec) (job : SpecProcessingJob) (env : Env)
    (w : World Store)
    → (finalize_upload session spec job env w).0 ≡ ok tt
    → Locks session w.store
      × Queues session job w.store (finalize_upload session spec job env w).1.store
finalize_upload_ok session spec job env w h = finalize_upload-Finalized session spec job env w tt h
