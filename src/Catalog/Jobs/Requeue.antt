-- ===== src/Catalog/Jobs/Requeue.antt =====
-- RequeueStaleJobs and FinalizeUpload keep the queue's invariant.
use mathlib.Core.Option
use blueprint_audio_backend.Common.{
  ℕ, some, ◌≡◌, refl, arith, Bool-cases, inl, inr, update_where, In, member, if◌then◌else◌,
}
use blueprint_audio_backend.Common.Table.Laws.{
  In-update_where, In-select, select-In, member-map, map-member,
}
use blueprint_audio_backend.Db.{Env, World}
use blueprint_audio_backend.Catalog.Domain.{UploadStatus, ProcessingJobStatus, SpecProcessingJob}
use blueprint_audio_backend.Catalog.Tables.{Store}
use blueprint_audio_backend.Catalog.Jobs.{
  set_status, is_stale, requeued, stale_sessions, requeue_stale_jobs,
}
use blueprint_audio_backend.Catalog.Invariant.{
  IsValid, Keyed, session_status, status_of, status-update, Keyed-update, Leased-update,
}
use blueprint_audio_backend.Catalog.Statuses.{
  Moves, stay, requeue, Moves-along, Sound, Sound-refl, Sound-along,
}

module _ (before now : ℕ) (s : Store) where
  -- the store after RequeueStaleJobs
  abbrev requeued_store : Store
  requeued_store = record s {
    jobs = update_where (is_stale before) (requeued now) s.jobs;
    sessions =
        update_where (λ r. member r.id (stale_sessions before s))
          (set_status UploadStatus.queued now) s.sessions;
  }

  -- the sessions that it writes are those of the stale jobs
  member-stale :
      Keyed s.jobs
      → (j : SpecProcessingJob) → In j s.jobs
      → member j.session_id (stale_sessions before s) ≡ is_stale before j
  member-stale k j m = elim (Bool-cases (is_stale before j)) [
    | inl hit ↦ rw hit (
        member-map (λ (x : SpecProcessingJob). x.session_id) _ j
          (In-select (is_stale before) s.jobs j m hit))
    | inr miss ↦ rw miss (elim (Bool-cases (member j.session_id (stale_sessions before s))) [
      | inr no_member ↦ no_member
      | inl is_member ↦
          let (x, mx, e) =
            map-member (λ (x : SpecProcessingJob). x.session_id) _ j.session_id is_member in
          let (ix, stale) = select-In (is_stale before) s.jobs x mx in
          let same : j ≡ x = (k j x m ix).1 e in absurd (cc)
    ])
  ]

  status-requeued :
      (k : ℕ)
      → status_of k requeued_store.sessions ≡ (
          if member k (stale_sessions before s)
          then Option.map (λ _. UploadStatus.queued) (status_of k s.sessions)
          else status_of k s.sessions)
  status-requeued k =
      status-update (λ i. member i (stale_sessions before s)) (set_status UploadStatus.queued now)
        UploadStatus.queued s.sessions k (λ r. refl) (λ r. refl)

  requeued-IsValid : IsValid s → IsValid requeued_store
  requeued-IsValid v = record {
    tracked = λ a m.
        let (x, mx, e) = In-update_where (is_stale before) (requeued now) s.jobs a m in
        rw e (elim (Bool-cases (is_stale before x)) [
          | inl hit ↦
              ground
                (arith, status-requeued x.session_id, member-stale v.keyed x mx, v.tracked x mx)
          | inr miss ↦
              ground
                (arith, status-requeued x.session_id, member-stale v.keyed x mx, v.tracked x mx)
        ]);
    keyed = Keyed-update (is_stale before) (requeued now) s.jobs (λ j. refl) (λ j. refl) v.keyed;
    leased =
        Leased-update (is_stale before) (requeued now) s.jobs
          (λ j h l. (refl, λ p. absurd (ground arith))) v.leased;
  }

  requeued-Moves :
      IsValid s → (k : ℕ) → Moves (status_of k s.sessions) (status_of k requeued_store.sessions)
  requeued-Moves v k = elim (Bool-cases (member k (stale_sessions before s))) [
    | inr miss ↦ Moves-along refl (rw miss at (status-requeued k)) stay
    | inl hit ↦
        let (x, mx, e) = map-member (λ (x : SpecProcessingJob). x.session_id) _ k hit in
        let (ix, stale) = select-In (is_stale before) s.jobs x mx in
        let here : status_of k s.sessions ≡ some (session_status x.status) =
          rw e (v.tracked x ix) in
        let running : x.status ≡ ProcessingJobStatus.processing = ground arith in
        Moves-along (rw running at here) (ground (arith, status-requeued k)) requeue
  ]

pub requeue_stale_jobs-Sound :
    (before : ℕ) (env : Env) (w : World Store)
    → IsValid w.store
    → Sound w.store (requeue_stale_jobs before env w).1.store
unfolding requeue_stale_jobs
requeue_stale_jobs-Sound before env w v = elim (Bool-cases (env.fault w.tick)) [
  | inl e ↦ Sound-along (ground arith) (Sound-refl v)
  | inr e ↦
      Sound-along {u = requeued_store before (env.clock w.tick) w.store} (ground arith) (record {
        valid = requeued-IsValid before (env.clock w.tick) w.store v;
        moves = requeued-Moves before (env.clock w.tick) w.store v;
      })
]
