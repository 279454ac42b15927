-- ===== src/Catalog/Invariant.antt =====
-- What holds of the queue between two operations of the repository.
use mathlib.Core.Option
use blueprint_audio_backend.Common.{
  ℕ, Bool, true, Option, some, List, [], ◌∷◌, ◌++◌, ◌==◌, ◌≡◌, ◌≢◌, inl, inr, arith, ap, sym,
  if◌then◌else◌, find_where, update_where, Bool-cases, In, touch, is_some, ◌∙◌,
}
use blueprint_audio_backend.Common.Table.Laws.{In-update_where, In-append}
use blueprint_audio_backend.Catalog.Domain.{
  UploadStatus, ProcessingJobStatus, SpecUploadSession, SpecProcessingJob, is_processing,
}
use blueprint_audio_backend.Catalog.Tables.{Store, session_is, job_is}
use blueprint_audio_backend.Catalog.Jobs.Outcomes.{moved}

-- the status of a session by its identifier
abbrev pub status_of : ℕ → List SpecUploadSession → Option UploadStatus
status_of id sessions = Option.map (λ r. r.status) (find_where (session_is id) sessions)

-- the status of a session whose job has this status
abbrev pub session_status : ProcessingJobStatus → UploadStatus
session_status ProcessingJobStatus.queued = UploadStatus.queued
session_status ProcessingJobStatus.processing = UploadStatus.processing
session_status ProcessingJobStatus.completed = UploadStatus.completed
session_status ProcessingJobStatus.failed = UploadStatus.failed

-- a job is leased to a worker, since some time, exactly while it is processing
abbrev pub LeaseFits : SpecProcessingJob → Type 0
LeaseFits j =
    (is_some j.locked_at ≡ is_processing j.status)
    × (is_processing j.status ≡ true → is_some j.worker_id ≡ true)

abbrev pub Tracked : List SpecProcessingJob → List SpecUploadSession → Type 0
Tracked jobs sessions =
    (j : SpecProcessingJob)
    → In j jobs
    → status_of j.session_id sessions ≡ some (session_status j.status)

abbrev pub Keyed : List SpecProcessingJob → Type 0
Keyed jobs =
    (a b : SpecProcessingJob)
    → In a jobs
    → In b jobs
    → (a.id ≡ b.id → a ≡ b) × (a.session_id ≡ b.session_id → a ≡ b)

abbrev pub Leased : List SpecProcessingJob → Type 0
Leased jobs = (j : SpecProcessingJob) → In j jobs → LeaseFits j

pub record IsValid (s : Store) : Type 0 where
  -- a job and its session agree on how far the upload has come
  pub tracked : Tracked s.jobs s.sessions
  -- the rows of jobs that share an identifier or a session are one row
  pub keyed : Keyed s.jobs
  pub leased : Leased s.jobs

-- an update of rows chosen by their identifier
pub status-update :
    (q : ℕ → Bool) (g : SpecUploadSession → SpecUploadSession) (st : UploadStatus)
    (sessions : List SpecUploadSession) (k : ℕ)
    → ((r : SpecUploadSession) → (g r).id ≡ r.id)
    → ((r : SpecUploadSession) → (g r).status ≡ st)
    → status_of k (update_where (λ r. q r.id) g sessions)
      ≡ (if q k then Option.map (λ _. st) (status_of k sessions) else status_of k sessions)
status-update q g st [] k hid hst = ground arith
status-update q g st (r ∷ sessions) k hid hst =
    ground (arith, hid r, hst r, status-update q g st sessions k hid hst)

pub Keyed-update :
    (p : SpecProcessingJob → Bool) (f : SpecProcessingJob → SpecProcessingJob)
    (jobs : List SpecProcessingJob)
    → ((j : SpecProcessingJob) → (f j).id ≡ j.id)
    → ((j : SpecProcessingJob) → (f j).session_id ≡ j.session_id)
    → Keyed jobs
    → Keyed (update_where p f jobs)
Keyed-update p f jobs hid hs k a b ma mb =
    let (x, mx, ex) = In-update_where p f jobs a ma in
    let (y, my, ey) = In-update_where p f jobs b mb in rw ex (rw ey (same x y (k x y mx my)))
  where
    same :
        (x y : SpecProcessingJob)
        → (x.id ≡ y.id → x ≡ y) × (x.session_id ≡ y.session_id → x ≡ y)
        → ((touch p f x).id ≡ (touch p f y).id → touch p f x ≡ touch p f y)
          × ((touch p f x).session_id ≡ (touch p f y).session_id → touch p f x ≡ touch p f y)
    same x y h = (
      (λ e. ap (touch p f) (h.0 (ground (arith, hid x, hid y)))),
      (λ e. ap (touch p f) (h.1 (ground (arith, hs x, hs y)))),
    )

pub Leased-update :
    (p : SpecProcessingJob → Bool) (f : SpecProcessingJob → SpecProcessingJob)
    (jobs : List SpecProcessingJob)
    → ((j : SpecProcessingJob) → p j ≡ true → LeaseFits j → LeaseFits (f j))
    → Leased jobs
    → Leased (update_where p f jobs)
Leased-update p f jobs h l a m =
    let (x, mx, e) = In-update_where p f jobs a m in
    rw e (elim (Bool-cases (p x)) [ inl t ↦ rw t (h x t (l x mx)) | inr t ↦ rw t (l x mx) ])

-- an operation that moves one job and its session together keeps the two in step
module _ (f : SpecProcessingJob → SpecProcessingJob) (g : SpecUploadSession → SpecUploadSession)
    (st : ProcessingJobStatus) (f_id : (j : SpecProcessingJob) → (f j).id ≡ j.id)
    (f_session : (j : SpecProcessingJob) → (f j).session_id ≡ j.session_id)
    (f_status : (j : SpecProcessingJob) → (f j).status ≡ st)
    (g_id : (r : SpecUploadSession) → (g r).id ≡ r.id)
    (g_status : (r : SpecUploadSession) → (g r).status ≡ session_status st) where
  moved-Tracked :
      (j : SpecProcessingJob) (jobs : List SpecProcessingJob) (sessions : List SpecUploadSession)
      → In j jobs
      → Keyed jobs
      → Tracked jobs sessions
      → Tracked
          (update_where (job_is j.id) f jobs)
          (update_where (session_is j.session_id) g sessions)
  moved-Tracked j jobs sessions mj k t a m =
      let (x, mx, e) = In-update_where (job_is j.id) f jobs a m in
      rw e (
        rw
          (status-update (λ i. i == j.session_id) g (session_status st) sessions
            (touch (job_is j.id) f x).session_id g_id g_status)
          (elim (Bool-cases (x.id == j.id)) [
            | inl same ↦ ground (arith, f_session x, f_status x, t x mx, k x j mx mj)
            | inr other ↦ ground (arith, t x mx, k x j mx mj)
          ]))

  pub moved-IsValid :
      (j : SpecProcessingJob) (s : Store)
      → ((j : SpecProcessingJob) → LeaseFits j → LeaseFits (f j))
      → In j s.jobs
      → IsValid s
      → IsValid (moved j f g s)
  moved-IsValid j s fits mj v = record {
    tracked = moved-Tracked j s.jobs s.sessions mj v.keyed v.tracked;
    keyed = Keyed-update (job_is j.id) f s.jobs f_id f_session v.keyed;
    leased = Leased-update (job_is j.id) f s.jobs (λ j _. fits j) v.leased;
  }

-- an update of the jobs alone that writes neither their keys nor their status
abbrev pub renewed :
    (SpecProcessingJob → Bool) → (SpecProcessingJob → SpecProcessingJob) → Store → Store
renewed p f s = record s { jobs = update_where p f s.jobs }

pub renewed-IsValid :
    (p : SpecProcessingJob → Bool) (f : SpecProcessingJob → SpecProcessingJob) (s : Store)
    → ((j : SpecProcessingJob) → (f j).id ≡ j.id)
    → ((j : SpecProcessingJob) → (f j).session_id ≡ j.session_id)
    → ((j : SpecProcessingJob) → (f j).status ≡ j.status)
    → ((j : SpecProcessingJob) → p j ≡ true → LeaseFits j → LeaseFits (f j))
    → IsValid s
    → IsValid (renewed p f s)
renewed-IsValid p f s fid fs fst fits v = record {
  tracked = λ a m.
      let (x, mx, e) = In-update_where p f s.jobs a m in
      rw e (elim (Bool-cases (p x)) [
        | inl hit ↦ ground (arith, fs x, fst x, v.tracked x mx)
        | inr miss ↦ ground (arith, v.tracked x mx)
      ]);
  keyed = Keyed-update p f s.jobs fid fs v.keyed;
  leased = Leased-update p f s.jobs fits v.leased;
}

pub appended-Keyed :
    (jobs : List SpecProcessingJob) (q : SpecProcessingJob)
    → ((j : SpecProcessingJob) → In j jobs → (j.id ≢ q.id) × (j.session_id ≢ q.session_id))
    → Keyed jobs
    → Keyed (jobs ++ q ∷ [])
appended-Keyed jobs q fresh k a b ma mb = elim (In-append jobs q a ma) [
  | inl ia ↦ elim (In-append jobs q b mb) [
    | inl ib ↦ k a b ia ib
    | inr eb ↦
        let f = fresh a ia in
        (
          (λ e. absurd (f.0 (e ∙ ap (λ j. j.id) eb))),
          (λ e. absurd (f.1 (e ∙ ap (λ j. j.session_id) eb))),
        )
  ]
  | inr ea ↦ elim (In-append jobs q b mb) [
    | inl ib ↦
        let f = fresh b ib in
        (
          (λ e. absurd (f.0 (sym e ∙ ap (λ j. j.id) ea))),
          (λ e. absurd (f.1 (sym e ∙ ap (λ j. j.session_id) ea))),
        )
    | inr eb ↦ ((λ e. ea ∙ sym eb), (λ e. ea ∙ sym eb))
  ]
]
