-- ===== src/Catalog/Statuses.antt =====
-- How the statuses of sessions move, and when the queue's invariant survives a change of the
-- sessions alone.
use blueprint_audio_backend.Common.{
  ℕ, Bool, true, false, Option, none, some, List, [], ◌∷◌, ◌++◌, ◌==◌, ◌≡◌, ◌∙◌, refl, sym, ap,
  subst, arith, update_where, Option-cases, Bool-cases, inl, inr,
}
use blueprint_audio_backend.Catalog.Domain.{
  UploadStatus, ProcessingJobStatus, SpecUploadSession, is_uploading,
}
use blueprint_audio_backend.Catalog.Tables.{Store}
use blueprint_audio_backend.Catalog.Invariant.{
  status_of, session_status, Tracked, Keyed, Leased, IsValid,
}

-- The moves of a session's status; `none` is a session that does not exist.
pub data Moves : Option UploadStatus → Option UploadStatus → Type 0 where
  stay : {o : Option UploadStatus} → Moves o o
  create : {st : UploadStatus} → Moves none (some st)
  abandon : Moves (some UploadStatus.uploading) (some UploadStatus.failed)
  expire : Moves (some UploadStatus.uploading) (some UploadStatus.expired)
  enqueue : Moves (some UploadStatus.uploading) (some UploadStatus.queued)
  claim : Moves (some UploadStatus.queued) (some UploadStatus.processing)
  requeue : Moves (some UploadStatus.processing) (some UploadStatus.queued)
  complete : Moves (some UploadStatus.processing) (some UploadStatus.completed)
  fail : Moves (some UploadStatus.processing) (some UploadStatus.failed)

-- a move between statuses that are known only by equations
pub Moves-along : {a b c d : Option UploadStatus} → a ≡ b → c ≡ d → Moves b d → Moves a c
Moves-along {a} {b} {c} {d} p q m =
    subst (λ x. Moves x c) (sym p) (subst (λ y. Moves b y) (sym q) m)

-- an update that writes neither identifier nor status
pub status-kept :
    (p : SpecUploadSession → Bool) (g : SpecUploadSession → SpecUploadSession)
    (sessions : List SpecUploadSession) (k : ℕ)
    → ((r : SpecUploadSession) → (g r).id ≡ r.id)
    → ((r : SpecUploadSession) → (g r).status ≡ r.status)
    → status_of k (update_where p g sessions) ≡ status_of k sessions
status-kept p g [] k hid hst = refl
status-kept p g (r ∷ sessions) k hid hst =
    ground (arith, hid r, hst r, status-kept p g sessions k hid hst)

-- an update of sessions that are still uploading leaves the others' statuses
pub status-guarded :
    (p : SpecUploadSession → Bool) (g : SpecUploadSession → SpecUploadSession) (st : UploadStatus)
    (sessions : List SpecUploadSession) (k : ℕ)
    → ((r : SpecUploadSession) → (g r).id ≡ r.id)
    → ((r : SpecUploadSession) → p r ≡ true → is_uploading r.status ≡ true)
    → status_of k sessions ≡ some st
    → is_uploading st ≡ false
    → status_of k (update_where p g sessions) ≡ some st
status-guarded p g st [] k hid hp h u = cc
status-guarded p g st (r ∷ sessions) k hid hp h u =
    ground (arith, hid r, hp r, status-guarded p g st sessions k hid hp)

-- and moves the uploading ones to the status that it writes
pub status-guarded-Moves :
    (p : SpecUploadSession → Bool) (g : SpecUploadSession → SpecUploadSession) (st : UploadStatus)
    (sessions : List SpecUploadSession) (k : ℕ)
    → ((r : SpecUploadSession) → (g r).id ≡ r.id)
    → ((r : SpecUploadSession) → (g r).status ≡ st)
    → ((r : SpecUploadSession) → p r ≡ true → is_uploading r.status ≡ true)
    → Moves (some UploadStatus.uploading) (some st)
    → Moves (status_of k sessions) (status_of k (update_where p g sessions))
status-guarded-Moves p g st [] k hid hst hp m = stay
status-guarded-Moves p g st (r ∷ sessions) k hid hst hp m = elim (Bool-cases (r.id == k)) [
  | inr other ↦
      Moves-along (ground arith) (ground (arith, hid r))
        (status-guarded-Moves p g st sessions k hid hst hp m)
  | inl same ↦ elim (Bool-cases (p r)) [
    | inr free ↦ Moves-along {d = some r.status} (ground arith) (ground arith) stay
    | inl hit ↦ Moves-along (ground (arith, hp r)) (ground (arith, hid r, hst r)) m
  ]
]

pub status-append :
    (row : SpecUploadSession) (sessions : List SpecUploadSession) (k : ℕ) {st : UploadStatus}
    → status_of k sessions ≡ some st
    → status_of k (sessions ++ row ∷ []) ≡ some st
status-append row [] k h = cc
status-append row (r ∷ sessions) k {st} h = ground (arith, status-append row sessions k {st = st})

pub status-append-Moves :
    (row : SpecUploadSession) (sessions : List SpecUploadSession) (k : ℕ)
    → Moves (status_of k sessions) (status_of k (sessions ++ row ∷ []))
status-append-Moves row sessions k = elim (Option-cases (status_of k sessions)) [
  | inr (st, e) ↦ Moves-along e (status-append row sessions k e) stay
  | inl e ↦ fresh sessions e
]
  where
    fresh :
        (xs : List SpecUploadSession)
        → status_of k xs ≡ none
        → Moves (status_of k xs) (status_of k (xs ++ row ∷ []))
    fresh [] e = elim (Bool-cases (row.id == k)) [
      | inl same ↦ Moves-along {d = some row.status} refl (ground arith) create
      | inr other ↦ Moves-along {d = none} refl (ground arith) stay
    ]
    fresh (r ∷ xs) e = elim (Bool-cases (r.id == k)) [
      | inl same ↦ absurd (ground arith)
      | inr other ↦ Moves-along (ground arith) (ground arith) (fresh xs (ground arith))
    ]

-- the invariant survives where no job's session changes its status
pub sessions-IsValid :
    (s t : Store)
    → t.jobs ≡ s.jobs
    → ((k : ℕ) (st : ProcessingJobStatus)
        → status_of k s.sessions ≡ some (session_status st)
        → status_of k t.sessions ≡ some (session_status st))
    → IsValid s
    → IsValid t
sessions-IsValid s t e h v = record {
  tracked =
      let tracked : Tracked s.jobs t.sessions = λ j m. h j.session_id j.status (v.tracked j m) in
      subst (λ jobs. Tracked jobs t.sessions) (sym e) tracked;
  keyed = subst Keyed (sym e) v.keyed;
  leased = subst Leased (sym e) v.leased;
}

pub session_status_settled : (st : ProcessingJobStatus) → is_uploading (session_status st) ≡ false
session_status_settled st = ground arith

-- what an operation that takes `s` to `t` respects
pub record Sound (s t : Store) : Type 0 where
  pub valid : IsValid t
  pub moves : (k : ℕ) → Moves (status_of k s.sessions) (status_of k t.sessions)

pub Sound-refl : {s : Store} → IsValid s → Sound s s
Sound-refl v = record { valid = v; moves = λ k. stay }

pub Sound-along : {s t u : Store} → t ≡ u → Sound s u → Sound s t
Sound-along {s} e h = subst (λ x. Sound s x) (sym e) h

module _ (s t : Store) (same_jobs : t.jobs ≡ s.jobs) (v : IsValid s) where
  pub kept-Sound :
      (p : SpecUploadSession → Bool) (g : SpecUploadSession → SpecUploadSession)
      → ((r : SpecUploadSession) → (g r).id ≡ r.id)
      → ((r : SpecUploadSession) → (g r).status ≡ r.status)
      → t.sessions ≡ update_where p g s.sessions
      → Sound s t
  kept-Sound p g hid hst e =
      let same : (k : ℕ) → status_of k t.sessions ≡ status_of k s.sessions =
        λ k. ap (status_of k) e ∙ status-kept p g s.sessions k hid hst in
      record {
        valid = sessions-IsValid s t same_jobs (λ k st h. same k ∙ h) v;
        moves = λ k. Moves-along refl (same k) stay;
      }

  pub guarded-Sound :
      (p : SpecUploadSession → Bool) (g : SpecUploadSession → SpecUploadSession) (st : UploadStatus)
      → ((r : SpecUploadSession) → (g r).id ≡ r.id)
      → ((r : SpecUploadSession) → (g r).status ≡ st)
      → ((r : SpecUploadSession) → p r ≡ true → is_uploading r.status ≡ true)
      → Moves (some UploadStatus.uploading) (some st)
      → t.sessions ≡ update_where p g s.sessions
      → Sound s t
  guarded-Sound p g st hid hst hp m e = record {
    valid =
        sessions-IsValid s t same_jobs
          (λ k st' h.
            ap (status_of k) e
            ∙ status-guarded p g (session_status st') s.sessions k hid hp h
                (session_status_settled st'))
          v;
    moves = λ k.
        Moves-along refl (ap (status_of k) e)
          (status-guarded-Moves p g st s.sessions k hid hst hp m);
  }

  pub append-Sound : (row : SpecUploadSession) → t.sessions ≡ s.sessions ++ row ∷ [] → Sound s t
  append-Sound row e = record {
    valid =
        sessions-IsValid s t same_jobs
          (λ k st h. ap (status_of k) e ∙ status-append row s.sessions k h) v;
    moves = λ k. Moves-along refl (ap (status_of k) e) (status-append-Moves row s.sessions k);
  }

  pub same-Sound : t.sessions ≡ s.sessions → Sound s t
  same-Sound e = record {
    valid = sessions-IsValid s t same_jobs (λ k st h. ap (status_of k) e ∙ h) v;
    moves = λ k. Moves-along refl (ap (status_of k) e) stay;
  }
