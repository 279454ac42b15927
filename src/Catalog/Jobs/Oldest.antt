-- ===== src/Catalog/Jobs/Oldest.antt =====
-- ORDER BY created_at LIMIT 1: the row that ClaimNextJob's candidate query returns.
use blueprint_audio_backend.Common.{
  ◌≤◌, Bool, true, false, none, some, List, [], ◌∷◌, ◌≡◌, ◌⊎◌, arith, Bool-cases, Option-cases, inl,
  inr, In,
}
use blueprint_audio_backend.Catalog.Domain.{SpecProcessingJob}
use blueprint_audio_backend.Catalog.Jobs.{oldest_where}

module _ (p : SpecProcessingJob → Bool) where
  -- it is the first row, which is no younger than the rest's, or the rest's, which is older
  oldest_where-cases :
      (x : SpecProcessingJob) (jobs : List SpecProcessingJob) {j : SpecProcessingJob}
      → oldest_where p (x ∷ jobs) ≡ some j
      → ((j ≡ x)
          × (p x ≡ true)
          × ((k : SpecProcessingJob) → oldest_where p jobs ≡ some k → x.created_at ≤ k.created_at))
        ⊎ ((oldest_where p jobs ≡ some j) × (p x ≡ true → j.created_at ≤ x.created_at))
  oldest_where-cases x jobs {j} h = elim (Bool-cases (p x)) [
    | inr e ↦ inr (ground arith, λ e'. absurd (ground arith))
    | inl e ↦ elim (Option-cases (oldest_where p jobs)) [
      | inl last ↦ inl (ground arith, e, λ k h'. absurd (ground arith))
      | inr (k, more) ↦ ground arith
    ]
  ]

  pub oldest_where-In :
      (jobs : List SpecProcessingJob) {j : SpecProcessingJob}
      → oldest_where p jobs ≡ some j
      → In j jobs × (p j ≡ true)
  oldest_where-In [] h = absurd (ground arith)
  oldest_where-In (x ∷ jobs) {j} h = elim (oldest_where-cases x jobs h) [
    | inl (e, hit, _) ↦ (inl e, rw e hit)
    | inr (rest, _) ↦ let (m, hit) = oldest_where-In jobs rest in (inr m, hit)
  ]

  pub oldest_where-none :
      (jobs : List SpecProcessingJob) (k : SpecProcessingJob)
      → oldest_where p jobs ≡ none
      → In k jobs
      → p k ≡ false
  oldest_where-none [] k h m = absurd m
  oldest_where-none (x ∷ jobs) k h (inl e) = rw e (ground arith)
  oldest_where-none (x ∷ jobs) k h (inr m) = oldest_where-none jobs k (ground arith) m

  -- no row that passes the test is older
  pub oldest_where-le :
      (jobs : List SpecProcessingJob) {j : SpecProcessingJob} (k : SpecProcessingJob)
      → oldest_where p jobs ≡ some j
      → In k jobs
      → p k ≡ true
      → j.created_at ≤ k.created_at
  oldest_where-le [] k h m hit = absurd m
  oldest_where-le (x ∷ jobs) {j} k h (inl e) hit = elim (oldest_where-cases x jobs h) [
    | inl (same, _, _) ↦ rw (same, e) (omega arith)
    | inr (_, older_than) ↦ rw e (older_than (rw e at hit))
  ]
  oldest_where-le (x ∷ jobs) {j} k h (inr m) hit = elim (oldest_where-cases x jobs h) [
    | inr (rest, _) ↦ oldest_where-le jobs k rest m hit
    | inl (same, _, first) ↦ elim (Option-cases (oldest_where p jobs)) [
      | inl last ↦ let miss = oldest_where-none jobs k last m in cc
      | inr (k', more) ↦ rw same (omega (arith, first k' more, oldest_where-le jobs k more m hit))
    ]
  ]
