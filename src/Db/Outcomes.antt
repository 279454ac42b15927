-- ===== src/Db/Outcomes.antt =====
-- Postconditions for both ends of an action: what holds where it succeeds, and what where it
-- fails.
use blueprint_audio_backend.Common.{◌≡◌, refl, subst}
use blueprint_audio_backend.Db.{Env, World, Result, ok, err, M, ◌>>=◌}

abbrev pub Outcome : {S E A : Type 0} → (A → S → Type 0) → (S → Type 0) → Result E A → S → Type 0
Outcome R I (ok a) s = R a s
Outcome R I (err e) s = I s

-- `m`, run in `w`, ends in `R` where it succeeds and in `I` where it fails
abbrev pub Yields :
    {S E A : Type 0} → M S E A → Env → World S → (A → S → Type 0) → (S → Type 0) → Type 0
Yields m env w R I = Outcome R I (m env w).0 (m env w).1.store

module _ {S E : Type 0} where
  pub >>=-Yields :
      {A B : Type 0} (m : M S E A) (f : A → M S E B) (env : Env) (w : World S) (R : A → S → Type 0)
      (Q : B → S → Type 0) (I : S → Type 0)
      → Yields m env w R I
      → ((a : A) (w' : World S) → R a w'.store → Yields (f a) env w' Q I)
      → Yields (m >>= f) env w Q I
  >>=-Yields {A} {B} m f env w R Q I hm hf = go (m env w).0 refl
    where
      go :
          (r : Result E A)
          → (m env w).0 ≡ r
          → Outcome Q I ((m >>= f) env w).0 ((m >>= f) env w).1.store
      go (ok a) e =
          let here : R a (m env w).1.store = subst (λ r. Outcome R I r (m env w).1.store) e hm in
          rw (e, ◌>>=◌) (hf a (m env w).1 here)
      go (err x) e =
          let here : I (m env w).1.store = subst (λ r. Outcome R I r (m env w).1.store) e hm in
          rw (e, ◌>>=◌) here

  -- an outcome that is the same on both ends
  pub Yields_store :
      {A : Type 0} (I : S → Type 0) (r : Result E A) (s : S) → Outcome (λ _ t. I t) I r s → I s
  Yields_store I (ok a) s h = h
  Yields_store I (err e) s h = h

  pub Yields_any :
      {A : Type 0} (I : S → Type 0) (r : Result E A) (s : S) → I s → Outcome (λ _ t. I t) I r s
  Yields_any I (ok a) s h = h
  Yields_any I (err e) s h = h

  pub Outcome-map :
      {A : Type 0} (R Q : A → S → Type 0) (I : S → Type 0) (r : Result E A) (s : S)
      → ((a : A) (t : S) → R a t → Q a t)
      → Outcome R I r s
      → Outcome Q I r s
  Outcome-map R Q I (ok a) s f h = f a s h
  Outcome-map R Q I (err e) s f h = h

  -- what holds on both ends holds at the end
  pub Outcome_end :
      {A : Type 0} (R : A → S → Type 0) (I : S → Type 0) (r : Result E A) (s : S)
      → ((a : A) (t : S) → R a t → I t)
      → Outcome R I r s
      → I s
  Outcome_end R I (ok a) s f h = f a s h
  Outcome_end R I (err e) s f h = h
