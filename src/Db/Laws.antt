-- ===== src/Db/Laws.antt =====
-- Laws of transactions, of sequencing, and of what an action leaves alone.
use blueprint_audio_backend.Common.{ℕ, suc, ◌≡◌, refl, ◌∙◌, arith}
use blueprint_audio_backend.Db.{Env, World, Result, ok, err, M, transaction, ◌>>=◌, statement}

-- an action that fails leaves the store as it was
abbrev pub IsAtomic : {S E A : Type 0} → M S E A → Type 0
IsAtomic {S} {E} {A} m =
    (env : Env) (w : World S) (e : E) → (m env w).0 ≡ err e → (m env w).1.store ≡ w.store

module _ {S E : Type 0} where
  -- whatever its body does, a transaction is atomic
  pub transaction-IsAtomic :
      {A : Type 0} (failure : E) (body : ℕ → M S E A) → IsAtomic (transaction failure body)
  unfolding transaction
  transaction-IsAtomic failure body env w e h = ground arith

  -- a transaction that succeeds has committed what its body did
  pub transaction_ok :
      {A : Type 0} (failure : E) (body : ℕ → M S E A) (env : Env) (w : World S) {a : A}
      → (transaction failure body env w).0 ≡ ok a
      → let began = record w { tick = suc w.tick } in
        ((body (env.clock w.tick) env began).0 ≡ ok a)
        × ((transaction failure body env w).1.store ≡ (body (env.clock w.tick) env began).1.store)
  unfolding transaction
  transaction_ok failure body env w h = (ground arith, ground arith)

  -- inversion of a sequence that succeeds
  pub >>=_ok :
      {A B : Type 0} (m : M S E A) (f : A → M S E B) (env : Env) (w : World S) {b : B}
      → ((m >>= f) env w).0 ≡ ok b
      → (a : A) × ((m env w).0 ≡ ok a) × ((m >>= f) env w ≡ f a env (m env w).1)
  >>=_ok {A} {B} m f env w {b} h = go (m env w).0 refl
    where
      go :
          (r : Result E A)
          → (m env w).0 ≡ r
          → (a : A) × ((m env w).0 ≡ ok a) × ((m >>= f) env w ≡ f a env (m env w).1)
      go (ok a) e = (a, e, rw (e, ◌>>=◌) refl)
      go (err x) e = absurd (ground arith)

-- an action that leaves a part of the store alone, however it ends
abbrev pub Keeps : {S E A P : Type 0} → (S → P) → M S E A → Type 0
Keeps {S} part m = (env : Env) (w : World S) → part (m env w).1.store ≡ part w.store

module _ {S E P : Type 0} (part : S → P) where
  pub >>=-Keeps :
      {A B : Type 0} (m : M S E A) (f : A → M S E B)
      → Keeps part m
      → ((a : A) → Keeps part (f a))
      → Keeps part (m >>= f)
  >>=-Keeps {A} {B} m f hm hf env w = go (m env w).0 refl
    where
      go : (r : Result E A) → (m env w).0 ≡ r → part ((m >>= f) env w).1.store ≡ part w.store
      go (ok a) e = rw (e, ◌>>=◌) (hf a env (m env w).1 ∙ hm env w)
      go (err x) e = rw (e, ◌>>=◌) (hm env w)

  pub statement-Keeps :
      {A : Type 0} (failure : E) (run : ℕ → S → Result E A × S)
      → ((now : ℕ) (s : S) → part (run now s).1 ≡ part s)
      → Keeps part (statement failure run)
  statement-Keeps failure run h env w = ground (arith, h (env.clock w.tick) w.store)

-- where `m`, run in `w`, succeeds, its result and the store that it leaves satisfy `Q`
abbrev pub Ensures : {S E A : Type 0} → M S E A → Env → World S → (A → S → Type 0) → Type 0
Ensures {S} {E} {A} m env w Q = (a : A) → (m env w).0 ≡ ok a → Q a (m env w).1.store

module _ {S E : Type 0} where
  pub >>=-Ensures :
      {A B : Type 0} (m : M S E A) (f : A → M S E B) (env : Env) (w : World S) (R : A → S → Type 0)
      (Q : B → S → Type 0)
      → Ensures m env w R
      → ((a : A) (w' : World S) → R a w'.store → Ensures (f a) env w' Q)
      → Ensures (m >>= f) env w Q
  >>=-Ensures {A} {B} m f env w R Q hm hf b h = go (m env w).0 refl
    where
      go : (r : Result E A) → (m env w).0 ≡ r → Q b ((m >>= f) env w).1.store
      go (ok a) e = rw (e, ◌>>=◌) (hf a (m env w).1 (hm a e) b (rw (e, ◌>>=◌) at h))
      go (err x) e = absurd (ground arith)

  pub transaction-Ensures :
      {A : Type 0} (failure : E) (body : ℕ → M S E A) (env : Env) (w : World S) (Q : A → S → Type 0)
      → Ensures (body (env.clock w.tick)) env (record w { tick = suc w.tick }) Q
      → Ensures (transaction failure body) env w Q
  transaction-Ensures failure body env w Q hb a h =
      let (ran, committed) = transaction_ok failure body env w h in rw committed (hb a ran)
