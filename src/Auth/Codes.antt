-- ===== src/Auth/Codes.antt =====
-- Codes are used once, and an expired code that nobody used blocks the next one.
use blueprint_audio_backend.Common.{
  ℕ, suc, ◌≤◌, Bool, true, false, none, List, [], ◌∷◌, ◌==◌, ◌≡◌, ◌≢◌, refl, arith, inl, inr, In,
  find_where, exists_where, update_where, Text, not, is_some, ◌&&◌, ◌||◌,
}
use blueprint_audio_backend.Db.{Env, World, ok}
use blueprint_audio_backend.Auth.Domain.{User, EmailActionToken, TokenPurpose, purpose_eq}
use blueprint_audio_backend.Auth.Repositories.{
  Store, Providers, consume, matches, consumed, is_live, create_token, invalidate_active,
}
use blueprint_audio_backend.Auth.Service.{create_email_action_token}
use blueprint_audio_backend.Auth.History.{Request, run, no_new_code, Refused, run-Refused}

module _ (p : Providers) (email : Text) (purpose : TokenPurpose) (code : Text) where
  pub find-consumed :
      (now later : ℕ) (tokens : List EmailActionToken)
      → now ≤ later
      → find_where
          (matches p email purpose code later)
          (update_where (matches p email purpose code now) (consumed now) tokens)
        ≡ none
  find-consumed now later [] le = refl
  find-consumed now later (t ∷ tokens) le = ground (arith, find-consumed now later tokens le)

  consumed-Refused :
      (env : Env) (w : World Store) (t : EmailActionToken) (at : ℕ)
      → (consume p email purpose code env w).0 ≡ ok t
      → env.clock w.tick ≤ at
      → Refused p email purpose code at (consume p email purpose code env w).1.store
  unfolding consume
  consumed-Refused env w t at h le =
      let gone = find-consumed (env.clock w.tick) at w.store.tokens le in ground arith

  unaccepted :
      (env : Env) (w : World Store)
      → Refused p email purpose code (env.clock w.tick) w.store
      → (u : EmailActionToken) → (consume p email purpose code env w).0 ≢ ok u
  unfolding consume
  unaccepted env w h u e = ground arith

  -- A code works once: after Consume has accepted it, and after any sequence of repository calls
  -- in which no token of this e-mail, purpose and code is created, Consume refuses it, at every
  -- time that is not before the first.
  pub consume_once :
      (env later : Env) (w : World Store) (t : EmailActionToken) (rest : List (Request × Env))
      → (consume p email purpose code env w).0 ≡ ok t
      → no_new_code p email purpose code rest ≡ true
      → env.clock w.tick ≤ later.clock (run p rest (consume p email purpose code env w).1).tick
      → (u : EmailActionToken)
      → (consume p email purpose code later (run p rest (consume p email purpose code env w).1)).0
        ≢ ok u
  consume_once env later w t rest h o le u e =
      let w1 = (consume p email purpose code env w).1 in
      let at = later.clock (run p rest w1).tick in
      let gone = run-Refused p email purpose code at rest w1 o (consumed-Refused env w t at h le) in
      unaccepted later (run p rest w1) gone u e

purpose_eq_refl : (purpose : TokenPurpose) → purpose_eq purpose purpose ≡ true
purpose_eq_refl TokenPurpose.verify_email = refl
purpose_eq_refl TokenPurpose.reset_password = refl

In-kept :
    (q : EmailActionToken → Bool) (f : EmailActionToken → EmailActionToken)
    (tokens : List EmailActionToken) (t : EmailActionToken)
    → In t tokens
    → q t ≡ false
    → In t (update_where q f tokens)
In-kept q f [] t m h = absurd m
In-kept q f (x ∷ tokens) t (inl e) h = let miss : q x ≡ false = (rw e at h) in inl (ground arith)
In-kept q f (x ∷ tokens) t (inr m) h = inr (In-kept q f tokens t m h)

exists-In :
    (q : EmailActionToken → Bool) (tokens : List EmailActionToken) (t : EmailActionToken)
    → In t tokens
    → q t ≡ true
    → exists_where q tokens ≡ true
exists-In q [] t m h = absurd m
exists-In q (x ∷ tokens) t (inl e) h = let hit : q x ≡ true = (rw e at h) in ground arith
exists-In q (x ∷ tokens) t (inr m) h = ground (arith, exists-In q tokens t m h)

-- Where a user has a code for a purpose that expired unused, no new code for that purpose can be
-- created for the user: every attempt fails.
pub expired_code_blocks :
    (p : Providers) (env : Env) (w : World Store) (user : User) (purpose : TokenPurpose)
    (t : EmailActionToken)
    → In t w.store.tokens
    → t.user_id ≡ user.id
    → t.purpose ≡ purpose
    → t.consumed_at ≡ none
    → ((n : ℕ) → t.expires_at ≤ env.clock n)
    → (code : Text) → (create_email_action_token p user purpose env w).0 ≢ ok code
unfolding create_email_action_token invalidate_active create_token
expired_code_blocks p env w user purpose t m a b c d code e =
    let now = env.clock (suc w.tick) in
    let live : EmailActionToken → Bool =
      λ x. x.user_id == user.id && (purpose_eq x.purpose purpose && is_live now x) in
    let dead : live t ≡ false = ground (arith, d (suc w.tick)) in
    let kept = In-kept live (consumed now) w.store.tokens t m dead in
    grind (arith, blocked (update_where live (consumed now) w.store.tokens) t kept)
  where
    blocked :
        (tokens : List EmailActionToken) (t : EmailActionToken)
        → In t tokens
        → t.user_id ≡ user.id
        → t.purpose ≡ purpose
        → t.consumed_at ≡ none
        → (row : EmailActionToken) → row.user_id ≡ user.id
        → row.purpose ≡ purpose
        → exists_where
            (λ x.
              x.id == row.id
              || x.user_id == row.user_id
                && (purpose_eq x.purpose row.purpose && not (is_some x.consumed_at)))
            tokens
          ≡ true
    blocked tokens t m a b c row a' b' =
        exists-In _ tokens t m (ground (arith, purpose_eq_refl purpose))
