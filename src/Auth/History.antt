-- ===== src/Auth/History.antt =====
-- The repository calls of auth_service.go in any order, each against an environment of its own:
-- every call is one statement, so an interleaving of clients is a sequence of calls. Of the calls
-- that write the users only, those that the modelled part of the service makes are here.
use blueprint_audio_backend.Common.{
  ℕ, Bool, true, false, none, List, [], ◌∷◌, ◌++◌, ◌≡◌, refl, arith, ◌&&◌, not, find_where,
  exists_where, update_where, Text, text_eq, ◌==◌, ◌||◌,
}
use blueprint_audio_backend.Common.Strings.{text_eq_sound, text_eq_refl}
use blueprint_audio_backend.Db.{Env, World}
use blueprint_audio_backend.Auth.Domain.{UserSession, EmailActionToken, TokenPurpose, purpose_eq}
use blueprint_audio_backend.Auth.Repositories.{
  Store, Providers, mark_email_verified, update_password, create_session, revoke,
  revoke_all_for_user, create_token, invalidate_active, consume, matches, consumed, has_digest,
  revoked,
}

pub data Request : Type 0 where
  mark_verified : ℕ → Request
  set_password : ℕ → Text → Request
  open_session : UserSession → Request
  end_session : Text → Request
  end_sessions : ℕ → Request
  new_token : EmailActionToken → Request
  invalidate : ℕ → TokenPurpose → Request
  use_code : Text → TokenPurpose → Text → Request

-- the store after the call
unfoldable pub call : Providers → Request → Env → World Store → World Store
call p (Request.mark_verified id) env w = (mark_email_verified id env w).1
call p (Request.set_password id hash) env w = (update_password id hash env w).1
call p (Request.open_session session) env w = (create_session session env w).1
call p (Request.end_session token) env w = (revoke p token env w).1
call p (Request.end_sessions user_id) env w = (revoke_all_for_user user_id env w).1
call p (Request.new_token token) env w = (create_token token env w).1
call p (Request.invalidate user_id purpose) env w = (invalidate_active user_id purpose env w).1
call p (Request.use_code email purpose code) env w = (consume p email purpose code env w).1

unfoldable pub run : Providers → List (Request × Env) → World Store → World Store
run p [] w = w
run p ((r, env) ∷ rest) w = run p rest (call p r env w)

-- a token of this e-mail, purpose and code, whatever its state
abbrev pub is_of_code : Providers → Text → TokenPurpose → Text → EmailActionToken → Bool
is_of_code p email purpose code t =
    text_eq (p.sql_lower t.email) (p.sql_lower email)
    && (purpose_eq t.purpose purpose && text_eq t.code_digest (p.digest code))

-- the call creates no token of this code
abbrev pub creates_other : Providers → Text → TokenPurpose → Text → Request → Bool
creates_other p email purpose code (Request.new_token t) = not (is_of_code p email purpose code t)
creates_other p email purpose code _ = true

abbrev pub no_new_code : Providers → Text → TokenPurpose → Text → List (Request × Env) → Bool
no_new_code p email purpose code [] = true
no_new_code p email purpose code ((r, _) ∷ rest) =
    creates_other p email purpose code r && no_new_code p email purpose code rest

module _ (p : Providers) (email : Text) (purpose : TokenPurpose) (code : Text) (at : ℕ) where
  -- no stored code is accepted at that time
  abbrev pub Refused : Store → Type 0
  Refused s = find_where (matches p email purpose code at) s.tokens ≡ none

  find-consumed-any :
      (q : EmailActionToken → Bool) (now : ℕ) (tokens : List EmailActionToken)
      → find_where (matches p email purpose code at) tokens ≡ none
      → find_where (matches p email purpose code at) (update_where q (consumed now) tokens) ≡ none
  find-consumed-any q now [] h = refl
  find-consumed-any q now (t ∷ tokens) h = ground (arith, find-consumed-any q now tokens)

  find-append :
      (row : EmailActionToken) (tokens : List EmailActionToken)
      → is_of_code p email purpose code row ≡ false
      → find_where (matches p email purpose code at) tokens ≡ none
      → find_where (matches p email purpose code at) (tokens ++ row ∷ []) ≡ none
  find-append row [] o h = ground arith
  find-append row (t ∷ tokens) o h = ground (arith, find-append row tokens o)

  call-Refused :
      (r : Request) (env : Env) (w : World Store)
      → creates_other p email purpose code r ≡ true
      → Refused w.store
      → Refused (call p r env w).store
  unfolding call mark_email_verified update_password create_session revoke revoke_all_for_user
      create_token invalidate_active consume
  call-Refused (Request.mark_verified id) env w o h = ground arith
  call-Refused (Request.set_password id hash) env w o h = ground arith
  call-Refused (Request.open_session session) env w o h = grind arith
  call-Refused (Request.end_session token) env w o h = ground arith
  call-Refused (Request.end_sessions user_id) env w o h = ground arith
  call-Refused (Request.new_token token) env w o h = grind (arith, find-append)
  call-Refused (Request.invalidate user_id purpose') env w o h = grind (arith, find-consumed-any)
  call-Refused (Request.use_code email' purpose' code') env w o h = grind (arith, find-consumed-any)

  pub run-Refused :
      (rest : List (Request × Env)) (w : World Store)
      → no_new_code p email purpose code rest ≡ true
      → Refused w.store
      → Refused (run p rest w).store
  unfolding run
  run-Refused [] w o h = h
  run-Refused ((r, env) ∷ rest) w o h =
      run-Refused rest (call p r env w) (ground arith) (call-Refused r env w (ground arith) h)

-- a session of this digest that is not revoked
abbrev pub unrevoked_of : Text → UserSession → Bool
unrevoked_of d s = has_digest d s && not s.is_revoked

module _ (p : Providers) (d : Text) where
  -- a session of this digest is stored, and none that is not revoked
  abbrev pub Ended : List UserSession → Type 0
  Ended sessions =
      (exists_where (has_digest d) sessions ≡ true)
      × (exists_where (unrevoked_of d) sessions ≡ false)

  pub stored-revoked :
      (q : UserSession → Bool) (now : ℕ) (sessions : List UserSession)
      → exists_where (has_digest d) (update_where q (revoked now) sessions)
        ≡ exists_where (has_digest d) sessions
  stored-revoked q now [] = refl
  stored-revoked q now (s ∷ sessions) = ground (arith, stored-revoked q now sessions)

  unrevoked-revoked :
      (q : UserSession → Bool) (now : ℕ) (sessions : List UserSession)
      → exists_where (unrevoked_of d) sessions ≡ false
      → exists_where (unrevoked_of d) (update_where q (revoked now) sessions) ≡ false
  unrevoked-revoked q now [] h = refl
  unrevoked-revoked q now (s ∷ sessions) h = ground (arith, unrevoked-revoked q now sessions)

  stored-append :
      (q : UserSession → Bool) (sessions : List UserSession) (row : UserSession) (b : Bool)
      → exists_where q sessions ≡ b
      → q row ≡ false
      → exists_where q (sessions ++ row ∷ []) ≡ b
  stored-append q [] row b h o = ground arith
  stored-append q (s ∷ sessions) row b h o = ground (arith, stored-append q sessions row b)

  -- the unique digest keeps a second session of it out
  other-digest :
      (row : UserSession) (sessions : List UserSession)
      → exists_where (has_digest d) sessions ≡ true
      → exists_where (λ r. r.id == row.id || has_digest row.refresh_token_digest r) sessions ≡ false
      → has_digest d row ≡ false
  other-digest row [] h o = absurd (ground arith)
  other-digest row (s ∷ sessions) h o = ground (
    arith,
    other-digest row sessions,
    text_eq_sound s.refresh_token_digest d,
    text_eq_sound row.refresh_token_digest d,
    text_eq_refl d,
  )

  opened :
      (row : UserSession) (sessions : List UserSession)
      → Ended sessions
      → exists_where (λ r. r.id == row.id || has_digest row.refresh_token_digest r) sessions ≡ false
      → Ended (sessions ++ row ∷ [])
  opened row sessions h o =
      let other = other-digest row sessions h.0 o in
      (
        stored-append (has_digest d) sessions row true h.0 other,
        stored-append (unrevoked_of d) sessions row false h.1 (ground arith),
      )

  swept :
      (q : UserSession → Bool) (now : ℕ) (sessions : List UserSession)
      → Ended sessions
      → Ended (update_where q (revoked now) sessions)
  swept q now sessions h =
      (rw (stored-revoked q now sessions) h.0, unrevoked-revoked q now sessions h.1)

  call-Ended :
      (r : Request) (env : Env) (w : World Store)
      → Ended w.store.sessions
      → Ended (call p r env w).store.sessions
  unfolding call mark_email_verified update_password create_session revoke revoke_all_for_user
      create_token invalidate_active consume
  call-Ended (Request.mark_verified id) env w h = ground arith
  call-Ended (Request.set_password id hash) env w h = ground arith
  call-Ended (Request.open_session session) env w h = grind (arith, opened)
  call-Ended (Request.end_session token) env w h = grind (arith, swept)
  call-Ended (Request.end_sessions user_id) env w h = grind (arith, swept)
  call-Ended (Request.new_token token) env w h = grind arith
  call-Ended (Request.invalidate user_id purpose) env w h = ground arith
  call-Ended (Request.use_code email purpose code) env w h = ground arith

  pub run-Ended :
      (rest : List (Request × Env)) (w : World Store)
      → Ended w.store.sessions
      → Ended (run p rest w).store.sessions
  unfolding run
  run-Ended [] w h = h
  run-Ended ((r, env) ∷ rest) w h = run-Ended rest (call p r env w) (call-Ended r env w h)
