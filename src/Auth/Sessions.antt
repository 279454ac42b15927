-- ===== src/Auth/Sessions.antt =====
-- Sessions that are revoked, by a logout or by a new password, are not refreshed.
use blueprint_audio_backend.Common.{
  ℕ, suc, ◌≤◌, Bool, true, false, some, List, [], ◌∷◌, ◌==◌, ◌≡◌, ◌≢◌, refl, arith, inl, inr,
  find_where, exists_where, update_where, Option-cases, Bool-cases, none, In, Text, text_eq, not,
  is_empty, ◌&&◌,
}
use blueprint_audio_backend.Db.{Env, World, ok}
use blueprint_audio_backend.Auth.Domain.{
  User, UserSession, EmailActionToken, TokenPurpose, is_suspended,
}
use blueprint_audio_backend.Common.Strings.{trim_space}
use blueprint_audio_backend.Auth.Repositories.{
  Store, Providers, has_digest, revoked, revoke, revoke_all_for_user, get_by_token, get_by_id,
  get_by_email, user_is, consume, matches, consumed, update_password,
}
use blueprint_audio_backend.Auth.Codes.{find-consumed}
use blueprint_audio_backend.Auth.History.{
  Request, run, unrevoked_of, Ended, stored-revoked, run-Ended,
}
use blueprint_audio_backend.Auth.Service.{TokenPair, login, logout, refresh_session, reset_password}

-- Where RefreshSession returns an access token, the session of the refresh token is stored, not
-- revoked and not expired, its user is stored, and no table has changed.
pub refresh_session_ok :
    (p : Providers) (token access : Text) (env : Env) (w : World Store)
    → (refresh_session p token env w).0 ≡ ok access
    → (s : UserSession) × (u : User) × (find_where (has_digest (p.digest token)) w.store.sessions
        ≡ some s)
      × (s.is_revoked ≡ false)
      × (env.clock (suc w.tick) ≤ s.expires_at)
      × (find_where (user_is s.user_id) w.store.users ≡ some u)
      × ((refresh_session p token env w).1.store ≡ w.store)
unfolding refresh_session get_by_token get_by_id
refresh_session_ok p token access env w h =
    elim (Option-cases (find_where (has_digest (p.digest token)) w.store.sessions)) [
      | inl e ↦ absurd (ground arith)
      | inr (s, e) ↦ elim (Option-cases (find_where (user_is s.user_id) w.store.users)) [
        | inl e' ↦ absurd (ground arith)
        | inr (u, e') ↦ (s, u, e, ground arith, ground arith, e', ground arith)
      ]
    ]

live-unrevoked :
    (d : Text) (sessions : List UserSession) (s : UserSession)
    → find_where (has_digest d) sessions ≡ some s
    → s.is_revoked ≡ false
    → exists_where (unrevoked_of d) sessions ≡ true
live-unrevoked d [] s h l = absurd (ground arith)
live-unrevoked d (x ∷ sessions) s h l = ground (arith, live-unrevoked d sessions s)

revoked-Ended :
    (p : Providers) (d : Text) (now : ℕ) (sessions : List UserSession)
    → exists_where (has_digest d) sessions ≡ true
    → Ended p d (update_where (has_digest d) (revoked now) sessions)
revoked-Ended p d now sessions h =
    (rw (stored-revoked p d (has_digest d) now sessions) h, none_left sessions)
  where
    none_left :
        (xs : List UserSession)
        → exists_where (unrevoked_of d) (update_where (has_digest d) (revoked now) xs) ≡ false
    none_left [] = refl
    none_left (x ∷ xs) = ground (arith, none_left xs)

logged_out :
    (p : Providers) (token : Text) (env : Env) (w : World Store)
    → is_empty token ≡ false
    → (logout p token env w).0 ≡ ok tt
    → exists_where (has_digest (p.digest token)) w.store.sessions ≡ true
    → Ended p (p.digest token) (logout p token env w).1.store.sessions
unfolding logout revoke
logged_out p token env w n h m =
    ground (arith, revoked-Ended p (p.digest token) (env.clock w.tick) w.store.sessions m)

-- After a logout that succeeds, of a refresh token whose session is stored, and after any sequence
-- of repository calls, RefreshSession does not accept the token, at any time.
pub logout_ends :
    (p : Providers) (token access : Text) (env later : Env) (w : World Store)
    (rest : List (Request × Env))
    → is_empty token ≡ false
    → (logout p token env w).0 ≡ ok tt
    → exists_where (has_digest (p.digest token)) w.store.sessions ≡ true
    → (refresh_session p token later (run p rest (logout p token env w).1)).0 ≢ ok access
logout_ends p token access env later w rest n h m e =
    let w' = run p rest (logout p token env w).1 in
    let (s, _, found, live, _, _, _) = refresh_session_ok p token access later w' e in
    let ended =
      run-Ended p (p.digest token) rest (logout p token env w).1 (logged_out p token env w n h m) in
    ground (arith, live-unrevoked (p.digest token) w'.store.sessions s found live, ended)

-- Where Login succeeds, the user of that e-mail is stored, with this password, a verified e-mail
-- and no suspension.
pub login_ok :
    (p : Providers) (email password : Text) (env : Env) (w : World Store) (pair : TokenPair)
    → (login p email password env w).0 ≡ ok pair
    → (u : User) × (find_where (λ x. text_eq x.email email) w.store.users ≡ some u)
      × (p.check_password u.password_hash password ≡ true)
      × (u.email_verified ≡ true)
      × (is_suspended u.status ≡ false)
unfolding login get_by_email
login_ok p email password env w pair h =
    elim (Option-cases (find_where (λ (x : User). text_eq x.email email) w.store.users)) [
      | inl e ↦ absurd (ground arith)
      | inr (u, e) ↦ (u, e, ground arith, ground arith, ground arith)
    ]

-- a session of the user that is not revoked
abbrev pub unrevoked : ℕ → UserSession → Bool
unrevoked id s = s.user_id == id && not s.is_revoked

none-unrevoked :
    (id now : ℕ) (sessions : List UserSession)
    → exists_where (unrevoked id) (update_where (unrevoked id) (revoked now) sessions) ≡ false
none-unrevoked id now [] = refl
none-unrevoked id now (x ∷ sessions) = ground (arith, none-unrevoked id now sessions)

marked-In :
    (q : EmailActionToken → Bool) (f : EmailActionToken → EmailActionToken)
    (tokens : List EmailActionToken) (t : EmailActionToken)
    → find_where q tokens ≡ some t
    → In (f t) (update_where q f tokens)
marked-In q f [] t h = absurd (ground arith)
marked-In q f (x ∷ tokens) t h = elim (Bool-cases (q x)) [
  | inl e ↦ inl (ground arith)
  | inr e ↦ inr (ground (arith, marked-In q f tokens t))
]

-- Where ResetPassword succeeds, a live code for it was stored under the e-mail, its row is stored
-- as consumed at that time, no stored code is accepted for these inputs at any time from then on,
-- and every session of the code's user is revoked.
pub reset_password_ok :
    (p : Providers) (email code new_password : Text) (env : Env) (w : World Store) (at : ℕ)
    → (reset_password p email code new_password env w).0 ≡ ok tt
    → env.clock w.tick ≤ at
    → let after = (reset_password p email code new_password env w).1.store in
      let now = env.clock w.tick in
      let hit : ℕ → EmailActionToken → Bool =
        matches p email TokenPurpose.reset_password (trim_space p.unicode code) in
      (t : EmailActionToken) × (find_where (hit now) w.store.tokens ≡ some t)
      × In (consumed now t) after.tokens
      × (find_where (hit at) after.tokens ≡ none)
      × (exists_where (unrevoked t.user_id) after.sessions ≡ false)
unfolding reset_password consume revoke_all_for_user update_password
reset_password_ok p email code new_password env w at h le =
    elim (Option-cases (find_where hit w.store.tokens)) [
      | inl e ↦ absurd (ground arith)
      | inr (t, e) ↦
          let marked = marked-In hit (consumed (env.clock w.tick)) w.store.tokens t e in
          let gone =
            find-consumed p email TokenPurpose.reset_password (trim_space p.unicode code)
              (env.clock w.tick) in
          (
            t,
            e,
            grind (arith, marked),
            grind (arith, gone at w.store.tokens le),
            grind (arith, none-unrevoked t.user_id),
          )
    ]
  where
    hit : EmailActionToken → Bool
    hit = matches p email TokenPurpose.reset_password (trim_space p.unicode code) (env.clock w.tick)
