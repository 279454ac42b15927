-- ===== src/Auth/Service.antt =====
-- internal/modules/auth/application/auth_service.go: VerifyEmail, ResendVerification,
-- ForgotPassword, ResetPassword, Login, RefreshSession and Logout.
use blueprint_audio_backend.Common.{
  ℕ, suc, ◌+◌, ◌*◌, Bool, false, Option, none, some, [], ◌∷◌, ◌||◌, not, ltb, if◌then◌else◌, Text,
  is_empty,
}
use blueprint_audio_backend.Common.Strings.{trim_space}
use blueprint_audio_backend.Db.{ok, err, pure, fail_if, fail_none, ◌>>=◌, ◌>>◌, time_now, new_uuid}
use blueprint_audio_backend.Auth.Domain.{
  User, TokenPurpose, Error, uuid, random, signing, hashing, mail, invalid_credentials,
  email_not_verified, account_suspended, missing_field, short_password, invalid_refresh_token,
  session_revoked, refresh_token_expired, is_suspended,
}
use blueprint_audio_backend.Auth.Repositories.{
  Action, Providers, get_by_email, get_by_id, mark_email_verified, update_password, create_session,
  revoke_all_for_user, create_token, invalidate_active, get_by_token, revoke, consume,
}

-- the bytes of a string in UTF-8, which `len` counts
abbrev pub byte_length : Text → ℕ
byte_length [] = 0
byte_length (c ∷ s) =
    (if ltb c 128 then 1 else if ltb c 2048 then 2 else if ltb c 65536 then 3 else 4)
    + byte_length s

-- a call outside the database, numbered as the database's calls are
abbrev pub outside : {A : Type 0} → (ℕ → Option A) → Error → Action A
outside run failure env w =
    (elim (run w.tick) [ none ↦ err failure | some a ↦ ok a ], record w { tick = suc w.tick })

-- 15*time.Minute, where one unit of the clock is a second
abbrev pub code_lifetime : ℕ
code_lifetime = 15 * 60

pub record TokenPair : Type 0 where
  pub access_token : Text
  pub refresh_token : Text

module _ (p : Providers) where
  open p use {unicode, digest}

  -- createEmailActionToken
  unfoldable pub create_email_action_token : User → TokenPurpose → Action Text
  create_email_action_token user purpose = do
    code ← outside p.email_code random
    invalidate_active user.id purpose
    id ← new_uuid uuid
    expiry ← time_now
    created ← time_now
    updated ← time_now
    create_token (record {
      id = id;
      user_id = user.id;
      email = user.email;
      purpose = purpose;
      code_digest = digest code;
      expires_at = expiry + code_lifetime;
      consumed_at = none;
      created_at = created;
      updated_at = updated;
    })
    pure code

  abbrev pub send_code : User → Text → Action (Unit {0})
  send_code user code = outside (λ n. if p.send n user.email code then some tt else none) mail

  -- sendVerificationCode
  unfoldable pub send_verification_code : User → Action (Unit {0})
  send_verification_code user = do
    code ← create_email_action_token user TokenPurpose.verify_email
    send_code user code

  abbrev pub is_blank : Text → Bool
  is_blank s = is_empty (trim_space unicode s)

  unfoldable pub verify_email : Text → Text → Action (Unit {0})
  verify_email email code = do
    fail_if (is_blank email || is_blank code) missing_field
    token ← consume p email TokenPurpose.verify_email (trim_space unicode code)
    mark_email_verified token.user_id

  -- `if errors.Is(err, domain.ErrUserNotFound) { return nil }`
  abbrev pub ignore_missing : Action User → (User → Action (Unit {0})) → Action (Unit {0})
  ignore_missing find next env w =
      let (r, w') = find env w in
      elim r [
        | ok user ↦ next user env w'
        | err Error.user_not_found ↦ (ok tt, w')
        | err e ↦ (err e, w')
      ]

  unfoldable pub resend_verification : Text → Action (Unit {0})
  resend_verification email = do
    fail_if (is_blank email) missing_field
    ignore_missing (get_by_email (trim_space unicode email)) (λ user env w.
        if user.email_verified then pure tt env w else send_verification_code user env w)

  unfoldable pub forgot_password : Text → Action (Unit {0})
  forgot_password email = do
    fail_if (is_blank email) missing_field
    ignore_missing (get_by_email (trim_space unicode email))
        (λ user. create_email_action_token user TokenPurpose.reset_password >>= send_code user)

  unfoldable pub reset_password : Text → Text → Text → Action (Unit {0})
  reset_password email code new_password = do
    fail_if (is_blank email || (is_blank code || is_blank new_password)) missing_field
    fail_if (ltb (byte_length new_password) 8) short_password
    token ← consume p email TokenPurpose.reset_password (trim_space unicode code)
    hash ← outside (λ n. p.hash_password n new_password) hashing
    revoke_all_for_user token.user_id
    update_password token.user_id hash

  abbrev pub access_token_of : User → Action Text
  access_token_of user = outside (λ n. p.access_token n user.id user.role user.system_role) signing

  unfoldable pub generate_session : User → Action TokenPair
  generate_session user = do
    access ← access_token_of user
    refresh ← outside p.refresh_token random
    now ← time_now
    id ← new_uuid uuid
    created ← time_now
    updated ← time_now
    create_session (record {
      id = id;
      user_id = user.id;
      refresh_token_digest = digest refresh;
      is_revoked = false;
      expires_at = now + p.session_lifetime;
      created_at = created;
      updated_at = updated;
    })
    pure (record { access_token = access; refresh_token = refresh })

  -- Login's lookup: a user that is not found has invalid credentials
  abbrev pub find_login : Text → Action User
  find_login email env w =
      let (r, w') = get_by_email email env w in
      (
        elim r [
          | ok user ↦ ok user
          | err Error.user_not_found ↦ err invalid_credentials
          | err e ↦ err e
        ],
        w',
      )

  unfoldable pub login : Text → Text → Action TokenPair
  login email password = do
    fail_if (is_empty email || is_empty password) missing_field
    user ← find_login email
    fail_if (not (p.check_password user.password_hash password)) invalid_credentials
    fail_if (not user.email_verified) email_not_verified
    fail_if (is_suspended user.status) account_suspended
    generate_session user

  unfoldable pub refresh_session : Text → Action Text
  refresh_session token = do
    fail_if (is_empty token) missing_field
    found ← get_by_token p token
    session ← fail_none found invalid_refresh_token
    fail_if session.is_revoked session_revoked
    now ← time_now
    fail_if (ltb session.expires_at now) refresh_token_expired
    user ← get_by_id session.user_id
    access_token_of user

  unfoldable pub logout : Text → Action (Unit {0})
  logout token env w = if is_empty token then pure tt env w else revoke p token env w
