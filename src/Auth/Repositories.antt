-- ===== src/Auth/Repositories.antt =====
-- internal/modules/auth/infrastructure/persistence/postgres: email_token_repo.go,
-- session_repo.go and the calls of user_repo.go that the service makes.
use mathlib.Core.Option
use blueprint_audio_backend.Common.{
  ℕ, Bool, true, Option, some, List, [], ◌∷◌, ◌++◌, ◌==◌, ◌||◌, ◌&&◌, not, ltb, is_some,
  if◌then◌else◌, Text, text_eq, find_where, exists_where, update_where, count_where,
}
use blueprint_audio_backend.Common.Strings.{Unicode}
use blueprint_audio_backend.Db.{
  M, pure, fail_if, fail_none, ◌>>=◌, query, execute, insert, time_now, new_uuid,
}
use blueprint_audio_backend.Auth.Domain.{
  User, UserRole, SystemRole, UserSession, EmailActionToken, TokenPurpose, purpose_eq, Error,
  database, uuid, user_not_found, invalid_or_expired_code,
}

pub record Store : Type 0 where
  pub users : List User
  pub sessions : List UserSession
  pub tokens : List EmailActionToken

abbrev pub Action : Type 0 → Type 0
Action A = M Store Error A

-- SHA-256 in hexadecimal and PostgreSQL's lower(); bcrypt, crypto/rand, the JWT library and the
-- mailer, whose first argument numbers the call.
pub record Providers : Type 0 where
  pub unicode : Unicode
  pub digest : Text → Text
  pub sql_lower : Text → Text
  pub hash_password : ℕ → Text → Option Text
  pub check_password : Text → Text → Bool
  pub email_code : ℕ → Option Text
  pub refresh_token : ℕ → Option Text
  pub access_token : ℕ → ℕ → UserRole → SystemRole → Option Text
  pub send : ℕ → Text → Text → Bool
  pub session_lifetime : ℕ

abbrev pub id_or_new : ℕ → Action ℕ
id_or_new id env w = if id == 0 then new_uuid uuid env w else pure id env w

abbrev pub or_now : ℕ → ℕ → ℕ
or_now time now = if time == 0 then now else time

abbrev pub user_is : ℕ → User → Bool
user_is id u = u.id == id

-- PgUserRepository.GetByEmail
unfoldable pub get_by_email : Text → Action User
get_by_email email = do
  found ← query database (λ s. find_where (λ u. text_eq u.email email) s.users)
  fail_none found user_not_found

-- PgUserRepository.GetByID
unfoldable pub get_by_id : ℕ → Action User
get_by_id id = do
  found ← query database (λ s. find_where (user_is id) s.users)
  fail_none found user_not_found

-- PgUserRepository.MarkEmailVerified
unfoldable pub mark_email_verified : ℕ → Action (Unit {0})
mark_email_verified id = do
  rows ← execute database (λ now s. (
    count_where (user_is id) s.users,
    record s {
      users =
          update_where (user_is id)
            (λ u. record u {
              email_verified = true;
              email_verified_at = some now;
              updated_at = now;
            })
            s.users;
    },
  ))
  fail_if (rows == 0) user_not_found

-- PgUserRepository.UpdatePassword
unfoldable pub update_password : ℕ → Text → Action (Unit {0})
update_password id hash = do
  rows ← execute database (λ now s. (
    count_where (user_is id) s.users,
    record s {
      users =
          update_where (user_is id) (λ u. record u { password_hash = hash; updated_at = now })
            s.users;
    },
  ))
  fail_if (rows == 0) user_not_found

abbrev pub has_digest : Text → UserSession → Bool
has_digest d s = text_eq s.refresh_token_digest d

-- PRIMARY KEY (id), UNIQUE (refresh_token_digest)
abbrev pub session_violates : UserSession → Store → Bool
session_violates row s =
    exists_where (λ r. r.id == row.id || has_digest row.refresh_token_digest r) s.sessions

-- PgSessionRepository.Create, of a session whose digest is computed
unfoldable pub create_session : UserSession → Action (Unit {0})
create_session session = do
  id ← id_or_new session.id
  created ← time_now
  updated ← time_now
  let row = record session {
    id = id;
    created_at = or_now session.created_at created;
    updated_at = or_now session.updated_at updated;
  }
  insert database database (session_violates row)
      (λ _ s. record s { sessions = s.sessions ++ row ∷ [] })

abbrev pub revoked : ℕ → UserSession → UserSession
revoked now r = record r { is_revoked = true; updated_at = now }

-- PgSessionRepository.RevokeAllForUser
unfoldable pub revoke_all_for_user : ℕ → Action (Unit {0})
revoke_all_for_user user_id = do
  now ← time_now
  execute database (λ _ s. (
    tt,
    record s {
      sessions =
          update_where (λ r. r.user_id == user_id && not r.is_revoked) (revoked now) s.sessions;
    },
  ))

-- consumed_at IS NULL AND expires_at > NOW()
abbrev pub is_live : ℕ → EmailActionToken → Bool
is_live now t = not (is_some t.consumed_at) && ltb now t.expires_at

abbrev pub consumed : ℕ → EmailActionToken → EmailActionToken
consumed now t = record t { consumed_at = some now; updated_at = now }

-- PRIMARY KEY (id), UNIQUE (user_id, purpose) WHERE consumed_at IS NULL
abbrev pub token_violates : EmailActionToken → Store → Bool
token_violates row s =
    exists_where
      (λ t.
        t.id == row.id
        || t.user_id == row.user_id
          && (purpose_eq t.purpose row.purpose && not (is_some t.consumed_at)))
      s.tokens

-- PgEmailActionTokenRepository.Create, of a token with its identifier and its code's digest
unfoldable pub create_token : EmailActionToken → Action (Unit {0})
create_token token = do
  now ← time_now
  later ← time_now
  let row = record token { created_at = or_now token.created_at now; updated_at = later }
  insert database database (token_violates row) (λ _ s. record s { tokens = s.tokens ++ row ∷ [] })

-- PgEmailActionTokenRepository.InvalidateActive
unfoldable pub invalidate_active : ℕ → TokenPurpose → Action (Unit {0})
invalidate_active user_id purpose = execute database (λ now s. (
  tt,
  record s {
    tokens =
        update_where (λ t. t.user_id == user_id && (purpose_eq t.purpose purpose && is_live now t))
          (consumed now) s.tokens;
  },
))

module _ (p : Providers) where
  open p use {digest, sql_lower}

  -- PgSessionRepository.GetByToken
  unfoldable pub get_by_token : Text → Action (Option UserSession)
  get_by_token token = query database (λ s. find_where (has_digest (digest token)) s.sessions)

  -- PgSessionRepository.Revoke
  unfoldable pub revoke : Text → Action (Unit {0})
  revoke token = do
    now ← time_now
    execute database (λ _ s. (
      tt,
      record s { sessions = update_where (has_digest (digest token)) (revoked now) s.sessions },
    ))

  -- the rows that Consume reaches at the time `now`
  abbrev pub matches : Text → TokenPurpose → Text → ℕ → EmailActionToken → Bool
  matches email purpose code now t =
      text_eq (sql_lower t.email) (sql_lower email)
      && (purpose_eq t.purpose purpose && (text_eq t.code_digest (digest code) && is_live now t))

  -- PgEmailActionTokenRepository.Consume: the UPDATE reaches every such row, and the first of
  -- those that it returns is read
  unfoldable pub consume : Text → TokenPurpose → Text → Action EmailActionToken
  consume email purpose code = do
    first ← execute database (λ now s.
        let hit = matches email purpose code now in
        (
          Option.map (consumed now) (find_where hit s.tokens),
          record s { tokens = update_where hit (consumed now) s.tokens },
        ))
    fail_none first invalid_or_expired_code
