-- ===== src/Auth/Domain.antt =====
-- internal/modules/auth/domain: user.go, session.go, email_token.go and errors.go.
--
-- Identifiers and times are numbers as in Catalog/Domain.
use blueprint_audio_backend.Common.{ℕ, Bool, true, false, Option, Text}

pub data UserRole : Type 0 where
  artist producer : UserRole

pub data SystemRole : Type 0 where
  user super_admin : SystemRole

pub data UserStatus : Type 0 where
  active suspended : UserStatus

-- The profile's texts and links are columns that no operation here reads.
pub record User : Type 0 where
  pub id : ℕ
  pub email : Text
  pub password_hash : Text
  pub name : Text
  pub display_name : Option Text
  pub role : UserRole
  pub system_role : SystemRole
  pub status : UserStatus
  pub email_verified : Bool
  pub email_verified_at : Option ℕ
  pub created_at : ℕ
  pub updated_at : ℕ

-- a row of user_sessions, which has the token's digest and not the token
pub record UserSession : Type 0 where
  pub id : ℕ
  pub user_id : ℕ
  pub refresh_token_digest : Text
  pub is_revoked : Bool
  pub expires_at : ℕ
  pub created_at : ℕ
  pub updated_at : ℕ

pub data TokenPurpose : Type 0 where
  verify_email reset_password : TokenPurpose

-- a row of email_action_tokens
pub record EmailActionToken : Type 0 where
  pub id : ℕ
  pub user_id : ℕ
  pub email : Text
  pub purpose : TokenPurpose
  pub code_digest : Text
  pub expires_at : ℕ
  pub consumed_at : Option ℕ
  pub created_at : ℕ
  pub updated_at : ℕ

pub data Error : Type 0 where
  database uuid random signing hashing mail : Error
  user_not_found invalid_credentials email_not_verified account_suspended : Error
  invalid_or_expired_code missing_field short_password : Error
  invalid_refresh_token session_revoked refresh_token_expired : Error

abbrev pub purpose_eq : TokenPurpose → TokenPurpose → Bool
purpose_eq TokenPurpose.verify_email TokenPurpose.verify_email = true
purpose_eq TokenPurpose.reset_password TokenPurpose.reset_password = true
purpose_eq _ _ = false

abbrev pub is_suspended : UserStatus → Bool
is_suspended UserStatus.suspended = true
is_suspended UserStatus.active = false
