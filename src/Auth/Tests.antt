-- ===== src/Auth/Tests.antt =====
-- Accounts on small inputs, with the identity in place of the hashes.
use blueprint_audio_backend.Common.{
  ℕ, suc, Bool, List, In, Text, true, false, none, some, [], ◌∷◌, ◌≡◌, ◌≢◌, inl, refl, arith, text,
  find_where, exists_where,
}
use blueprint_audio_backend.Common.Strings.{text_eq, trim_space}
use blueprint_audio_backend.Db.{Env, World, ok}
use blueprint_audio_backend.Auth.Domain.{
  User, UserRole, SystemRole, UserStatus, UserSession, EmailActionToken, TokenPurpose, is_suspended,
}
use blueprint_audio_backend.Auth.Repositories.{
  Store, Providers, matches, consume, consumed, has_digest, get_by_token, get_by_id, get_by_email,
  revoke, revoke_all_for_user, update_password, create_session,
}
use blueprint_audio_backend.Auth.Service.{
  TokenPair, login, logout, refresh_session, reset_password, generate_session,
  create_email_action_token,
}
use blueprint_audio_backend.Auth.History.{Request, run, no_new_code}
use blueprint_audio_backend.Auth.Codes.{consume_once, expired_code_blocks}
use blueprint_audio_backend.Auth.Sessions.{logout_ends, login_ok, unrevoked, reset_password_ok}

-- an environment whose clock starts at 5000
abbrev calm : Env
calm = record {
  clock = λ n. 5000;
  fault = λ _. false;
  uuid = λ n. some (suc n);
  locked = λ _ _. false;
}

abbrev plain : Providers
plain = record {
  unicode = record { lower = λ c. c; upper = λ c. c; space = λ c. false };
  digest = λ s. s;
  sql_lower = λ s. s;
  hash_password = λ n s. some s;
  check_password = λ hash s. text_eq hash s;
  email_code = λ n. some (text "123456");
  refresh_token = λ n. some (text "second");
  access_token = λ n id role system. some (text "access");
  send = λ n email code. true;
  session_lifetime = 100;
}

abbrev ann : User
ann = record {
  id = 1;
  email = text "ann@x.io";
  password_hash = text "password";
  name = text "Ann";
  display_name = none;
  role = UserRole.artist;
  system_role = SystemRole.user;
  status = UserStatus.active;
  email_verified = true;
  email_verified_at = none;
  created_at = 1;
  updated_at = 1;
}

abbrev session : UserSession
session = record {
  id = 7;
  user_id = 1;
  refresh_token_digest = text "first";
  is_revoked = false;
  expires_at = 9000;
  created_at = 1;
  updated_at = 1;
}

abbrev token : ℕ → EmailActionToken
token expires_at = record {
  id = 3;
  user_id = 1;
  email = text "ann@x.io";
  purpose = TokenPurpose.reset_password;
  code_digest = text "654321";
  expires_at = expires_at;
  consumed_at = none;
  created_at = 1;
  updated_at = 1;
}

-- a code that expires then
abbrev world : ℕ → World Store
world expires_at = record {
  tick = 0;
  store = record { users = ann ∷ []; sessions = session ∷ []; tokens = token expires_at ∷ [] };
}

consumes :
    (t : EmailActionToken) × ((consume plain
        (text "ann@x.io")
        TokenPurpose.reset_password
        (text "654321")
        calm
        (world 6000)).0
      ≡ ok t)
unfolding consume text_eq
consumes = (_, refl)

abbrev ann_code : Text
ann_code = text "654321"

abbrev consumed_world : World Store
consumed_world =
    (consume plain (text "ann@x.io") TokenPurpose.reset_password ann_code calm (world 6000)).1

-- another code for the same user, and a password set with it
abbrev traffic : List (Request × Env)
traffic =
    (Request.new_token (record (token 7000) { id = 4; code_digest = text "111111" }), calm)
    ∷ (Request.use_code (text "ann@x.io") TokenPurpose.reset_password (text "111111"), calm)
    ∷ (Request.set_password 1 (text "other password"), calm)
    ∷ (Request.open_session (record session { id = 8; refresh_token_digest = text "other" }), calm)
    ∷ []

no_new_ann : no_new_code plain (text "ann@x.io") TokenPurpose.reset_password ann_code traffic ≡ true
unfolding text_eq
no_new_ann = refl

consume_once_example :
    (consume plain
      (text "ann@x.io")
      TokenPurpose.reset_password
      ann_code
      calm
      (run plain traffic consumed_world)).0
    ≢ ok consumes.0
consume_once_example =
    consume_once plain (text "ann@x.io") TokenPurpose.reset_password ann_code calm calm (world 6000)
      consumes.0 traffic consumes.1 no_new_ann (omega arith) consumes.0

expired_code_blocks_example :
    (create_email_action_token plain ann TokenPurpose.reset_password calm (world 4000)).0
    ≢ ok (text "123456")
expired_code_blocks_example =
    expired_code_blocks plain calm (world 4000) ann TokenPurpose.reset_password (token 4000)
      (inl refl) refl refl refl (λ n. omega arith) (text "123456")

refreshes : (refresh_session plain (text "first") calm (world 6000)).0 ≡ ok (text "access")
unfolding refresh_session get_by_token get_by_id text_eq
refreshes = refl

logs_out : (logout plain (text "first") calm (world 6000)).0 ≡ ok tt
unfolding logout revoke
logs_out = refl

first_stored : exists_where (has_digest (text "first")) (world 6000).store.sessions ≡ true
unfolding text_eq
first_stored = refl

logout_ends_example :
    (refresh_session plain
      (text "first")
      calm
      (run plain traffic (logout plain (text "first") calm (world 6000)).1)).0
    ≢ ok (text "access")
logout_ends_example =
    logout_ends plain (text "first") (text "access") calm calm (world 6000) traffic refl logs_out
      first_stored

logs_in :
    (pair : TokenPair) × ((login plain (text "ann@x.io") (text "password") calm (world 6000)).0
      ≡ ok pair)
unfolding login get_by_email generate_session create_session text_eq
logs_in = (_, refl)

login_ok_example :
    (u : User) × (find_where (λ x. text_eq x.email (text "ann@x.io")) (world 6000).store.users
      ≡ some u)
    × (text_eq u.password_hash (text "password") ≡ true)
    × (u.email_verified ≡ true)
    × (is_suspended u.status ≡ false)
login_ok_example =
    login_ok plain (text "ann@x.io") (text "password") calm (world 6000) logs_in.0 logs_in.1

resets :
    (reset_password plain
      (text "ann@x.io")
      (text "654321")
      (text "new password")
      calm
      (world 6000)).0
    ≡ ok tt
unfolding reset_password consume revoke_all_for_user update_password text_eq trim_space
resets = refl

abbrev reset_store : Store
reset_store =
    (reset_password plain (text "ann@x.io") (text "654321") (text "new password") calm
      (world 6000)).1.store

abbrev ann_hit : ℕ → EmailActionToken → Bool
ann_hit =
    matches plain (text "ann@x.io") TokenPurpose.reset_password
      (trim_space plain.unicode (text "654321"))

reset_password_ok_example :
    (t : EmailActionToken) × (find_where (ann_hit 5000) (world 6000).store.tokens ≡ some t)
    × In (consumed 5000 t) reset_store.tokens
    × (find_where (ann_hit 5500) reset_store.tokens ≡ none)
    × (exists_where (unrevoked t.user_id) reset_store.sessions ≡ false)
reset_password_ok_example =
    reset_password_ok plain (text "ann@x.io") (text "654321") (text "new password") calm
      (world 6000) 5500 resets (omega arith)
