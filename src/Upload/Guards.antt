-- ===== src/Upload/Guards.antt =====
-- What PrepareFile and ConfirmFile have checked before they change the tables.
use blueprint_audio_backend.Common.{
  ℕ, suc, ◌≤◌, true, some, ◌==◌, ◌≡◌, ◌≢◌, arith, find_where, Text, inl, inr, Option-cases,
}
use blueprint_audio_backend.Common.Strings.{Unicode}
use blueprint_audio_backend.Db.{Env, World, ok}
use blueprint_audio_backend.Db.Results.{Result-cases}
use blueprint_audio_backend.Catalog.Domain.{SpecUploadAsset, SpecUploadSession, is_uploading}
use blueprint_audio_backend.Catalog.Tables.{session_is}
use blueprint_audio_backend.Catalog.Sessions.{get_session}
use blueprint_audio_backend.Upload.Files.{UploadFileCommand, validate_upload_file}
use blueprint_audio_backend.Upload.Site.{Objects, Site}
use blueprint_audio_backend.Upload.Service.{
  require_uploading_session, verify_uploaded_object, prepare_file, confirm_file,
}
use blueprint_audio_backend.Upload.Service.Reads.{
  require_uploading_session-reads, verify_uploaded_object-reads,
}
use blueprint_audio_backend.Upload.Completion.{IsDeclared, verify_uploaded_object_ok}

-- the upload's session is stored, the producer's, uploading, and not expired when it is checked,
-- after the two statements that read it
abbrev pub IsOpen : ℕ → ℕ → Env → World Site → Type 0
IsOpen upload_id producer_id env w =
    (stored : SpecUploadSession) × (find_where (session_is upload_id) w.store.tables.sessions
      ≡ some stored)
    × (stored.producer_id ≡ producer_id)
    × (is_uploading stored.status ≡ true)
    × (env.clock (suc (suc w.tick)) ≤ stored.expires_at)

require_uploading_session_ok :
    (upload_id producer_id : ℕ) (env : Env) (w : World Site) {session : SpecUploadSession}
    → (require_uploading_session upload_id producer_id env w).0 ≡ ok session
    → IsOpen upload_id producer_id env w
unfolding require_uploading_session get_session
require_uploading_session_ok upload_id producer_id env w {session} h =
    elim (Option-cases (find_where (session_is upload_id) w.store.tables.sessions)) [
      | inl missing ↦ absurd (ground (arith, h, missing))
      | inr (stored, found) ↦ (
        stored,
        found,
        ground (arith, h, found),
        ground (arith, h, found),
        ground (arith, h, found),
      )
    ]

module _ (u : Unicode) (objects : Objects) (upload_id producer_id : ℕ) (env : Env)
    (w : World Site) where
  -- Where ConfirmFile changes the tables, the upload's session is stored, it is the producer's,
  -- uploading and not expired, and the object store has shown, under the key of the session's
  -- asset of that identifier, an object that is the declared file.
  pub confirm_file_checked :
      (asset_id : ℕ)
      → (confirm_file u objects upload_id producer_id asset_id env w).1.store.tables
        ≢ w.store.tables
      → IsOpen upload_id producer_id env w
        × ((session : SpecUploadSession) × ((require_uploading_session upload_id producer_id env
                w).0
              ≡ ok session)
            × ((asset : SpecUploadAsset) × (find_where
                    (λ (a : SpecUploadAsset). a.id == asset_id)
                    session.assets
                  ≡ some asset)
                × IsDeclared u objects asset))
  unfolding confirm_file
  confirm_file_checked asset_id h =
      let got = require_uploading_session upload_id producer_id env w in
      let same = require_uploading_session-reads upload_id producer_id env w in
      elim (Result-cases got.0) [
        | inl (e, fails) ↦ absurd (ground (arith, h, fails, same))
        | inr (session, found) ↦
            elim (Option-cases
              (find_where (λ (a : SpecUploadAsset). a.id == asset_id) session.assets)) [
                | inl missing ↦ absurd (ground (arith, h, found, missing, same))
                | inr (asset, here) ↦
                    let shown = verify_uploaded_object u objects asset env got.1 in
                    let kept = verify_uploaded_object-reads u objects asset env got.1 in
                    elim (Result-cases shown.0) [
                      | inl (e, wrong) ↦ absurd (ground (arith, h, found, here, wrong, same, kept))
                      | inr (info, good) ↦ (
                        require_uploading_session_ok upload_id producer_id env w found,
                        (
                          session,
                          found,
                          (asset, here, verify_uploaded_object_ok u objects asset env got.1 good),
                        ),
                      )
                    ]
              ]
      ]

  -- Where PrepareFile changes the tables, the upload's session is stored, it is the producer's,
  -- uploading and not expired, and the file has passed validateUploadFile.
  pub prepare_file_checked :
      (show_uuid : ℕ → Text) (file : UploadFileCommand)
      → (prepare_file u show_uuid objects upload_id producer_id file env w).1.store.tables
        ≢ w.store.tables
      → IsOpen upload_id producer_id env w
        × ((passed : UploadFileCommand) × (validate_upload_file u file ≡ ok passed))
  unfolding prepare_file
  prepare_file_checked show_uuid file h =
      let got = require_uploading_session upload_id producer_id env w in
      let same = require_uploading_session-reads upload_id producer_id env w in
      elim (Result-cases got.0) [
        | inl (e, fails) ↦ absurd (ground (arith, h, fails, same))
        | inr (session, found) ↦ elim (Result-cases (validate_upload_file u file)) [
          | inl (e, wrong) ↦ absurd (ground (arith, h, found, wrong, same))
          | inr (passed, good) ↦
              (require_uploading_session_ok upload_id producer_id env w found, (passed, good))
        ]
      ]
