-- ===== src/Upload/Service/Reads.antt =====
-- The parts of the upload service that leave the tables as they are.
use blueprint_audio_backend.Common.{ℕ, List, [], ◌∷◌, ◌≡◌, refl, arith}
use blueprint_audio_backend.Common.Strings.{Unicode}
use blueprint_audio_backend.Db.{Env, World}
use blueprint_audio_backend.Catalog.Domain.{SpecUploadAsset, SpecUploadSession}
use blueprint_audio_backend.Catalog.Sessions.{get_session}
use blueprint_audio_backend.Upload.Site.{Objects, Site, lift}
use blueprint_audio_backend.Upload.Service.{
  require_uploading_session, get_by_id_system, get_owned_session_spec, verify_uploaded_object,
}
use blueprint_audio_backend.Upload.Submit.{verify_assets}

pub get_session-reads :
    (upload_id producer_id : ℕ) (env : Env) (w : World Site)
    → (lift (get_session upload_id producer_id) env w).1.store.tables ≡ w.store.tables
unfolding get_session
get_session-reads upload_id producer_id env w = ground arith

pub require_uploading_session-reads :
    (upload_id producer_id : ℕ) (env : Env) (w : World Site)
    → (require_uploading_session upload_id producer_id env w).1.store.tables ≡ w.store.tables
unfolding require_uploading_session
require_uploading_session-reads upload_id producer_id env w =
    ground (arith, get_session-reads upload_id producer_id env w)

pub get_owned_session_spec-reads :
    (session : SpecUploadSession) (producer_id : ℕ) (env : Env) (w : World Site)
    → (get_owned_session_spec session producer_id env w).1.store.tables ≡ w.store.tables
unfolding get_owned_session_spec get_by_id_system
get_owned_session_spec-reads session producer_id env w = ground arith

pub verify_uploaded_object-reads :
    (u : Unicode) (objects : Objects) (asset : SpecUploadAsset) (env : Env) (w : World Site)
    → (verify_uploaded_object u objects asset env w).1.store.tables ≡ w.store.tables
unfolding verify_uploaded_object
verify_uploaded_object-reads u objects asset env w = ground arith

pub verify_assets-reads :
    (u : Unicode) (objects : Objects) (assets : List SpecUploadAsset) (env : Env) (w : World Site)
    → (verify_assets u objects assets env w).1.store.tables ≡ w.store.tables
unfolding verify_assets
verify_assets-reads u objects [] env w = refl
verify_assets-reads u objects (asset ∷ assets) env w = ground (
  arith,
  verify_uploaded_object-reads u objects asset env w,
  verify_assets-reads u objects assets env (verify_uploaded_object u objects asset env w).1,
)
