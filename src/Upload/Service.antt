-- ===== src/Upload/Service.antt =====
-- specUploadService of internal/modules/catalog/application/upload_service.go: Initiate,
-- PrepareFile, ConfirmFile and Status, over the repository and the object store.
-- Times are in nanoseconds.
pub mod Reads
use blueprint_audio_backend.Common.{
  ℕ, ◌+◌, Bool, true, false, Option, none, some, List, [], ◌∷◌, ◌++◌, ◌==◌, ◌||◌, ◌&&◌, not, ltb,
  if◌then◌else◌, find_where, exists_where, select_where, Text, text, text_eq, is_empty,
}
use blueprint_audio_backend.Common.Strings.{Unicode, trim_space}
use blueprint_audio_backend.Db.{
  Result, ok, err, pure, fail, fail_if, fail_none, ◌>>=◌, ◌>>◌, query, time_now, new_uuid,
}
use blueprint_audio_backend.Catalog.Domain.{
  Error, invalid_upload, upload_not_found, upload_forbidden, upload_expired, upload_state, database,
  uuid, storage, decoding, UploadStatus, UploadAssetKind, image, preview, wav, stems,
  ProcessingStatus, Category, Spec, LicenseOption, Genre, SpecUploadAsset, SpecUploadSession,
  SpecUploadStatus, SpecProcessingJob, is_uploading,
}
use blueprint_audio_backend.Catalog.Tables.{Store, spec_is}
use blueprint_audio_backend.Catalog.Sessions.{
  create_session, get_session, replace_asset, verify_asset, get_status,
}
use blueprint_audio_backend.Catalog.Jobs.{finalize_upload}
use blueprint_audio_backend.Catalog.History.{new_job}
use blueprint_audio_backend.Upload.Files.{
  UploadFileCommand, upload_size_limit, normalize_content_type, upload_extension, known_kind,
  validate_upload_file, validate_ready_assets, final_asset_key,
}
use blueprint_audio_backend.Upload.Site.{
  ObjectInfo, Objects, Site, Action, lift, from, attempt, object_call, delete_object,
}

-- 24 hours
abbrev pub spec_upload_session_ttl : ℕ
spec_upload_session_ttl = 86400000000000

pub record InitiateSpecUploadResult : Type 0 where
  pub upload_id : ℕ
  pub spec_id : ℕ
  pub expires_at : ℕ

pub record UploadInstruction : Type 0 where
  pub asset_id : ℕ
  pub kind : UploadAssetKind
  pub object_key : Text
  pub upload : Text

abbrev pub kind_name : UploadAssetKind → Text
kind_name image = text "image"
kind_name preview = text "preview"
kind_name wav = text "wav"
kind_name stems = text "stems"

-- CreateSession's argument
abbrev pub fresh_session : ℕ → ℕ → ℕ → ℕ → SpecUploadSession
fresh_session upload_id spec_id producer_id now = record {
  id = upload_id;
  spec_id = spec_id;
  producer_id = producer_id;
  metadata = text "{}";
  status = UploadStatus.uploading;
  error_message = none;
  expires_at = now + spec_upload_session_ttl;
  created_at = now;
  updated_at = now;
  completed_at = none;
  assets = [];
}

unfoldable pub initiate : ℕ → Action InitiateSpecUploadResult
initiate producer_id = do
  spec_id ← new_uuid uuid
  upload_id ← new_uuid uuid
  now ← time_now
  lift (create_session (fresh_session upload_id spec_id producer_id now))
  pure (record {
    upload_id = upload_id;
    spec_id = spec_id;
    expires_at = now + spec_upload_session_ttl;
  })

unfoldable pub require_uploading_session : ℕ → ℕ → Action SpecUploadSession
require_uploading_session upload_id producer_id = do
  session ← lift (get_session upload_id producer_id)
  fail_if (not (is_uploading session.status)) upload_state
  now ← time_now
  fail_if (ltb session.expires_at now) upload_expired
  pure session

-- GetByIDSystem of the spec repository; the database's error for no row is passed on
unfoldable pub get_by_id_system : ℕ → Action Spec
get_by_id_system id = do
  row ← lift (query database (λ (s : Store). find_where (spec_is id) s.specs))
  spec ← fail_none row database
  licenses ← lift (
      query database
        (λ (s : Store). select_where (λ (l : LicenseOption). l.spec_id == id) s.licenses))
  genres ← lift (
      query database (λ (s : Store).
        select_where
          (λ (g : Genre). exists_where (λ (r : ℕ × ℕ). r.0 == id && r.1 == g.id) s.spec_genres)
          s.genres))
  pure (record spec { licenses = licenses; genres = genres })

unfoldable pub get_owned_session_spec : SpecUploadSession → ℕ → Action Spec
get_owned_session_spec session producer_id = do
  spec ← get_by_id_system session.spec_id
  fail_if (not (spec.producer_id == producer_id)) upload_forbidden
  pure spec

unfoldable pub status : ℕ → ℕ → Action SpecUploadStatus
status upload_id producer_id = do
  row ← lift (get_status upload_id producer_id)
  now ← time_now
  pure (
      if is_uploading row.status && ltb row.expires_at now
      then record row { status = UploadStatus.expired }
      else row)

-- Package unicode's tables, uuid.UUID's String, and the object store.
module _ (u : Unicode) (show_uuid : ℕ → Text) (objects : Objects) where
  abbrev pub staging_key : ℕ → ℕ → UploadAssetKind → ℕ → Text → Text
  staging_key producer_id upload_id kind asset_id extension =
      text "incoming/specs/"
      ++ (show_uuid producer_id
          ++ (text "/"
              ++ (show_uuid upload_id
                  ++ (text "/"
                      ++ (kind_name kind ++ (text "/" ++ (show_uuid asset_id ++ extension)))))))

  -- the row that PrepareFile writes for a file that has passed
  abbrev pub new_asset :
      ℕ → ℕ → ℕ → UploadAssetKind → UploadFileCommand → Text → Text → ℕ → SpecUploadAsset
  new_asset asset_id upload_id spec_id kind file key extension now = record {
    id = asset_id;
    session_id = upload_id;
    kind = kind;
    file_name = file.file_name;
    object_key = key;
    final_object_key = final_asset_key show_uuid spec_id kind extension;
    declared_content_type = file.content_type;
    actual_content_type = none;
    expected_size = file.size_bytes;
    actual_size = none;
    etag = none;
    created_at = now;
    updated_at = now;
  }

  -- The object of an asset that the new one replaces is deleted, whatever comes of it.
  abbrev pub delete_replaced : Option SpecUploadAsset → Text → Action (Unit {0})
  delete_replaced none key env w = (ok tt, w)
  delete_replaced (some previous) key env w =
      if is_empty previous.object_key || text_eq previous.object_key key
      then (ok tt, w)
      else delete_object previous.object_key env w

  -- validateUploadFile has refused a file of no known kind.
  unfoldable pub prepare_file : ℕ → ℕ → UploadFileCommand → Action UploadInstruction
  prepare_file upload_id producer_id file = do
    session ← require_uploading_session upload_id producer_id
    normalized ← from (validate_upload_file u file)
    kind ← from (known_kind normalized.kind)
    extension ← from (upload_extension u kind normalized.file_name normalized.content_type)
    asset_id ← new_uuid uuid
    let key = staging_key producer_id upload_id kind asset_id extension
    presigned ←
        object_call (λ n. objects.presign n key normalized.content_type normalized.size_bytes)
          storage
    now ← time_now
    previous ← lift (
        replace_asset upload_id producer_id
          (new_asset asset_id upload_id session.spec_id kind normalized key extension now))
    delete_replaced previous key
    pure (record { asset_id = asset_id; kind = kind; object_key = key; upload = presigned })

-- Package unicode's tables, and the object store.
module _ (u : Unicode) (objects : Objects) where
  -- an object that is the file that was declared
  abbrev pub is_declared : SpecUploadAsset → ObjectInfo → Bool
  is_declared asset info =
      not (
        info.size == 0
        || (ltb (upload_size_limit asset.kind) info.size || not (info.size == asset.expected_size)))
      && (let content_type = normalize_content_type u info.content_type in
          not (is_empty content_type)
          && (text_eq content_type asset.declared_content_type && not (is_empty info.etag)))

  unfoldable pub verify_uploaded_object : SpecUploadAsset → Action ObjectInfo
  verify_uploaded_object asset = do
    info ← object_call (λ n. objects.stat n asset.object_key) invalid_upload
    fail_if (not (is_declared asset info)) invalid_upload
    pure info

  -- what has been verified of an asset
  abbrev pub verified_asset : SpecUploadAsset → ObjectInfo → SpecUploadAsset
  verified_asset asset info = record asset {
    actual_size = some info.size;
    actual_content_type = some (normalize_content_type u info.content_type);
    etag = some info.etag;
  }

  unfoldable pub confirm_file : ℕ → ℕ → ℕ → Action SpecUploadAsset
  confirm_file upload_id producer_id asset_id = do
    session ← require_uploading_session upload_id producer_id
    asset ←
        fail_none (find_where (λ (a : SpecUploadAsset). a.id == asset_id) session.assets)
          upload_state
    info ← verify_uploaded_object asset
    lift (
        verify_asset upload_id producer_id asset_id info.size
          (normalize_content_type u info.content_type) info.etag)
    pure (verified_asset asset info)
