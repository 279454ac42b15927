-- ===== src/Upload/Tests.antt =====
-- One upload of four files, and the results of the upload service at it.
use blueprint_audio_backend.Common.{
  ℕ, suc, ◌+◌, ◌==◌, ◌≤◌, true, false, Option, none, some, List, [], ◌∷◌, ◌≡◌, ◌≢◌, refl, ap,
  if◌then◌else◌, arith, length, Text, text, All, find_where,
}
use blueprint_audio_backend.Common.Strings.{Unicode, text_eq, to_lower, trim_space}
use blueprint_audio_backend.Db.{Env, World, ok, transaction}
use blueprint_audio_backend.Catalog.Domain.{
  UploadStatus, UploadAssetKind, image, preview, wav, stems, Category, ProcessingStatus, Spec,
  SpecUploadAsset, SpecUploadSession, is_uploading,
}
use blueprint_audio_backend.Catalog.Tables.{Store, empty, session_is}
use blueprint_audio_backend.Catalog.Request.{Op}
use blueprint_audio_backend.Catalog.Sessions.{
  create_session, insert_assets, get_session, verify_asset, replace_asset,
}
use blueprint_audio_backend.Catalog.Specs.{create_spec_tx, link_genres, insert_licenses}
use blueprint_audio_backend.Catalog.Jobs.{finalize_upload, check_finalizable, store_assets, enqueue}
use blueprint_audio_backend.Catalog.History.{call, run}
use blueprint_audio_backend.Upload.Paths.{base}
use blueprint_audio_backend.Upload.Files.{
  UploadFileCommand, normalize_content_type, upload_extension, validate_upload_file, check_files,
  validate_upload_manifest, final_asset_key, ready_files, validate_ready_assets,
}
use blueprint_audio_backend.Upload.Files.Manifest.{
  IsUploadable, count_of, total_size, validate_upload_manifest_ok,
}
use blueprint_audio_backend.Upload.Files.Again.Recheck.{validate_upload_file_again}
use blueprint_audio_backend.Upload.Site.{Objects, Site, lift}
use blueprint_audio_backend.Upload.Service.{
  verify_uploaded_object, require_uploading_session, confirm_file, prepare_file,
}
use blueprint_audio_backend.Upload.Guards.{IsOpen, confirm_file_checked, prepare_file_checked}
use blueprint_audio_backend.Upload.Submit.{verify_assets, complete_uploading, complete}
use blueprint_audio_backend.Upload.Completion.{IsDeclared, complete_checked}

abbrev calm : Env
calm = record {
  clock = λ n. n;
  fault = λ _. false;
  uuid = λ n. some (suc n);
  locked = λ _ _. false;
}

abbrev ascii : Unicode
ascii = record { lower = λ c. c; upper = λ c. c; space = λ c. false }

abbrev file : UploadAssetKind → Text → Text → UploadFileCommand
file kind name content_type = record {
  kind = some kind;
  file_name = name;
  content_type = content_type;
  size_bytes = 100;
}

abbrev files : List UploadFileCommand
files =
    file image (text "/tmp/Cover.PNG ") (text " image/PNG; q=1")
    ∷ file preview (text "a.mp3") (text "audio/mpeg")
    ∷ file wav (text "a.wav") (text "audio/wav")
    ∷ file stems (text "a.zip") (text "application/zip")
    ∷ []

abbrev cover : UploadFileCommand
cover = file image (text "Cover.PNG") (text "image/png")

cover_passes :
    validate_upload_file ascii (file image (text "/tmp/Cover.PNG ") (text " image/PNG; q=1"))
    ≡ ok cover
unfolding validate_upload_file upload_extension normalize_content_type to_lower trim_space base
    text_eq
cover_passes = refl

validate_upload_file_again_example : validate_upload_file ascii cover ≡ ok cover
unfolding normalize_content_type to_lower trim_space
validate_upload_file_again_example =
    validate_upload_file_again ascii (file image (text "/tmp/Cover.PNG ") (text " image/PNG; q=1"))
      cover_passes

files_pass :
    (out : List UploadFileCommand) × (validate_upload_manifest ascii Category.beat files ≡ ok out)
unfolding validate_upload_manifest check_files validate_upload_file upload_extension
    normalize_content_type to_lower trim_space base text_eq
files_pass = (_, refl)

validate_upload_manifest_ok_example :
    (true ≡ true)
    × All (IsUploadable ascii) files_pass.0
    × (length files_pass.0 ≡ 4)
    × ((k : UploadAssetKind) → count_of k files_pass.0 ≡ 1)
    × (total_size files_pass.0 ≤ 1425014784)
validate_upload_manifest_ok_example =
    validate_upload_manifest_ok ascii Category.beat files files_pass.1

abbrev stored_asset : ℕ → UploadAssetKind → Text → Text → SpecUploadAsset
stored_asset id kind name content_type = record {
  id = id;
  session_id = 1;
  kind = kind;
  file_name = name;
  object_key = [];
  final_object_key = name;
  declared_content_type = content_type;
  actual_content_type = some content_type;
  expected_size = 100;
  actual_size = some 100;
  etag = some (text "e");
  created_at = 0;
  updated_at = 0;
}

abbrev keyed : Text → SpecUploadAsset → SpecUploadAsset
keyed key a = record a { object_key = key }

abbrev upload : SpecUploadSession
upload = record {
  id = 1;
  spec_id = 2;
  producer_id = 3;
  metadata = text "beat";
  status = UploadStatus.uploading;
  error_message = none;
  expires_at = 1000;
  created_at = 0;
  updated_at = 0;
  completed_at = none;
  assets =
      keyed (text "k1") (stored_asset 11 image (text "a.png") (text "image/png"))
      ∷ keyed (text "k2") (stored_asset 12 preview (text "a.mp3") (text "audio/mpeg"))
      ∷ keyed (text "k3") (stored_asset 13 wav (text "a.wav") (text "audio/wav"))
      ∷ keyed (text "k4") (stored_asset 14 stems (text "a.zip") (text "application/zip"))
      ∷ [];
}

abbrev beat : Spec
beat = record {
  id = 2;
  producer_id = 3;
  title = text "Beat";
  category = Category.beat;
  image_url = [];
  preview_url = [];
  wav_url = none;
  stems_url = none;
  duration = 0;
  waveform_peaks = [];
  slug = none;
  short_code = none;
  processing_status = ProcessingStatus.processing;
  created_at = 0;
  updated_at = 0;
  licenses = [];
  genres = [];
}

-- every object has the size of the files, and the type that its key stands for
abbrev content_type_of : Text → Text
content_type_of key =
    if text_eq key (text "k1")
    then text "image/png"
    else if text_eq key (text "k2")
    then text "audio/mpeg"
    else if text_eq key (text "k3")
    then text "audio/wav"
    else text "application/zip"

abbrev objects : Objects
objects = record {
  presign = λ n key content_type size. some key;
  stat = λ n key. some (record { size = 100; content_type = content_type_of key; etag = text "e" });
}

abbrev decode : Text → Option Spec
decode _ = some beat

abbrev created : World Store
created = run calm (Op.create_session upload ∷ []) (record { tick = 0; store = empty })

abbrev site : World Site
site = record { tick = created.tick; store = record { tables = created.store; deleted = [] } }

one_job : length (complete ascii decode objects 1 3 calm site).1.store.tables.jobs ≡ 1
unfolding run call create_session transaction insert_assets complete get_session complete_uploading
    verify_assets verify_uploaded_object validate_ready_assets ready_files validate_upload_manifest
    check_files validate_upload_file upload_extension normalize_content_type to_lower trim_space
    base finalize_upload check_finalizable store_assets enqueue create_spec_tx link_genres
    insert_licenses text_eq
one_job = refl

no_job : length site.store.tables.jobs ≡ 0
unfolding run call create_session transaction insert_assets text_eq
no_job = refl

submits : (complete ascii decode objects 1 3 calm site).1.store.tables ≢ site.store.tables
submits e = absurd (omega (arith, one_job, no_job, ap (λ (s : Store). length s.jobs) e))

complete_checked_example :
    ((stored : SpecUploadSession) × (find_where (session_is 1) site.store.tables.sessions
        ≡ some stored)
      × (stored.producer_id ≡ 3)
      × (is_uploading stored.status ≡ true))
    × ((session : SpecUploadSession) × ((lift (get_session 1 3) calm site).0 ≡ ok session)
        × (validate_ready_assets ascii Category.beat session.assets ≡ ok tt)
        × All (IsDeclared ascii objects) session.assets)
complete_checked_example = complete_checked ascii decode objects 1 3 calm site submits

abbrev stamps : List SpecUploadAsset → ℕ
stamps [] = 0
stamps (a ∷ assets) = a.updated_at + stamps assets

abbrev confirmed_tables : Store
confirmed_tables = (confirm_file ascii objects 1 3 11 calm site).1.store.tables

abbrev fresh : Env
fresh = record calm { uuid = λ n. some (n + 1000) }

abbrev show_uuid : ℕ → Text
show_uuid n = n ∷ []

abbrev prepared_tables : Store
prepared_tables = (prepare_file ascii show_uuid objects 1 3 cover fresh site).1.store.tables

first_stamps : stamps site.store.tables.assets ≡ 0
unfolding run call create_session transaction insert_assets text_eq
first_stamps = refl

confirmed_stamps : stamps confirmed_tables.assets ≡ 12
unfolding run call create_session transaction insert_assets confirm_file require_uploading_session
    get_session verify_uploaded_object normalize_content_type verify_asset to_lower trim_space
    text_eq
confirmed_stamps = refl

prepared_stamps : stamps prepared_tables.assets ≡ 19
unfolding run call create_session transaction insert_assets prepare_file require_uploading_session
    get_session validate_upload_file upload_extension base normalize_content_type replace_asset
    final_asset_key to_lower trim_space text_eq
prepared_stamps = refl

confirms : confirmed_tables ≢ site.store.tables
confirms e =
    absurd (omega (arith, confirmed_stamps, first_stamps, ap (λ (s : Store). stamps s.assets) e))

prepares : prepared_tables ≢ site.store.tables
prepares e =
    absurd (omega (arith, prepared_stamps, first_stamps, ap (λ (s : Store). stamps s.assets) e))

confirm_file_checked_example :
    IsOpen 1 3 calm site
    × ((session : SpecUploadSession) × ((require_uploading_session 1 3 calm site).0 ≡ ok session)
        × ((asset : SpecUploadAsset) × (find_where
                (λ (a : SpecUploadAsset). a.id == 11)
                session.assets
              ≡ some asset)
            × IsDeclared ascii objects asset))
confirm_file_checked_example = confirm_file_checked ascii objects 1 3 calm site 11 confirms

prepare_file_checked_example :
    IsOpen 1 3 fresh site
    × ((passed : UploadFileCommand) × (validate_upload_file ascii cover ≡ ok passed))
prepare_file_checked_example =
    prepare_file_checked ascii objects 1 3 fresh site show_uuid cover prepares
