-- ===== src/Processing/Process.antt =====
-- SpecUploadProcessor.process of internal/modules/catalog/application/processor.go.
pub mod Reads
pub mod Keys
use blueprint_audio_backend.Common.{
  ℕ, Bool, true, false, Option, none, some, List, [], ◌∷◌, ◌++◌, ◌&&◌, not, ◌==◌, find_where,
  exists_where, if◌then◌else◌, Text, text, is_empty,
}
use blueprint_audio_backend.Db.{
  World, Result, ok, err, M, pure, fail, fail_if, fail_none, ◌>>=◌, ◌>>◌,
}
use blueprint_audio_backend.Catalog.Domain.{
  UploadAssetKind, Category, SpecUploadAsset, ProcessingBundle, ProcessedSpecFiles, kind_eq,
}
use blueprint_audio_backend.Catalog.Tables.{option_text_eq}
use blueprint_audio_backend.Upload.Files.{upload_size_limit, normalize_content_type, is_beat}
use blueprint_audio_backend.Upload.Site.{ObjectInfo}
use blueprint_audio_backend.Processing.Media.{
  Failure, ProcessError, Ports, Bench, Action, from, object_call, write_call, normalize_cover,
  read_bounded, analyze_preview, validate_wav_object, validate_stems_object,
}

-- cleanupKeys = append(cleanupKeys, …)
abbrev pub add_keys : List Text → Action (Unit {0})
add_keys keys env w = (ok tt, record w { store = record w.store { keys = w.store.keys ++ keys } })

abbrev pub size_is : Option ℕ → ℕ → Bool
size_is none size = false
size_is (some n) size = n == size

abbrev pub value_or_empty : Option Text → Text
value_or_empty none = []
value_or_empty (some s) = s

-- assets[kind]
abbrev pub asset_of : UploadAssetKind → List SpecUploadAsset → Option SpecUploadAsset
asset_of kind = find_where (λ a. kind_eq a.kind kind)

module _ (p : Ports) where
  abbrev pub processed_image_key : ℕ → Text
  processed_image_key spec_id = text "images/" ++ (p.show_uuid spec_id ++ text ".jpg")

  -- the object is the one that Complete has verified
  unfoldable pub is_unchanged : SpecUploadAsset → ObjectInfo → Bool
  is_unchanged asset info =
      size_is asset.actual_size info.size
      && (option_text_eq asset.actual_content_type
            (some (normalize_content_type p.unicode info.content_type))
          && (not (is_empty info.etag) && option_text_eq asset.etag (some info.etag)))

  unfoldable pub copy_asset : SpecUploadAsset → Action (Unit {0})
  copy_asset asset = do
    source ← object_call (λ n. p.stat_object n asset.object_key) (ProcessError.verify asset.kind)
    fail_if (not (is_unchanged asset source)) (ProcessError.changed asset.kind)
    write_call asset.final_object_key
        (λ n. p.copy_object n asset.object_key asset.final_object_key (value_or_empty asset.etag))
        (ProcessError.copy asset.kind)
    destination ←
        object_call (λ n. p.stat_object n asset.final_object_key)
          (ProcessError.verify_copied asset.kind)
    fail_if (not (destination.size == source.size)) (ProcessError.size_mismatch asset.kind)

  -- one round of the loop, after its append
  unfoldable pub visit_asset : List SpecUploadAsset → SpecUploadAsset → Action (Unit {0})
  visit_asset seen asset = do
    fail_if (exists_where (λ a. kind_eq a.kind asset.kind) seen) (ProcessError.duplicate asset.kind)
    copy_asset asset

  -- the loop over bundle.Assets, with the assets that it has seen
  unfoldable pub copy_assets :
      List SpecUploadAsset → List SpecUploadAsset → Action (List SpecUploadAsset)
  copy_assets seen [] = pure seen
  copy_assets seen (asset ∷ assets) = do
    add_keys (asset.object_key ∷ asset.final_object_key ∷ [])
    visit_asset seen asset
    copy_assets (asset ∷ seen) assets

  abbrev pub url_of : Text → Action Text
  url_of key = object_call (λ n. p.object_url key) ProcessError.url

  -- the WAV file or the stems: what a beat must have and a sample may have
  unfoldable pub check_optional :
      Category
      → ProcessError
      → (Text → Action (Unit {0}))
      → Option SpecUploadAsset
      → Action (Option Text)
  check_optional category missing validate none = do fail_if (is_beat category) missing; pure none
  check_optional category missing validate (some asset) = do
    validate asset.final_object_key
    url ← url_of asset.final_object_key
    pure (some url)

  -- the part of process from OpenObject of the preview on
  unfoldable pub process_audio :
      Text → Category → SpecUploadAsset → List SpecUploadAsset → Action ProcessedSpecFiles
  process_audio image_key category preview assets = do
    analysis ← analyze_preview p preview.final_object_key
    wav_url ←
        check_optional category ProcessError.no_wav (validate_wav_object p)
          (asset_of UploadAssetKind.wav assets)
    stems_url ←
        check_optional category ProcessError.no_stems (validate_stems_object p)
          (asset_of UploadAssetKind.stems assets)
    image_url ← url_of image_key
    preview_url ← url_of preview.final_object_key
    pure (record {
      image_url = image_url;
      preview_url = preview_url;
      wav_url = wav_url;
      stems_url = stems_url;
      duration = analysis.duration;
      waveform_peaks = analysis.waveform_peaks;
    })

  abbrev pub upload_cover : ℕ → List ℕ → Action (Unit {0})
  upload_cover spec_id processed_image =
      write_call (processed_image_key spec_id)
        (λ n. p.upload_with_key n processed_image (processed_image_key spec_id) (text "image/jpeg"))
        ProcessError.upload_cover

  -- the part of process after the loop
  unfoldable pub process_assets : ℕ → Category → List SpecUploadAsset → Action ProcessedSpecFiles
  process_assets spec_id category assets = do
    image ← fail_none (asset_of UploadAssetKind.image assets) ProcessError.no_image
    preview ← fail_none (asset_of UploadAssetKind.preview assets) ProcessError.no_preview
    image_bytes ← read_bounded p image.final_object_key (upload_size_limit UploadAssetKind.image)
    processed_image ← normalize_cover p image_bytes
    upload_cover spec_id processed_image
    process_audio (processed_image_key spec_id) category preview assets

  unfoldable pub process : ProcessingBundle → Action ProcessedSpecFiles
  process bundle = do
    add_keys (processed_image_key bundle.spec.id ∷ [])
    assets ← copy_assets [] bundle.assets
    process_assets bundle.spec.id bundle.spec.category assets
