-- ===== src/Upload/Files.antt =====
-- The checks of one file and of a whole upload: validateUploadFile, validateUploadManifest,
-- validateReadyAssets, uploadExtension, finalAssetKey and normalizeContentType of
-- internal/modules/catalog/application/upload_service.go. Sizes are int64: one below 0 is
-- refused as 0 is, and sums of four sizes that pass stay far below 2^63.
pub mod Manifest
pub mod Again
use blueprint_audio_backend.Common.{
  ℕ, ◌+◌, Bool, true, false, Option, none, some, List, [], ◌∷◌, ◌++◌, ◌==◌, ◌||◌, ◌&&◌, not, ltb,
  length, if◌then◌else◌, exists_where, Text, text, text_eq, is_empty,
}
use blueprint_audio_backend.Common.Strings.{
  Unicode, to_lower, trim_space, before_char, byte_length, valid_string,
}
use blueprint_audio_backend.Db.{Result, ok, err}
use blueprint_audio_backend.Db.Results.{◌>>=◌, ◌>>◌, refuse_if}
use blueprint_audio_backend.Catalog.Domain.{
  Error, invalid_upload, UploadAssetKind, image, preview, wav, stems, Category, SpecUploadAsset,
  kind_eq,
}
use blueprint_audio_backend.Upload.Paths.{base, ext}

-- `none` is a kind that is none of the four constants
pub record UploadFileCommand : Type 0 where
  pub kind : Option UploadAssetKind
  pub file_name : Text
  pub content_type : Text
  pub size_bytes : ℕ

abbrev pub upload_size_limit : UploadAssetKind → ℕ
upload_size_limit image = 5242880
upload_size_limit preview = 31457280
upload_size_limit wav = 314572800
upload_size_limit stems = 1073741824

abbrev pub max_upload_total_size : ℕ
max_upload_total_size = 1572864000

abbrev pub is_beat : Category → Bool
is_beat Category.beat = true
is_beat Category.sample = false

abbrev pub one_of : Text → List Text → Bool
one_of s names = exists_where (text_eq s) names

-- the extensions and content types that uploadExtension accepts
abbrev pub is_file_type : UploadAssetKind → Text → Text → Bool
is_file_type image extension content_type =
    one_of extension (text ".jpg" ∷ text ".jpeg" ∷ []) && text_eq content_type (text "image/jpeg")
    || (text_eq extension (text ".png") && text_eq content_type (text "image/png"))
is_file_type preview extension content_type =
    text_eq extension (text ".mp3")
    && one_of content_type (text "audio/mpeg" ∷ text "audio/mp3" ∷ [])
is_file_type wav extension content_type =
    text_eq extension (text ".wav")
    && one_of content_type (text "audio/wav" ∷ text "audio/x-wav" ∷ text "audio/wave" ∷ [])
is_file_type stems extension content_type =
    (text_eq extension (text ".zip")
      && one_of content_type (text "application/zip" ∷ text "application/x-zip-compressed" ∷ []))
    || (text_eq extension (text ".rar")
        && one_of content_type
            (text "application/vnd.rar" ∷ text "application/x-rar-compressed" ∷ []))

abbrev pub known_kind : Option UploadAssetKind → Result Error UploadAssetKind
known_kind none = err invalid_upload
known_kind (some kind) = ok kind

abbrev pub same_kind : Option UploadAssetKind → Option UploadAssetKind → Bool
same_kind none none = true
same_kind (some a) (some b) = kind_eq a b
same_kind _ _ = false

abbrev pub sees : List (Option UploadAssetKind) → UploadAssetKind → Bool
sees seen kind = exists_where (same_kind (some kind)) seen

-- `value == nil || *value <= 0`
abbrev pub is_nothing : Option ℕ → Bool
is_nothing none = true
is_nothing (some n) = n == 0

-- Package unicode's tables, and uuid.UUID's String.
module _ (u : Unicode) where
  unfoldable pub normalize_content_type : Text → Text
  normalize_content_type value = to_lower u (trim_space u (before_char b';' value))

  unfoldable pub upload_extension : UploadAssetKind → Text → Text → Result Error Text
  upload_extension kind file_name content_type =
      let extension = to_lower u (ext file_name) in
      if is_file_type kind extension (normalize_content_type content_type)
      then ok extension
      else err invalid_upload

  unfoldable pub validate_upload_file : UploadFileCommand → Result Error UploadFileCommand
  validate_upload_file file = do
    kind ← known_kind file.kind
    let name = trim_space u (base file.file_name)
    let content_type = normalize_content_type file.content_type
    refuse_if (is_empty name || text_eq name (text ".")) invalid_upload
    refuse_if (not (valid_string name) || (ltb 255 (byte_length name) || ltb 255 (length name)))
        invalid_upload
    refuse_if (file.size_bytes == 0 || ltb (upload_size_limit kind) file.size_bytes) invalid_upload
    extension ← upload_extension kind name content_type
    ok (record file { file_name = name; content_type = content_type })

  -- the loop of validateUploadManifest, with the kinds that it has seen and the sizes so far
  unfoldable pub check_files :
      List (Option UploadAssetKind)
      → ℕ
      → List UploadFileCommand
      → Result Error (List UploadFileCommand × List (Option UploadAssetKind) × ℕ)
  check_files seen total [] = ok ([], seen, total)
  check_files seen total (file ∷ files) = do
    refuse_if (exists_where (same_kind file.kind) seen) invalid_upload
    normalized ← validate_upload_file file
    (rest, all_seen, sum) ← check_files (file.kind ∷ seen) (total + normalized.size_bytes) files
    ok (normalized ∷ rest, all_seen, sum)

  unfoldable pub validate_upload_manifest :
      Category → List UploadFileCommand → Result Error (List UploadFileCommand)
  validate_upload_manifest category files = do
    refuse_if (not (is_beat category)) invalid_upload
    refuse_if (ltb (length files) 4 || ltb 4 (length files)) invalid_upload
    (normalized, seen, total) ← check_files [] 0 files
    refuse_if (not (sees seen image && (sees seen preview && (sees seen wav && sees seen stems))))
        invalid_upload
    refuse_if (ltb max_upload_total_size total) invalid_upload
    ok normalized

  -- `value == nil || strings.TrimSpace(*value) == ""`
  abbrev pub is_blank : Option Text → Bool
  is_blank none = true
  is_blank (some value) = is_empty (trim_space u value)

  unfoldable pub ready_files : List SpecUploadAsset → Result Error (List UploadFileCommand)
  ready_files [] = ok []
  ready_files (asset ∷ assets) = do
    refuse_if
        (is_nothing asset.actual_size
          || (is_blank asset.actual_content_type || is_blank asset.etag))
        invalid_upload
    rest ← ready_files assets
    ok (
        record {
          kind = some asset.kind;
          file_name = asset.file_name;
          content_type = asset.declared_content_type;
          size_bytes = asset.expected_size;
        }
        ∷ rest)

  unfoldable pub validate_ready_assets : Category → List SpecUploadAsset → Result Error (Unit {0})
  validate_ready_assets category assets = do
    files ← ready_files assets
    normalized ← validate_upload_manifest category files
    ok tt

-- The default case is a kind that no asset has.
unfoldable pub final_asset_key : (ℕ → Text) → ℕ → UploadAssetKind → Text → Text
final_asset_key show_uuid spec_id image extension =
    text "processing/specs/" ++ (show_uuid spec_id ++ (text "/cover-source" ++ extension))
final_asset_key show_uuid spec_id preview extension =
    text "audio/previews/" ++ (show_uuid spec_id ++ text ".mp3")
final_asset_key show_uuid spec_id wav extension =
    text "audio/wavs/" ++ (show_uuid spec_id ++ text ".wav")
final_asset_key show_uuid spec_id stems extension =
    text "audio/stems/" ++ (show_uuid spec_id ++ extension)
