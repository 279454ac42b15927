-- ===== src/Catalog/Domain.antt =====
-- The catalog's data: internal/modules/catalog/domain/upload.go, spec.go and errors.go.
--
-- Identifiers are numbers, with 0 for uuid.Nil. Times are numbers, with 0 for the zero time.
use blueprint_audio_backend.Common.{ℕ, Bool, true, false, Option, List}
use blueprint_audio_backend.Common.Strings.{Text}

-- `unset` is the empty string, the zero value of the Go type
pub data UploadStatus : Type 0 where
  unset uploading queued processing completed failed expired : UploadStatus

pub data UploadAssetKind : Type 0 where
  image preview wav stems : UploadAssetKind

pub data ProcessingJobStatus : Type 0 where
  queued processing completed failed : ProcessingJobStatus

pub data ProcessingStatus : Type 0 where
  unset pending processing completed failed : ProcessingStatus

pub data Category : Type 0 where
  beat sample : Category

pub data LicenseType : Type 0 where
  basic premium trackout unlimited : LicenseType

-- the sentinel errors; the last four are errors of the driver, of the generator of identifiers, of
-- the object store and of package json
pub data Error : Type 0 where
  invalid_upload upload_not_found upload_forbidden upload_expired upload_state : Error
  no_processing_job database uuid storage decoding : Error

pub record LicenseOption : Type 0 where
  pub id : ℕ
  pub spec_id : ℕ
  pub license_type : LicenseType
  pub name : Text
  pub features : List Text
  pub file_types : List Text

pub record Genre : Type 0 where
  pub id : ℕ
  pub name : Text
  pub slug : Text
  pub created_at : ℕ

-- Prices, tempo, key and the like are columns that no operation here reads.
pub record Spec : Type 0 where
  pub id : ℕ
  pub producer_id : ℕ
  pub title : Text
  pub category : Category
  pub image_url : Text
  pub preview_url : Text
  pub wav_url : Option Text
  pub stems_url : Option Text
  pub duration : ℕ
  pub waveform_peaks : List ℕ
  pub slug : Option Text
  pub short_code : Option Text
  pub processing_status : ProcessingStatus
  pub created_at : ℕ
  pub updated_at : ℕ
  pub licenses : List LicenseOption
  pub genres : List Genre

pub record SpecUploadAsset : Type 0 where
  pub id : ℕ
  pub session_id : ℕ
  pub kind : UploadAssetKind
  pub file_name : Text
  pub object_key : Text
  pub final_object_key : Text
  pub declared_content_type : Text
  pub actual_content_type : Option Text
  pub expected_size : ℕ
  pub actual_size : Option ℕ
  pub etag : Option Text
  pub created_at : ℕ
  pub updated_at : ℕ

pub record SpecUploadSession : Type 0 where
  pub id : ℕ
  pub spec_id : ℕ
  pub producer_id : ℕ
  pub metadata : Text
  pub status : UploadStatus
  pub error_message : Option Text
  pub expires_at : ℕ
  pub created_at : ℕ
  pub updated_at : ℕ
  pub completed_at : Option ℕ
  pub assets : List SpecUploadAsset

pub record SpecProcessingJob : Type 0 where
  pub id : ℕ
  pub spec_id : ℕ
  pub session_id : ℕ
  pub status : ProcessingJobStatus
  pub worker_id : Option Text
  pub locked_at : Option ℕ
  pub started_at : Option ℕ
  pub completed_at : Option ℕ
  pub error_message : Option Text
  pub created_at : ℕ
  pub updated_at : ℕ

pub record ProcessingBundle : Type 0 where
  pub job : SpecProcessingJob
  pub session : SpecUploadSession
  pub spec : Spec
  pub assets : List SpecUploadAsset

pub record ProcessedSpecFiles : Type 0 where
  pub image_url : Text
  pub preview_url : Text
  pub wav_url : Option Text
  pub stems_url : Option Text
  pub duration : ℕ
  pub waveform_peaks : List ℕ

pub record SpecUploadStatus : Type 0 where
  pub upload_id : ℕ
  pub spec_id : ℕ
  pub producer_id : ℕ
  pub status : UploadStatus
  pub processing_status : ProcessingStatus
  pub error_message : Option Text
  pub created_at : ℕ
  pub updated_at : ℕ
  pub expires_at : ℕ

abbrev pub is_uploading : UploadStatus → Bool
is_uploading UploadStatus.uploading = true
is_uploading _ = false

abbrev pub is_unset : UploadStatus → Bool
is_unset UploadStatus.unset = true
is_unset _ = false

abbrev pub is_queued : ProcessingJobStatus → Bool
is_queued ProcessingJobStatus.queued = true
is_queued _ = false

abbrev pub is_processing : ProcessingJobStatus → Bool
is_processing ProcessingJobStatus.processing = true
is_processing _ = false

abbrev pub kind_eq : UploadAssetKind → UploadAssetKind → Bool
kind_eq UploadAssetKind.image UploadAssetKind.image = true
kind_eq UploadAssetKind.preview UploadAssetKind.preview = true
kind_eq UploadAssetKind.wav UploadAssetKind.wav = true
kind_eq UploadAssetKind.stems UploadAssetKind.stems = true
kind_eq _ _ = false
