-- ===== src/Catalog/Tables.antt =====
-- The tables of db/migrations that the upload pipeline writes, and their unique constraints.
use blueprint_audio_backend.Common.Strings.{Text, text_eq}
use blueprint_audio_backend.Common.{
  ℕ, Bool, false, Option, some, List, [], ◌++◌, ◌==◌, ◌||◌, ◌&&◌, not, exists_where, select_where,
}
use blueprint_audio_backend.Catalog.Domain.{
  UploadAssetKind, LicenseOption, Genre, Spec, SpecUploadAsset, SpecUploadSession,
  SpecProcessingJob, kind_eq,
}

pub record Store : Type 0 where
  pub sessions : List SpecUploadSession
  pub assets : List SpecUploadAsset
  pub jobs : List SpecProcessingJob
  pub specs : List Spec
  pub analytics : List ℕ
  pub genres : List Genre
  pub spec_genres : List (ℕ × ℕ)
  pub licenses : List LicenseOption

abbrev pub empty : Store
empty = record {
  sessions = [];
  assets = [];
  jobs = [];
  specs = [];
  analytics = [];
  genres = [];
  spec_genres = [];
  licenses = [];
}

abbrev pub option_text_eq : Option Text → Option Text → Bool
option_text_eq (some a) (some b) = text_eq a b
option_text_eq _ _ = false

-- WHERE id = $1
abbrev pub session_is : ℕ → SpecUploadSession → Bool
session_is id s = s.id == id

abbrev pub job_is : ℕ → SpecProcessingJob → Bool
job_is id j = j.id == id

abbrev pub spec_is : ℕ → Spec → Bool
spec_is id s = s.id == id

-- PRIMARY KEY (id), UNIQUE (spec_id)
abbrev pub session_violates : SpecUploadSession → Store → Bool
session_violates row s = exists_where (λ r. r.id == row.id || r.spec_id == row.spec_id) s.sessions

-- PRIMARY KEY (id), the keys UNIQUE, UNIQUE (session_id, kind), CHECK (expected_size > 0),
-- and REFERENCES spec_upload_sessions
abbrev pub asset_violates : SpecUploadAsset → Store → Bool
asset_violates row s =
    exists_where
      (λ r.
        r.id == row.id
        || text_eq r.object_key row.object_key
        || text_eq r.final_object_key row.final_object_key
        || r.session_id == row.session_id && kind_eq r.kind row.kind)
      s.assets
    || row.expected_size == 0
    || not (exists_where (session_is row.session_id) s.sessions)

-- PRIMARY KEY (id), UNIQUE (spec_id), UNIQUE (session_id), and the two references
abbrev pub job_violates : SpecProcessingJob → Store → Bool
job_violates row s =
    exists_where (λ r. r.id == row.id || r.spec_id == row.spec_id || r.session_id == row.session_id)
      s.jobs
    || not (exists_where (spec_is row.spec_id) s.specs)
    || not (exists_where (session_is row.session_id) s.sessions)

-- PRIMARY KEY (id), slug and short_code UNIQUE where they are not null
abbrev pub spec_violates : Spec → Store → Bool
spec_violates row s =
    exists_where
      (λ r.
        r.id == row.id
        || option_text_eq r.slug row.slug
        || option_text_eq r.short_code row.short_code)
      s.specs

-- ORDER BY kind
abbrev pub order_by_kind : List SpecUploadAsset → List SpecUploadAsset
order_by_kind rows =
    of UploadAssetKind.image
    ++ (of UploadAssetKind.preview ++ (of UploadAssetKind.stems ++ of UploadAssetKind.wav))
  where
    of : UploadAssetKind → List SpecUploadAsset
    of kind = select_where (λ r. kind_eq r.kind kind) rows
