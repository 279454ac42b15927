-- ===== src/Upload/Files/Manifest.antt =====
-- What an upload that passes validateUploadManifest holds.
use Prim.Native.Nat.{◌*◌}
use blueprint_audio_backend.Common.{
  ℕ, ◌+◌, ◌≤◌, ◌<◌, Bool, true, false, Option, none, some, List, [], ◌∷◌, ◌≡◌, refl, arith, length,
  ◌&&◌, if◌then◌else◌, exists_where, count_where, is_empty, All, Option-cases, inl, inr,
}
use blueprint_audio_backend.Common.Strings.{Unicode, to_lower, byte_length}
use blueprint_audio_backend.Db.{ok}
use blueprint_audio_backend.Db.Results.{Result-cases}
use blueprint_audio_backend.Catalog.Domain.{UploadAssetKind, image, preview, wav, stems, Category}
use blueprint_audio_backend.Upload.Paths.{ext}
use blueprint_audio_backend.Upload.Files.{
  UploadFileCommand, upload_size_limit, is_file_type, normalize_content_type, upload_extension,
  same_kind, validate_upload_file, check_files, sees, validate_upload_manifest, is_beat,
}

-- the files of this kind
abbrev pub count_of : UploadAssetKind → List UploadFileCommand → ℕ
count_of k = count_where (λ f. same_kind (some k) f.kind)

abbrev pub total_size : List UploadFileCommand → ℕ
total_size [] = 0
total_size (f ∷ files) = f.size_bytes + total_size files

pub same_kind_sound :
    (k : UploadAssetKind) (o : Option UploadAssetKind) → same_kind (some k) o ≡ true → o ≡ some k
same_kind_sound k none h = absurd (ground arith)
same_kind_sound image (some image) h = refl
same_kind_sound preview (some preview) h = refl
same_kind_sound wav (some wav) h = refl
same_kind_sound stems (some stems) h = refl
same_kind_sound _ (some _) h = absurd (ground arith)

-- a test that holds of each constant holds of every kind
pub all_four :
    (p : UploadAssetKind → Bool)
    → (p image && (p preview && (p wav && p stems))) ≡ true
    → (k : UploadAssetKind) → p k ≡ true
all_four p h image = ground arith
all_four p h preview = ground arith
all_four p h wav = ground arith
all_four p h stems = ground arith

module _ (u : Unicode) where
  -- what a file that passes is like
  pub record IsUploadable (f : UploadFileCommand) : Type 0 where
    pub of_kind : UploadAssetKind
    pub is_kind : f.kind ≡ some of_kind
    pub not_empty : 0 < f.size_bytes
    pub fits : f.size_bytes ≤ upload_size_limit of_kind
    pub named : is_empty f.file_name ≡ false
    pub short : byte_length f.file_name ≤ 255
    pub typed :
        is_file_type of_kind
          (to_lower u (ext f.file_name))
          (normalize_content_type u f.content_type)
        ≡ true

  pub validate_upload_file-IsUploadable :
      (f : UploadFileCommand) {g : UploadFileCommand}
      → validate_upload_file u f ≡ ok g
      → IsUploadable g × (g.kind ≡ f.kind)
  unfolding validate_upload_file upload_extension
  validate_upload_file-IsUploadable f {g} h = elim (Option-cases f.kind) [
    | inl unknown ↦ absurd (ground (arith, h, unknown))
    | inr (k, known) ↦ (
      record {
        of_kind = k;
        is_kind = ground (arith, h, known);
        not_empty = ground (arith, h, known);
        fits = ground (arith, h, known);
        named = ground (arith, h, known);
        short = ground (arith, h, known);
        typed = ground (arith, h, known);
      },
      ground (arith, h, known),
    )
  ]

  -- a kind's place among those that the loop has seen
  abbrev pub seen_count : List (Option UploadAssetKind) → UploadAssetKind → ℕ
  seen_count seen k = if sees seen k then 1 else 0

  -- what the loop has checked: the files it returns, the kinds that it has seen and their size
  record Checked (seen all_seen : List (Option UploadAssetKind)) (total sum : ℕ)
      (files out : List UploadFileCommand) : Type 0 where
    good : All IsUploadable out
    same : (k : UploadAssetKind) → count_of k out ≡ count_of k files
    once : (k : UploadAssetKind) → count_of k files + seen_count seen k ≤ 1
    seen_all : (k : UploadAssetKind) → seen_count all_seen k ≡ count_of k files + seen_count seen k
    summed : sum ≡ total + total_size out

  check_files-Checked :
      (seen : List (Option UploadAssetKind)) (total : ℕ) (files : List UploadFileCommand)
      {out : List UploadFileCommand} {all_seen : List (Option UploadAssetKind)} {sum : ℕ}
      → check_files u seen total files ≡ ok (out, all_seen, sum)
      → Checked seen all_seen total sum files out
  unfolding check_files
  check_files-Checked seen total [] {out} {all_seen} {sum} h = record {
    good = ground (arith, h);
    same = λ k. ground (arith, h);
    once = λ k. ground (arith, h);
    seen_all = λ k. ground (arith, h);
    summed = ground (arith, h);
  }
  check_files-Checked seen total (f ∷ files) {out} {all_seen} {sum} h =
      elim (Result-cases (validate_upload_file u f)) [
        | inl (e, fails) ↦ absurd (ground (arith, h, fails))
        | inr (g, valid) ↦
            elim (Result-cases (check_files u (f.kind ∷ seen) (total + g.size_bytes) files)) [
              | inl (e, fails) ↦ absurd (ground (arith, h, valid, fails))
              | inr ((rest, all_seen', sum'), checked) ↦
                  let c =
                    check_files-Checked (f.kind ∷ seen) (total + g.size_bytes) files checked in
                  let (good, kept) = validate_upload_file-IsUploadable f valid in
                  let whole : out ≡ g ∷ rest = ground (arith, h, valid, checked) in
                  let seen' : all_seen ≡ all_seen' = ground (arith, h, valid, checked) in
                  let fresh : exists_where (same_kind f.kind) seen ≡ false = ground (arith, h) in
                  let new_kind : (k : UploadAssetKind)
                      → same_kind (some k) f.kind ≡ true
                      → sees seen k ≡ false =
                    λ k same. rw (← same_kind_sound k f.kind same) fresh in
                  let sum_same : sum ≡ sum' = ground (arith, h, valid, checked) in
                  record {
                    good = rw whole (good, c.good);
                    same = λ k. rw whole (ground (arith, kept, c.same k));
                    once = λ k. ground (arith, new_kind k, c.once k);
                    seen_all = λ k. ground (arith, seen', c.seen_all k, new_kind k);
                    summed = rw whole (omega (arith, c.summed, sum_same));
                  }
            ]
      ]

  length-kinds :
      (files : List UploadFileCommand)
      → All IsUploadable files
      → length files
        ≡ count_of image files + count_of preview files + count_of wav files + count_of stems files
  length-kinds [] v = refl
  length-kinds (f ∷ files) v = ground (arith, v.0.is_kind, length-kinds files v.1)

  -- no file is larger than its kind's limit
  total_size-le :
      (files : List UploadFileCommand)
      → All IsUploadable files
      → total_size files
        ≤ count_of image files * 5242880
          + count_of preview files * 31457280
          + count_of wav files * 314572800
          + count_of stems files * 1073741824
  total_size-le [] v = omega arith
  total_size-le (f ∷ files) v = ground (arith, v.0.is_kind, v.0.fits, total_size-le files v.1)

  -- Where validateUploadManifest accepts the files of an upload, the upload is a beat's, and the
  -- files that it returns are one of each kind, each not empty, within its kind's limit, named in at
  -- most 255 bytes and of an accepted type; together they take at most 1,359 MiB.
  pub validate_upload_manifest_ok :
      (category : Category) (files : List UploadFileCommand) {out : List UploadFileCommand}
      → validate_upload_manifest u category files ≡ ok out
      → (is_beat category ≡ true)
        × All IsUploadable out
        × (length out ≡ 4)
        × ((k : UploadAssetKind) → count_of k out ≡ 1)
        × (total_size out ≤ 1425014784)
  unfolding validate_upload_manifest
  validate_upload_manifest_ok category files {out} h =
      elim (Result-cases (check_files u [] 0 files)) [
        | inl (e, fails) ↦ absurd (ground (arith, h, fails))
        | inr ((out', all_seen, sum), checked) ↦
            let c = check_files-Checked [] 0 files checked in
            let same : out ≡ out' = ground (arith, h, checked) in
            let all_kinds : (k : UploadAssetKind) → sees all_seen k ≡ true =
              λ k. all_four (sees all_seen) (ground (arith, h, checked)) k in
            let one_each : (k : UploadAssetKind) → count_of k out' ≡ 1 =
              λ k. ground (arith, c.same k, c.once k, c.seen_all k, all_kinds k) in
            rw same (
              ground (arith, h),
              c.good,
              omega (
                arith,
                length-kinds out' c.good,
                one_each image,
                one_each preview,
                one_each wav,
                one_each stems,
              ),
              one_each,
              omega (
                arith,
                total_size-le out' c.good,
                one_each image,
                one_each preview,
                one_each wav,
                one_each stems,
              ),
            )
      ]
