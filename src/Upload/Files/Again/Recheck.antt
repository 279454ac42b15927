-- ===== src/Upload/Files/Again/Recheck.antt =====
-- validateUploadFile accepts what it has returned.
use blueprint_audio_backend.Common.{
  true, false, some, List, [], ◌∷◌, ◌==◌, ◌≡◌, ◌∙◌, ap, refl, arith, Text, text, text_eq, is_empty,
  All, Bool-cases, Option-cases, inl, inr, ◌||◌, not, ltb, length,
}
use blueprint_audio_backend.Common.Strings.{
  Unicode, trim_space, to_lower, text_eq_iff, byte_length, valid_string,
}
use blueprint_audio_backend.Db.{ok}
use blueprint_audio_backend.Catalog.Domain.{UploadAssetKind, image, preview, wav, stems}
use blueprint_audio_backend.Upload.Paths.{base, ext}
use blueprint_audio_backend.Upload.Files.{
  UploadFileCommand, upload_size_limit, one_of, is_file_type, normalize_content_type,
  upload_extension, validate_upload_file,
}
use blueprint_audio_backend.Upload.Files.Again.{trim_space_again, base_again}

abbrev content_types : List Text
content_types =
    text "image/jpeg"
    ∷ text "image/png"
    ∷ text "audio/mpeg"
    ∷ text "audio/mp3"
    ∷ text "audio/wav"
    ∷ text "audio/x-wav"
    ∷ text "audio/wave"
    ∷ text "application/zip"
    ∷ text "application/x-zip-compressed"
    ∷ text "application/vnd.rar"
    ∷ text "application/x-rar-compressed"
    ∷ []

is_file_type-content_types :
    (k : UploadAssetKind) (e t : Text) → is_file_type k e t ≡ true → one_of t content_types ≡ true
is_file_type-content_types image e t h = ground arith
is_file_type-content_types preview e t h = ground arith
is_file_type-content_types wav e t h = ground arith
is_file_type-content_types stems e t h = ground arith

module _ (u : Unicode) where
  abbrev IsNormal : Text → Type 0
  IsNormal t = normalize_content_type u t ≡ t

  content_types-IsNormal : All IsNormal content_types
  unfolding normalize_content_type to_lower trim_space
  content_types-IsNormal =
      (refl, (refl, (refl, (refl, (refl, (refl, (refl, (refl, (refl, (refl, (refl, tt)))))))))))

  one_of-IsNormal : (ts : List Text) (t : Text) → All IsNormal ts → one_of t ts ≡ true → IsNormal t
  one_of-IsNormal [] t v h = absurd (ground arith)
  one_of-IsNormal (s ∷ ts) t v h = elim (Bool-cases (text_eq t s)) [
    | inl same ↦ rw ((text_eq_iff t s).0 same) v.0
    | inr other ↦ one_of-IsNormal ts t v.1 (ground arith)
  ]

  abbrev trimmed : UploadFileCommand → Text
  trimmed f = trim_space u (base f.file_name)

  -- the file that validateUploadFile returns
  abbrev normalized : UploadFileCommand → UploadFileCommand
  normalized f = record f {
    file_name = trimmed f;
    content_type = normalize_content_type u f.content_type;
  }

  -- the checks of validateUploadFile
  record Passes (f : UploadFileCommand) (k : UploadAssetKind) (name content_type : Text)
      : Type 0 where
    known : f.kind ≡ some k
    named : (is_empty name || text_eq name (text ".")) ≡ false
    short :
        (not (valid_string name) || (ltb 255 (byte_length name) || ltb 255 (length name))) ≡ false
    fits : (f.size_bytes == 0 || ltb (upload_size_limit k) f.size_bytes) ≡ false
    typed : is_file_type k (to_lower u (ext name)) (normalize_content_type u content_type) ≡ true

  validate_upload_file-Passes :
      (f : UploadFileCommand) {g : UploadFileCommand}
      → validate_upload_file u f ≡ ok g
      → (g ≡ normalized f)
        × ((k : UploadAssetKind) × Passes f k (trimmed f) (normalize_content_type u f.content_type))
  unfolding validate_upload_file upload_extension
  validate_upload_file-Passes f {g} h = elim (Option-cases f.kind) [
    | inl unknown ↦ absurd (ground (arith, h, unknown))
    | inr (k, known) ↦ (
      ground (arith, h, known),
      (
        k,
        record {
          known = known;
          named = ground (arith, h, known);
          short = ground (arith, h, known);
          fits = ground (arith, h, known);
          typed = ground (arith, h, known);
        },
      ),
    )
  ]

  validate_upload_file-normalized :
      (f : UploadFileCommand) (k : UploadAssetKind)
      → Passes f k (trimmed f) (normalize_content_type u f.content_type)
      → validate_upload_file u f ≡ ok (normalized f)
  unfolding validate_upload_file upload_extension
  validate_upload_file-normalized f k p = rw (p.known, p.named, p.short, p.fits, p.typed) refl

  Passes-normalized :
      (f : UploadFileCommand) (k : UploadAssetKind)
      → Passes f k (trimmed f) (normalize_content_type u f.content_type)
      → (trimmed (normalized f) ≡ trimmed f)
        × Passes
            (normalized f)
            k
            (trimmed (normalized f))
            (normalize_content_type u (normalize_content_type u f.content_type))
  Passes-normalized f k p =
      let full : is_empty (trimmed f) ≡ false = ground (arith, p.named) in
      let stays : trimmed (normalized f) ≡ trimmed f =
        ap (trim_space u) (base_again u f.file_name full) ∙ trim_space_again u (base f.file_name) in
      let normal : IsNormal (normalize_content_type u (normalize_content_type u f.content_type)) =
        one_of-IsNormal content_types _ content_types-IsNormal
          (is_file_type-content_types k _ _ p.typed) in
      (
        stays,
        record {
          known = p.known;
          named = rw stays p.named;
          short = rw stays p.short;
          fits = p.fits;
          typed = rw (stays, normal) p.typed;
        },
      )

  -- A file that validateUploadFile has returned passes it again, with its name as it is.
  pub validate_upload_file_again :
      (f : UploadFileCommand) {g : UploadFileCommand}
      → validate_upload_file u f ≡ ok g
      → validate_upload_file u g
        ≡ ok (record g { content_type = normalize_content_type u g.content_type })
  validate_upload_file_again f {g} h =
      let (e, (k, p)) = validate_upload_file-Passes f h in
      let (stays, p') = Passes-normalized f k p in
      rw e (validate_upload_file-normalized (normalized f) k p' ∙ rw stays refl)
