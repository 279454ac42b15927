-- ===== src/Processing/Media.antt =====
-- What SpecUploadProcessor.process reads and checks: normalizeCoverImage, readBounded, validateWAV
-- and validateStems of internal/modules/catalog/application/processor.go over the object store.
-- The object store and the packages mp3, image and imaging are parameters.
use blueprint_audio_backend.Common.{
  ℕ, suc, ◌+◌, ◌*◌, Bool, true, false, Option, none, some, List, ◌∷◌, ◌||◌, ◌&&◌, not, ltb, leb,
  ◌==◌, length, if◌then◌else◌, Text, text, text_eq,
}
use blueprint_audio_backend.Common.Strings.{Unicode}
use blueprint_audio_backend.Db.{Result, ok, err, M, pure, fail_if, ◌>>=◌, ◌>>◌}
use blueprint_audio_backend.Catalog.Domain.{UploadAssetKind}
use blueprint_audio_backend.Upload.Site.{ObjectInfo}
use blueprint_audio_backend.Processing.Archive.{StemsError, take, validate_stems}
use blueprint_audio_backend.Processing.Wav.{WavError, validate_wav}
use blueprint_audio_backend.Processing.Waveform.{WaveformError}
use blueprint_audio_backend.Processing.Waveform.Bars.{Floats, Mp3Analysis, analyze_mp3}

-- the error of a call of the object store: whether it is, or wraps, context.Canceled or
-- context.DeadlineExceeded
pub data Failure : Type 0 where
  cancelled other : Failure

pub data CoverError : Type 0 where
  format dimensions decode encode : CoverError

-- the errors of process, with the errors that they wrap
pub data ProcessError : Type 0 where
  duplicate changed size_mismatch : UploadAssetKind → ProcessError
  verify copy verify_copied : UploadAssetKind → Failure → ProcessError
  no_image no_preview no_wav no_stems cover_limit : ProcessError
  read_cover upload_cover open_preview close_preview wav_object stems_object url :
      Failure → ProcessError
  cover : CoverError → ProcessError
  waveform : WaveformError → Bool → ProcessError
  wav : WavError → Option Failure → ProcessError
  stems : StemsError → ProcessError

abbrev pub is_cancelled : Failure → Bool
is_cancelled Failure.cancelled = true
is_cancelled Failure.other = false

-- the errors of validateWAV that wrap one of the reader
abbrev pub wraps_read : WavError → Bool
wraps_read WavError.no_header = true
wraps_read WavError.no_chunk_header = true
wraps_read WavError.no_format = true
wraps_read WavError.no_extension = true
wraps_read WavError.no_data = true
wraps_read WavError.no_chunk = true
wraps_read WavError.no_padding = true
wraps_read _ = false

abbrev pub read_cancelled : Option Failure → Bool
read_cancelled none = false
read_cancelled (some f) = is_cancelled f

-- errors.Is(err, context.Canceled) || errors.Is(err, context.DeadlineExceeded)
unfoldable pub is_interruption : ProcessError → Bool
is_interruption (ProcessError.verify kind f) = is_cancelled f
is_interruption (ProcessError.copy kind f) = is_cancelled f
is_interruption (ProcessError.verify_copied kind f) = is_cancelled f
is_interruption (ProcessError.read_cover f) = is_cancelled f
is_interruption (ProcessError.upload_cover f) = is_cancelled f
is_interruption (ProcessError.open_preview f) = is_cancelled f
is_interruption (ProcessError.close_preview f) = is_cancelled f
is_interruption (ProcessError.wav_object f) = is_cancelled f
is_interruption (ProcessError.stems_object f) = is_cancelled f
is_interruption (ProcessError.url f) = is_cancelled f
is_interruption (ProcessError.waveform e interrupted) = interrupted
is_interruption (ProcessError.wav e f) = wraps_read e && read_cancelled f
is_interruption _ = false

-- an opened object: its bytes, the failure after them if they do not end in EOF, and that of Close
pub record Reader : Type 0 where
  pub bytes : List ℕ
  pub failure : Option Failure
  pub close_failure : Option Failure

-- The object store's answers are numbered by call. `mp3` is mp3.NewDecoder with what it reads;
-- `mp3_interrupted` says whether an error of the decoder wraps a cancellation.
pub record Ports : Type 1 where
  pub unicode : Unicode
  pub show_uuid : ℕ → Text
  pub floats : Floats
  pub stat_object : ℕ → Text → Result Failure ObjectInfo
  pub copy_object : ℕ → Text → Text → Text → Result Failure (Unit {0})
  pub open_object : ℕ → Text → Result Failure Reader
  pub upload_with_key : ℕ → List ℕ → Text → Text → Result Failure (Unit {0})
  pub object_url : Text → Result Failure Text
  pub mp3 : Reader → Option (ℕ × List (List ℕ) × Bool)
  pub mp3_interrupted : Reader → Bool
  pub Image : Type 0
  pub decode_config : List ℕ → Option (Text × ℕ × ℕ)
  pub decode : List ℕ → Option Image
  pub bounds : Image → ℕ × ℕ
  pub crop_center : Image → ℕ → ℕ → Image
  pub fit : Image → ℕ → ℕ → Image
  pub encode_jpeg : Image → ℕ → Option (List ℕ)

-- What an attempt has done: the keys that it may have written to, and cleanupKeys.
pub record Bench : Type 0 where
  pub written : List Text
  pub keys : List Text

abbrev pub Action : Type 0 → Type 0
Action A = M Bench ProcessError A

module _ {A : Type 0} where
  abbrev pub from : Result ProcessError A → Action A
  from r env w = (r, w)

  -- a call of the object store
  abbrev pub object_call : (ℕ → Result Failure A) → (Failure → ProcessError) → Action A
  object_call answer wrap env w =
      (elim (answer w.tick) [ ok a ↦ ok a | err f ↦ err (wrap f) ], record w { tick = suc w.tick })

  -- a call that writes the object at `key`, even where it fails
  abbrev pub write_call : Text → (ℕ → Result Failure A) → (Failure → ProcessError) → Action A
  write_call key answer wrap env w =
      object_call answer wrap env
        (record w { store = record w.store { written = key ∷ w.store.written } })

abbrev pub min : ℕ → ℕ → ℕ
min a b = if leb a b then a else b

-- io.ReadAll(io.LimitReader(reader, limit))
abbrev pub read_all : ℕ → Reader → Result Failure (List ℕ)
read_all limit r =
    if leb limit (length r.bytes)
    then ok (take limit r.bytes)
    else elim r.failure [ none ↦ ok r.bytes | some f ↦ err f ]

-- the dimensions that normalizeCoverImage refuses
abbrev pub is_oversized : ℕ → ℕ → Bool
is_oversized width height =
    (width == 0 || height == 0)
    || ((ltb 8000 width || ltb 8000 height) || ltb 40_000_000 (width * height))

module _ (p : Ports) where
  unfoldable pub normalize_cover_image : List ℕ → Result CoverError (List ℕ)
  normalize_cover_image image_bytes = elim (p.decode_config image_bytes) [
    | none ↦ err CoverError.format
    | some (kind, width, height) ↦
        if not (text_eq kind (text "jpeg")) && not (text_eq kind (text "png"))
        then err CoverError.format
        else if is_oversized width height
        then err CoverError.dimensions
        else elim (p.decode image_bytes) [
          | none ↦ err CoverError.decode
          | some image ↦
              let (dx, dy) = p.bounds image in
              let size = min dx dy in
              elim (p.encode_jpeg (p.fit (p.crop_center image size size) 500 500) 80) [
                | none ↦ err CoverError.encode
                | some output ↦ ok output
              ]
        ]
  ]

  -- process's call of normalizeCoverImage
  abbrev pub normalize_cover : List ℕ → Action (List ℕ)
  normalize_cover image_bytes = from (elim (normalize_cover_image image_bytes) [
    | ok b ↦ ok b
    | err e ↦ err (ProcessError.cover e)
  ])

  unfoldable pub read_bounded : Text → ℕ → Action (List ℕ)
  read_bounded key limit = do
    info ← object_call (λ n. p.stat_object n key) ProcessError.read_cover
    fail_if (info.size == 0 || ltb limit info.size) ProcessError.cover_limit
    reader ← object_call (λ n. p.open_object n key) ProcessError.read_cover
    content ← object_call (λ n. read_all (limit + 1) reader) ProcessError.read_cover
    fail_if (ltb limit (length content)) ProcessError.cover_limit
    pure content

  -- OpenObject, AnalyzeMP3 and Close on the preview
  unfoldable pub analyze_preview : Text → Action Mp3Analysis
  analyze_preview key = do
    reader ← object_call (λ n. p.open_object n key) ProcessError.open_preview
    analysis ← from (elim (analyze_mp3 p.floats (p.mp3 reader) 64) [
      | ok a ↦ ok a
      | err e ↦ err (ProcessError.waveform e (p.mp3_interrupted reader))
    ])
    from (elim reader.close_failure [ none ↦ ok tt | some f ↦ err (ProcessError.close_preview f) ])
    pure analysis

  unfoldable pub validate_wav_object : Text → Action (Unit {0})
  validate_wav_object key = do
    info ← object_call (λ n. p.stat_object n key) ProcessError.wav_object
    fail_if (ltb info.size 44) (ProcessError.wav WavError.too_small none)
    reader ← object_call (λ n. p.open_object n key) ProcessError.wav_object
    from (elim (validate_wav info.size reader.bytes) [
      | ok u ↦ ok u
      | err e ↦ err (ProcessError.wav e reader.failure)
    ])

  unfoldable pub validate_stems_object : Text → Action (Unit {0})
  validate_stems_object key = do
    info ← object_call (λ n. p.stat_object n key) ProcessError.stems_object
    fail_if (ltb info.size 1024) (ProcessError.stems StemsError.too_small)
    reader ← object_call (λ n. p.open_object n key) ProcessError.stems_object
    header ← object_call (λ n. read_all 30 reader) ProcessError.stems_object
    from (elim (validate_stems p.unicode info.size header key) [
      | ok u ↦ ok u
      | err e ↦ err (ProcessError.stems e)
    ])
