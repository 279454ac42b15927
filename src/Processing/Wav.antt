-- ===== src/Processing/Wav.antt =====
-- SpecUploadProcessor.validateWAV of internal/modules/catalog/application/processor.go, on an
-- object's size and bytes.
pub mod Chunks
pub mod Accepts
pub mod Sound
pub mod Files
use blueprint_audio_backend.Common.{
  ℕ, zero, suc, ◌+◌, ◌-◌, ◌*◌, ◌%◌, Bool, true, false, Option, none, some, List, [], ◌∷◌, ◌==◌,
  ◌||◌, ◌&&◌, not, ltb, if◌then◌else◌, text, text_eq,
}
use blueprint_audio_backend.Common.Strings.{Text}
use Prim.Native.Nat.{◌/◌}
use blueprint_audio_backend.Db.{Result, ok, err}
use blueprint_audio_backend.Processing.Bytes.{
  ◌>>=◌, ◌>>◌, refuse_if, take_exact, read_full, discard, byte, uint16, uint32,
}

pub data WavError : Type 0 where
  too_small no_header not_wav riff_size truncated_chunk_header no_chunk_header : WavError
  chunk_bounds second_format no_format encoding rate bit_depth alignment : WavError
  no_extension empty_data no_data no_chunk no_padding incomplete out_of_fuel : WavError

-- foundFormat and foundAudioData
abbrev pub Found : Type 0
Found = Bool × Bool

-- string(data[i:i+4])
abbrev pub tag_at : List ℕ → ℕ → List ℕ
tag_at xs i = byte xs i ∷ (byte xs (i + 1) ∷ (byte xs (i + 2) ∷ (byte xs (i + 3) ∷ [])))

abbrev pub is_bit_depth : ℕ → Bool
is_bit_depth bits = bits == 8 || (bits == 16 || (bits == 24 || bits == 32))

-- The checks of a format's 16 bytes. None of the products leaves its machine type: there are 8
-- channels and 32 bits at most, and the rate is below 384,001.
unfoldable pub check_format : List ℕ → Result WavError (Unit {0})
check_format format = do
  let audio_format = uint16 format 0
  let channels = uint16 format 2
  let sample_rate = uint32 format 4
  let byte_rate = uint32 format 8
  let block_align = uint16 format 12
  let bits = uint16 format 14
  refuse_if (not (audio_format == 1) && (not (audio_format == 3) && not (audio_format == 0xfffe)))
      encoding
  refuse_if
      (ltb channels 1 || (ltb 8 channels || (ltb sample_rate 8_000 || ltb 384_000 sample_rate)))
      rate
  refuse_if (not (is_bit_depth bits)) bit_depth
  refuse_if
      (not (block_align == channels * ((bits + 7) / 8))
        || not (byte_rate == sample_rate * block_align))
      alignment

abbrev pub format_tag : List ℕ
format_tag = text "fmt "

abbrev pub data_tag : List ℕ
data_tag = text "data"

-- case "fmt ": the bytes after the chunk's body
unfoldable pub read_format : ℕ → Bool → List ℕ → Result WavError (List ℕ)
read_format size format content = do
  refuse_if (format || ltb size 16) second_format
  (fields, rest) ← read_full 16 no_format content
  check_format fields
  discard (size - 16) no_extension rest

-- case "data"
unfoldable pub read_data : ℕ → List ℕ → Result WavError (List ℕ)
read_data size content = do refuse_if (size == 0) empty_data; discard size no_data content

-- the switch on a chunk's tag: what was found, and the bytes after the chunk's body
unfoldable pub read_body : List ℕ → ℕ → Found → List ℕ → Result WavError (Found × List ℕ)
read_body kind size (format, audio) content =
    if text_eq kind format_tag
    then (read_format size format content >>= λ after. ok ((true, audio), after))
    else if text_eq kind data_tag
    then (read_data size content >>= λ after. ok ((format, true), after))
    else (discard size no_chunk content >>= λ after. ok ((format, audio), after))

-- one round of the loop: what was found, the bytes left and the count that is left
unfoldable pub read_chunk : ℕ → Found → List ℕ → Result WavError (Found × List ℕ × ℕ)
read_chunk remaining found content = do
  refuse_if (ltb remaining 8) truncated_chunk_header
  (header, rest) ← read_full 8 no_chunk_header content
  let size = uint32 header 4
  let padded = size + size % 2
  refuse_if (ltb (remaining - 8) padded) chunk_bounds
  (found', after) ← read_body (tag_at header 0) size found rest
  left ← discard (size % 2) no_padding after
  ok (found', left, remaining - 8 - padded)

-- `for remaining > 0`, in at most `fuel` rounds
unfoldable pub read_chunks : ℕ → ℕ → Found → List ℕ → Result WavError Found
read_chunks fuel zero found content = ok found
read_chunks zero (suc r) found content = err out_of_fuel
read_chunks (suc fuel) (suc r) found content =
    read_chunk (suc r) found content >>= λ (found', rest, left). read_chunks fuel left found' rest

unfoldable pub validate_wav : ℕ → List ℕ → Result WavError (Unit {0})
validate_wav size content = do
  refuse_if (ltb size 44) too_small
  (header, rest) ← read_full 12 no_header content
  refuse_if
      (not (text_eq (tag_at header 0) (text "RIFF"))
        || not (text_eq (tag_at header 8) (text "WAVE")))
      not_wav
  let riff = uint32 header 4
  refuse_if (ltb riff 4 || not (riff + 8 == size)) riff_size
  (format, audio) ← read_chunks (riff - 4) (riff - 4) (false, false) rest
  refuse_if (not format || not audio) incomplete
