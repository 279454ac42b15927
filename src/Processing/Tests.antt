-- ===== src/Processing/Tests.antt =====
-- A WAV file of one sample, and the processing results at it.
use blueprint_audio_backend.Common.{
  ◌+◌, ◌<◌, true, false, List, [], ◌∷◌, ◌≡◌, ◌≢◌, ◌↔◌, refl, arith, length, Text, text, All,
}
use blueprint_audio_backend.Common.Strings.{Unicode, text_eq, to_lower, trim_space}
use blueprint_audio_backend.Upload.Paths.{ext}
use blueprint_audio_backend.Processing.Worker.{
  worker_id, normalize_worker_prefix, trim_dashes, worker_chars,
}
use blueprint_audio_backend.Processing.Archive.{
  LocalHeader, encode_header, is_archive, validate_stems, validate_stems-zip,
}
use blueprint_audio_backend.Db.{ok, err}
use blueprint_audio_backend.Processing.Bytes.{take_exact, is_ok}
use blueprint_audio_backend.Processing.Wav.{
  check_format, read_format, read_data, read_body, read_chunk, read_chunks, WavError, validate_wav,
}
use blueprint_audio_backend.Processing.Wav.Chunks.{
  Chunk, IsChunk, total_size, wav_file, is_playable,
}
use blueprint_audio_backend.Processing.Wav.Accepts.{validate_wav-file}
use blueprint_audio_backend.Processing.Wav.Files.{validate_wav_iff, validate_wav_total}

-- 16-bit PCM, mono, 44,100 samples a second
abbrev format_chunk : Chunk
format_chunk = record {
  first = b'f';
  second = b'm';
  third = b't';
  fourth = b' ';
  body = 1 ∷ 0 ∷ 1 ∷ 0 ∷ 68 ∷ 172 ∷ 0 ∷ 0 ∷ 136 ∷ 88 ∷ 1 ∷ 0 ∷ 2 ∷ 0 ∷ 16 ∷ 0 ∷ [];
  padding = [];
}

-- an odd number of bytes, padded
abbrev note_chunk : Chunk
note_chunk = record {
  first = b'n';
  second = b'o';
  third = b't';
  fourth = b'e';
  body = 7 ∷ [];
  padding = 0 ∷ [];
}

abbrev data_chunk : Chunk
data_chunk = record {
  first = b'd';
  second = b'a';
  third = b't';
  fourth = b'a';
  body = 1 ∷ 2 ∷ [];
  padding = [];
}

abbrev tone : List Chunk
tone = format_chunk ∷ note_chunk ∷ data_chunk ∷ []

tone-IsChunk : All IsChunk tone
tone-IsChunk = (
  record { fits = omega arith; padded = refl },
  (
    record { fits = omega arith; padded = refl },
    (record { fits = omega arith; padded = refl }, tt),
  ),
)

validate_wav-file_example :
    is_ok (validate_wav (12 + total_size tone) (wav_file tone)) ≡ is_playable tone
validate_wav-file_example = validate_wav-file tone tone-IsChunk (omega arith)

tone_passes : validate_wav 56 (wav_file tone) ≡ ok tt
unfolding validate_wav read_chunks read_chunk read_body read_format read_data check_format
    take_exact text_eq
tone_passes = refl

tone_cut_short : is_ok (validate_wav 55 (wav_file tone)) ≡ false
unfolding validate_wav take_exact text_eq
tone_cut_short = refl

validate_wav_iff_example : (validate_wav (length (wav_file tone)) (wav_file tone) ≡ ok tt) ↔ (
    (chunks : List Chunk) × All IsChunk chunks
    × (4 + total_size chunks < 4294967296)
    × (wav_file tone ≡ wav_file chunks)
    × (is_playable chunks ≡ true))
validate_wav_iff_example = validate_wav_iff (wav_file tone) (ground arith)

validate_wav_total_example : validate_wav 56 (wav_file tone) ≢ err WavError.out_of_fuel
validate_wav_total_example = validate_wav_total 56 (wav_file tone)

abbrev ascii : Unicode
ascii = record { lower = λ c. c; upper = λ c. c; space = λ c. false }

abbrev uuid : Text
uuid = text "0190a1b2-0000-7000-8000-000000000001"

blank_worker :
    worker_id ascii [] (text "--host/1--") uuid ≡ text "host-1-0190a1b2-0000-7000-8000-000000000001"
unfolding worker_id normalize_worker_prefix trim_dashes worker_chars trim_space
blank_worker = refl

abbrev deflated : LocalHeader
deflated = record {
  flags = 2;
  method = 8;
  name_length = 9;
  extra_length = 300;
  version = (20, 0);
  times = (0, 0, 0, 0);
  checksum = (1, 2, 3, 4);
  packed = (9, 0, 0, 0);
  unpacked = (12, 0, 0, 0);
}

zip_key : text_eq (to_lower ascii (ext (text "audio/stems/1.zip"))) (text ".zip") ≡ true
unfolding text_eq to_lower
zip_key = refl

validate_stems-zip_example :
    is_ok (validate_stems ascii 2000 (encode_header deflated (1 ∷ [])) (text "audio/stems/1.zip"))
    ≡ is_archive 2000 deflated
validate_stems-zip_example =
    validate_stems-zip ascii 2000 deflated (1 ∷ []) (text "audio/stems/1.zip")
      (record {
        flags_fit = omega arith;
        method_fits = omega arith;
        name_fits = omega arith;
        extra_fits = omega arith;
      })
      zip_key
