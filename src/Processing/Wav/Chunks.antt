-- ===== src/Processing/Wav/Chunks.antt =====
-- What a WAV file is: a header and a list of chunks.
use Prim.Native.Nat.{◌%◌}
use blueprint_audio_backend.Common.{
  ℕ, ◌+◌, ◌<◌, Bool, true, false, Option, none, some, List, [], ◌∷◌, ◌++◌, ◌==◌, ◌≡◌, not, ◌&&◌,
  length, if◌then◌else◌, text, text_eq,
}
use blueprint_audio_backend.Processing.Bytes.{take_exact, le32, is_ok}
use blueprint_audio_backend.Processing.Wav.{Found, check_format, format_tag, data_tag}

-- a chunk's four letters, its bytes, and the byte that pads an odd number of them
pub record Chunk : Type 0 where
  pub first : ℕ
  pub second : ℕ
  pub third : ℕ
  pub fourth : ℕ
  pub body : List ℕ
  pub padding : List ℕ

pub record IsChunk (c : Chunk) : Type 0 where
  pub fits : length c.body < 4294967296
  pub padded : length c.padding ≡ length c.body % 2

abbrev pub kind : Chunk → List ℕ
kind c = c.first ∷ (c.second ∷ (c.third ∷ (c.fourth ∷ [])))

abbrev pub encode_chunk : Chunk → List ℕ
encode_chunk c = kind c ++ (le32 (length c.body) ++ (c.body ++ c.padding))

abbrev pub encode : List Chunk → List ℕ
encode [] = []
encode (c ∷ chunks) = encode_chunk c ++ encode chunks

-- the bytes that a chunk takes in the file
abbrev pub chunk_size : Chunk → ℕ
chunk_size c = 8 + (length c.body + length c.body % 2)

abbrev pub total_size : List Chunk → ℕ
total_size [] = 0
total_size (c ∷ chunks) = chunk_size c + total_size chunks

-- "RIFF", the size of what follows, "WAVE" and the chunks
abbrev pub wav_file : List Chunk → List ℕ
wav_file chunks = text "RIFF" ++ (le32 (4 + total_size chunks) ++ (text "WAVE" ++ encode chunks))

-- the first 16 bytes of a format are supported
abbrev pub is_format : List ℕ → Bool
is_format body = elim (take_exact 16 body) [
  | none ↦ false
  | some (fields, _) ↦ is_ok (check_format fields)
]

-- what has been found after a chunk, where it may follow what was found before
abbrev pub after_chunk : Found → Chunk → Option Found
after_chunk (format, audio) c =
    if text_eq (kind c) format_tag
    then (if not format && is_format c.body then some (true, audio) else none)
    else if text_eq (kind c) data_tag
    then (if length c.body == 0 then none else some (format, true))
    else some (format, audio)

-- what has been found after the chunks
abbrev pub final : Found → List Chunk → Option Found
final found [] = some found
final found (c ∷ chunks) = elim (after_chunk found c) [
  | none ↦ none
  | some found' ↦ final found' chunks
]

abbrev pub found_both : Option Found → Bool
found_both none = false
found_both (some (format, audio)) = format && audio

-- the chunks hold one supported format and some audio, and no second format or empty audio
abbrev pub is_playable : List Chunk → Bool
is_playable chunks = found_both (final (false, false) chunks)
