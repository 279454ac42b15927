-- ===== src/Processing/Waveform.antt =====
-- The decoding loop of AnalyzeMP3 in internal/modules/catalog/application/waveform.go: amplitudes
-- of stereo frames are summed in chunks of time. The MP3 decoder is the list of what its Read
-- calls return, and how they end; whether the end comes with the last bytes or after them makes
-- no difference to the loop.
pub mod Pieces
pub mod Totals
pub mod Sums
pub mod Bars
pub mod Tests
use Prim.Native.Nat.{◌/◌, ◌%◌, ◌^◌}
use blueprint_audio_backend.Common.{
  ℕ, zero, suc, ◌+◌, ◌-◌, ◌*◌, Bool, true, false, List, [], ◌∷◌, ◌++◌, ◌==◌, ◌||◌, ltb, leb, length,
  if◌then◌else◌,
}
use blueprint_audio_backend.Db.{Result, ok, err}
use blueprint_audio_backend.Db.Results.{◌>>=◌, ◌>>◌, refuse_if}

pub data WaveformError : Type 0 where
  bar_count sample_rate too_long decode read no_samples panic : WaveformError

pub record Chunk : Type 0 where
  pub sum : ℕ
  pub count : ℕ

abbrev pub u64 : ℕ
u64 = 2 ^ 64

abbrev pub max_preview_duration_seconds : ℕ
max_preview_duration_seconds = 1800

abbrev pub max_waveform_chunks : ℕ
max_waveform_chunks = 16384

abbrev pub no_frames : Chunk
no_frames = record { sum = 0; count = 0 }

-- the loop's variables
pub record State : Type 0 where
  pub chunks : List Chunk
  pub chunk : Chunk
  pub chunk_frames : ℕ
  pub total_frames : ℕ

-- |x| for the int16 whose bits are `w`
abbrev pub magnitude : ℕ → ℕ
magnitude w = if ltb w 32768 then w else 65536 - w

-- a frame's four bytes: the average of both channels' amplitudes
unfoldable pub level : ℕ → ℕ → ℕ → ℕ → ℕ
level a b c d = (magnitude (a + 256 * b) + magnitude (c + 256 * d)) / 2

abbrev pub merge : Chunk → Chunk → Chunk
merge a b = record { sum = (a.sum + b.sum) % u64; count = (a.count + b.count) % u64 }

-- Every second chunk is added to the one before it. The slice is written in place, at or below the
-- index that is read.
unfoldable pub merge_pairs : List Chunk → List Chunk
merge_pairs [] = []
merge_pairs (a ∷ []) = a ∷ []
merge_pairs (a ∷ (b ∷ rest)) = merge a b ∷ merge_pairs rest

unfoldable pub flush_chunk : State → State
flush_chunk s =
    let chunks = s.chunks ++ s.chunk ∷ [] in
    if s.chunk.count == 0
    then s
    else if ltb (length chunks) max_waveform_chunks
    then record s { chunks = chunks; chunk = no_frames }
    else record s {
      chunks = merge_pairs chunks;
      chunk = no_frames;
      chunk_frames = s.chunk_frames * 2;
    }

unfoldable pub validate_decoded_mp3_frame_count : ℕ → ℕ → Result WaveformError (Unit {0})
validate_decoded_mp3_frame_count frame_count rate = do
  refuse_if (rate == 0) WaveformError.sample_rate
  refuse_if (ltb (rate * max_preview_duration_seconds) frame_count) WaveformError.too_long

-- the state after a frame's amplitude is added
abbrev pub counted : ℕ → State → State
counted amplitude s = record s {
  chunk = record { sum = (s.chunk.sum + amplitude) % u64; count = (s.chunk.count + 1) % u64 };
  total_frames = s.total_frames + 1;
}

-- one round of the loop over a buffer's frames
unfoldable pub add_frame : ℕ → ℕ → State → Result WaveformError State
add_frame rate amplitude s = do
  validate_decoded_mp3_frame_count (s.total_frames + 1) rate
  ok (
      if leb s.chunk_frames (counted amplitude s).chunk.count
      then flush_chunk (counted amplitude s)
      else counted amplitude s)

-- the loop over the complete frames of a buffer, and the bytes that it leaves
unfoldable pub add_frames : ℕ → List ℕ → State → Result WaveformError (State × List ℕ)
add_frames rate (a ∷ (b ∷ (c ∷ (d ∷ rest)))) s =
    add_frame rate (level a b c d) s >>= λ s'. add_frames rate rest s'
add_frames rate pending s = ok (s, pending)

-- the loop over the decoder's reads, with the bytes of an incomplete frame
unfoldable pub add_reads :
    ℕ → List (List ℕ) → List ℕ → State → Result WaveformError (State × List ℕ)
add_reads rate [] pending s = ok (s, pending)
add_reads rate (bytes ∷ reads) pending s =
    add_frames rate (pending ++ bytes) s >>= λ (s', pending'). add_reads rate reads pending' s'

abbrev pub start : ℕ → State
start rate = record {
  chunks = [];
  chunk = no_frames;
  chunk_frames = if ltb (rate / 20) 1 then 1 else rate / 20;
  total_frames = 0;
}

-- AnalyzeMP3 until its chunks are complete: `failed` where the reads end with another error than EOF
unfoldable pub decode_chunks : ℕ → List (List ℕ) → Bool → Result WaveformError State
decode_chunks rate reads failed = do
  refuse_if (rate == 0) WaveformError.sample_rate
  (s, pending) ← add_reads rate reads [] (start rate)
  refuse_if failed WaveformError.read
  let done = flush_chunk s
  refuse_if (done.total_frames == 0 || length done.chunks == 0) WaveformError.no_samples
  ok done
