-- ===== src/Processing/Waveform/Tests.antt =====
-- Previews of a few frames, and the waveform's results at them. The arithmetic is that of integers
-- rounded down, which satisfies what the code relies on.
use Prim.Native.Nat.{◌/◌}
use native.Mathlib.Nat.{div-le_of_le-mul, mul-le-mul_right}
use blueprint_audio_backend.Common.{
  ℕ, ◌+◌, ◌*◌, ◌<◌, ◌≤◌, true, false, some, List, [], ◌∷◌, ◌≡◌, arith, refl, length, ltb, All,
  if◌then◌else◌,
}
use blueprint_audio_backend.Db.{ok, err}
use blueprint_audio_backend.Processing.Waveform.{
  State, WaveformError, level, flush_chunk, validate_decoded_mp3_frame_count, add_frame, add_frames,
  add_reads, decode_chunks,
}
use blueprint_audio_backend.Processing.Waveform.Pieces.{concat, decode_chunks-concat}
use blueprint_audio_backend.Processing.Waveform.Sums.{decode_chunks-sums}
use blueprint_audio_backend.Processing.Waveform.Totals.{
  total_sum, total_count, levels, total, IsFull,
}
use blueprint_audio_backend.Processing.Waveform.Bars.{
  Floats, Mp3Analysis, silence, add_at, value_at, place_averages, bar_average, bar_averages,
  waveform_peak, chunk_average, duration_of, analyze_mp3,
}
use blueprint_audio_backend.Processing.Waveform.Bars.Arithmetic.{IsFloats}
use blueprint_audio_backend.Processing.Waveform.Bars.Bounds.{IsPeak, analyze_mp3-bounds}

abbrev pub rounded_down : Floats
rounded_down = record {
  Float = ℕ;
  of_nat = λ n. n;
  add = λ x y. x + y;
  mul = λ x y. x * y;
  div = λ x y. x / y;
  less = λ x y. ltb x y;
  max = λ x y. if ltb x y then y else x;
  round = λ x. x;
  ceil = λ x. x;
  truncate = λ x. x;
}

rounded_down-IsFloats : IsFloats rounded_down
rounded_down-IsFloats = record {
  Within = λ n x. x ≤ n;
  of_nat_within = λ m n h few. h;
  add_within = λ m n x y few h_x h_y. omega arith;
  div_within = λ n c x some few h. div-le_of_le-mul c (ground arith);
  ratio_within = λ n x y few h_x h_y over one. div-le_of_le-mul y (ground arith);
  mul_within = λ m n x few h. mul-le-mul_right n h;
  round_within = λ n x few h. h;
  ceil_within = λ n x few h. h;
  max_within = λ m n x least few h. ground arith;
  max_least = λ m n x least few h. ground arith;
  truncate_le = λ n x few h. h;
  less_self = λ x. ground arith;
  less_asym = λ x y h. ground arith;
  not_less_trans = λ n x y z h_x h_y h_z over_y over_z. ground arith;
}

-- a frame of loudness 256, a silent frame and one of the least negative amplitude, and two bytes
-- more; the second read begins inside a frame
abbrev pub preview : List (List ℕ)
preview = (0 ∷ 1 ∷ 0 ∷ 1 ∷ 0 ∷ 0 ∷ []) ∷ (0 ∷ 0 ∷ 0 ∷ 128 ∷ 0 ∷ 128 ∷ 7 ∷ 7 ∷ []) ∷ []

abbrev decoded : State
decoded = record {
  chunks =
      record { sum = 256; count = 1 }
      ∷ record { sum = 0; count = 1 }
      ∷ record { sum = 32768; count = 1 }
      ∷ [];
  chunk = record { sum = 0; count = 0 };
  chunk_frames = 1;
  total_frames = 3;
}

decodes : decode_chunks 30 preview false ≡ ok decoded
unfolding decode_chunks add_reads add_frames add_frame validate_decoded_mp3_frame_count flush_chunk
    level
decodes = refl

decode_chunks_failed : decode_chunks 30 preview true ≡ err WaveformError.read
unfolding decode_chunks add_reads add_frames add_frame validate_decoded_mp3_frame_count flush_chunk
    level
decode_chunks_failed = refl

analyzes :
    analyze_mp3 rounded_down (some (30, preview, false)) 5
    ≡ ok (record { waveform_peaks = 8 ∷ 8 ∷ 8 ∷ 100 ∷ 100 ∷ []; duration = 1 })
unfolding analyze_mp3 decode_chunks add_reads add_frames add_frame validate_decoded_mp3_frame_count
    flush_chunk level silence add_at value_at place_averages bar_average bar_averages waveform_peak
    chunk_average duration_of
analyzes = refl

decode_chunks-concat_example :
    decode_chunks 30 preview false
    ≡ decode_chunks 30 ((0 ∷ 1 ∷ 0 ∷ 1 ∷ 0 ∷ 0 ∷ 0 ∷ 0 ∷ 0 ∷ 128 ∷ 0 ∷ 128 ∷ 7 ∷ 7 ∷ []) ∷ []) false
decode_chunks-concat_example = decode_chunks-concat 30 preview false

decode_chunks-sums_example :
    (total_sum decoded.chunks ≡ total (levels (concat preview)))
    × (total_count decoded.chunks ≡ length (levels (concat preview)))
    × (total_count decoded.chunks ≡ 3)
    × (0 < 3)
    × (3 ≤ 30 * 1800)
    × (0 < 3)
    × (3 < 16384)
    × All IsFull decoded.chunks
decode_chunks-sums_example = decode_chunks-sums 30 preview false decoded (omega arith) decodes

analyze_mp3-bounds_example :
    (a : Mp3Analysis) × (analyze_mp3 rounded_down (some (30, preview, false)) 5 ≡ ok a)
    × (length a.waveform_peaks ≡ 5)
    × ((1 ≤ a.duration) × (a.duration ≤ 1800))
    × All IsPeak a.waveform_peaks
analyze_mp3-bounds_example =
    analyze_mp3-bounds rounded_down rounded_down-IsFloats 30 5 preview false decoded (omega arith)
      (omega arith) (omega arith) decodes
