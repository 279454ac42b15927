-- ===== src/Processing/Waveform/Bars.antt =====
-- The second half of AnalyzeMP3 in internal/modules/catalog/application/waveform.go: the averages
-- of the chunks become the bars of the waveform. The float64 arithmetic is a parameter; an index
-- out of range is the error `panic`.
pub mod Arithmetic
pub mod Placing
pub mod Bounds
use Prim.Native.Nat.{◌/◌}
use blueprint_audio_backend.Common.{
  ℕ, zero, suc, Option, none, some, ◌+◌, ◌-◌, ◌*◌, Bool, true, false, List, [], ◌∷◌, map, ltb, leb,
  length, if◌then◌else◌, ◌||◌, ◌==◌,
}
use blueprint_audio_backend.Db.{Result, ok, err}
use blueprint_audio_backend.Db.Results.{◌>>=◌, ◌>>◌, refuse_if}
use blueprint_audio_backend.Processing.Waveform.{Chunk, State, WaveformError, decode_chunks}

-- float64 and the functions of package math that the code calls
pub record Floats : Type 1 where
  pub Float : Type 0
  pub of_nat : ℕ → Float
  pub add : Float → Float → Float
  pub mul : Float → Float → Float
  pub div : Float → Float → Float
  pub less : Float → Float → Bool
  pub max : Float → Float → Float
  pub round : Float → Float
  pub ceil : Float → Float
  -- the conversion to int64 of a value that is not negative
  pub truncate : Float → ℕ

pub record Mp3Analysis : Type 0 where
  pub waveform_peaks : List ℕ
  pub duration : ℕ

-- mp3.NewDecoder
abbrev pub opened : {A : Type 0} → Option A → Result WaveformError A
opened none = err WaveformError.decode
opened (some d) = ok d

-- the index, or the last one where it is past the end
abbrev pub last_if_over : ℕ → ℕ → ℕ
last_if_over k n = if leb n k then n - 1 else k

module _ (F : Floats) where
  -- sums[i] and counts[i]
  pub record Bar : Type 0 where
    pub sum : F.Float
    pub count : ℕ

  abbrev pub silent : Bar
  silent = record { sum = F.of_nat 0; count = 0 }

  -- make([]float64, barCount) and make([]int, barCount)
  unfoldable pub silence : ℕ → List Bar
  silence zero = []
  silence (suc n) = silent ∷ silence n

  -- sums[bar] += average; counts[bar]++
  unfoldable pub add_at : ℕ → F.Float → List Bar → Result WaveformError (List Bar)
  add_at k average [] = err WaveformError.panic
  add_at zero average (b ∷ bars) =
      ok (record { sum = F.add b.sum average; count = b.count + 1 } ∷ bars)
  add_at (suc k) average (b ∷ bars) = add_at k average bars >>= λ rest. ok (b ∷ rest)

  -- values[k]
  unfoldable pub value_at : ℕ → List F.Float → Result WaveformError F.Float
  value_at k [] = err WaveformError.panic
  value_at zero (x ∷ xs) = ok x
  value_at (suc k) (x ∷ xs) = value_at k xs

  -- the loop over the chunks' averages from the index i on
  unfoldable pub place_averages :
      ℕ → ℕ → ℕ → List F.Float → List Bar → Result WaveformError (List Bar)
  place_averages bar_count n i [] bars = ok bars
  place_averages bar_count n i (average ∷ averages) bars =
      add_at (last_if_over (i * bar_count / n) bar_count) average bars >>= λ bars'.
      place_averages bar_count n (i + 1) averages bars'

  -- averages[i]
  unfoldable pub bar_average : ℕ → ℕ → List F.Float → Bar → Result WaveformError F.Float
  bar_average bar_count i averages bar =
      if ltb 0 bar.count
      then ok (F.div bar.sum (F.of_nat bar.count))
      else value_at
          (last_if_over ((2 * i + 1) * length averages / (2 * bar_count)) (length averages))
          averages

  -- the loop over the bars from the index i on: their averages, and the peak
  unfoldable pub bar_averages :
      ℕ → ℕ → List F.Float → F.Float → List Bar → Result WaveformError (List F.Float × F.Float)
  bar_averages bar_count i averages peak [] = ok ([], peak)
  bar_averages bar_count i averages peak (bar ∷ bars) = do
    average ← bar_average bar_count i averages bar
    (rest, peak') ←
        bar_averages bar_count (i + 1) averages (if F.less peak average then average else peak) bars
    ok (average ∷ rest, peak')

  unfoldable pub waveform_peak : F.Float → F.Float → ℕ
  waveform_peak peak average =
      F.truncate (F.max (F.of_nat 8) (F.round (F.mul (F.div average peak) (F.of_nat 100))))

  unfoldable pub chunk_average : Chunk → F.Float
  chunk_average c = F.div (F.of_nat c.sum) (F.of_nat c.count)

  unfoldable pub duration_of : ℕ → ℕ → ℕ
  duration_of frames rate =
      let duration = F.truncate (F.ceil (F.div (F.of_nat frames) (F.of_nat rate))) in
      if ltb duration 1 then 1 else duration

  -- AnalyzeMP3; the decoder opens with a sample rate and the reads to come, or not at all
  unfoldable pub analyze_mp3 :
      Option (ℕ × List (List ℕ) × Bool) → ℕ → Result WaveformError Mp3Analysis
  analyze_mp3 decoder bar_count = do
    refuse_if (bar_count == 0 || ltb 512 bar_count) WaveformError.bar_count
    (rate, reads, failed) ← opened decoder
    s ← decode_chunks rate reads failed
    let averages = map chunk_average s.chunks
    bars ← place_averages bar_count (length averages) 0 averages (silence bar_count)
    (values, peak) ← bar_averages bar_count 0 averages (F.of_nat 1) bars
    ok (record {
      waveform_peaks = map (waveform_peak peak) values;
      duration = duration_of s.total_frames rate;
    })
