-- ===== src/Processing/Waveform/Bars/Bounds.antt =====
-- The bars of a decoded preview: AnalyzeMP3 does not panic, and what its result is within.
use Prim.Native.Nat.{◌/◌, ◌^◌}
use blueprint_audio_backend.Common.{
  ℕ, ◌+◌, ◌*◌, ◌<◌, ◌≤◌, Bool, false, some, List, [], ◌∷◌, ◌≡◌, arith, refl, length, ltb, All, map,
  Bool-cases, ◌==◌, ◌||◌, inl, inr, if◌then◌else◌,
}
use blueprint_audio_backend.Db.{ok}
use blueprint_audio_backend.Processing.Waveform.{Chunk, State, decode_chunks}
use blueprint_audio_backend.Processing.Waveform.Sums.{decode_chunks-sums}
use blueprint_audio_backend.Processing.Waveform.Totals.{IsFull, total_count}
use blueprint_audio_backend.Processing.Waveform.Bars.{
  Floats, Mp3Analysis, Bar, silence, last_if_over, bar_average, bar_averages, waveform_peak,
  chunk_average, duration_of, analyze_mp3,
}
use blueprint_audio_backend.Processing.Waveform.Bars.Arithmetic.{IsFloats}
use blueprint_audio_backend.Processing.Waveform.Bars.Placing.{
  last_if_over_lt, IsBar, silence-IsBar, value_at_total, place_averages-IsBar,
}

-- the height of a bar
abbrev pub IsPeak : ℕ → Type 0
IsPeak n = (8 ≤ n) × (n ≤ 100)

length-map : {A B : Type 0} (f : A → B) (xs : List A) → length (map f xs) ≡ length xs
length-map f [] = refl
length-map f (x ∷ xs) = omega (arith, length-map f xs)

module _ (F : Floats) (L : IsFloats F) where
  -- a value of a bar, next to the peak
  abbrev IsUnder : F.Float → F.Float → Type 0
  IsUnder peak x = L.Within 32768 x × (F.less peak x ≡ false)

  bar_average-Within :
      (bar_count i n : ℕ) (averages : List F.Float) (bar : Bar F)
      → n < 16384
      → 0 < length averages
      → All (L.Within 32768) averages
      → IsBar F L n bar
      → (x : F.Float) × (bar_average F bar_count i averages bar ≡ ok x) × L.Within 32768 x
  unfolding bar_average
  bar_average-Within bar_count i n averages bar few h all (sum, count) =
      elim (Bool-cases (ltb 0 bar.count)) [
        | inl counted ↦ (
          _,
          rw counted refl,
          L.div_within 32768 bar.count bar.sum (ground arith) (omega arith) sum,
        )
        | inr quiet ↦
            let k = (2 * i + 1) * length averages / (2 * bar_count) in
            let (x, found, h_x) =
              value_at_total F L (last_if_over k (length averages)) (L.Within 32768) averages
                (last_if_over_lt k (length averages) h) all in
            (x, rw quiet found, h_x)
      ]

  -- the peak after a bar
  abbrev higher : F.Float → F.Float → F.Float
  higher peak x = if F.less peak x then x else peak

  higher-over :
      (peak x : F.Float)
      → L.Within 32768 peak
      → L.Within 32768 x
      → L.Within 32768 (higher peak x)
        × (F.less (higher peak x) x ≡ false)
        × (F.less (higher peak x) peak ≡ false)
  higher-over peak x h_peak h_x = elim (Bool-cases (F.less peak x)) [
    | inl more ↦ rw more (h_x, L.less_self x, L.less_asym peak x more)
    | inr less ↦ rw less (h_peak, less, L.less_self peak)
  ]

  bar_averages-IsUnder :
      (bar_count i n : ℕ) (averages : List F.Float) (peak : F.Float) (bars : List (Bar F))
      → n < 16384
      → 0 < length averages
      → All (L.Within 32768) averages
      → L.Within 32768 peak
      → All (IsBar F L n) bars
      → (xs : List F.Float) × (top : F.Float) × (bar_averages F bar_count i averages peak bars
          ≡ ok (xs, top))
        × (length xs ≡ length bars)
        × L.Within 32768 top
        × (F.less top peak ≡ false)
        × All (IsUnder top) xs
  unfolding bar_averages
  bar_averages-IsUnder bar_count i n averages peak [] few h all h_peak bars =
      ([], peak, refl, refl, h_peak, L.less_self peak, tt)
  bar_averages-IsUnder bar_count i n averages peak (bar ∷ bars) few h all h_peak (h_bar, h_bars) =
      let (x, averaged, h_x) = bar_average-Within bar_count i n averages bar few h all h_bar in
      let (h_higher, over_x, over_peak) = higher-over peak x h_peak h_x in
      let (xs, top, rest, size, h_top, over, under) =
        bar_averages-IsUnder bar_count (i + 1) n averages (higher peak x) bars few h all h_higher
          h_bars in
      (
        x ∷ xs,
        top,
        rw averaged (rw rest refl),
        omega arith,
        h_top,
        L.not_less_trans 32768 top (higher peak x) peak h_top h_higher h_peak over over_peak,
        ((h_x, L.not_less_trans 32768 top (higher peak x) x h_top h_higher h_x over over_x), under),
      )

  chunk_averages-Within :
      (n : ℕ) (cs : List Chunk)
      → n < 2 ^ 32
      → total_count cs ≤ n
      → All IsFull cs
      → All (L.Within 32768) (map (chunk_average F) cs)
  unfolding chunk_average
  chunk_averages-Within n [] few h full = tt
  chunk_averages-Within n (c ∷ cs) few h (c_full, full) =
      let (nonzero, sum) = c_full in
      (
        L.div_within 32768 c.count (F.of_nat c.sum) nonzero (omega arith)
            (L.of_nat_within c.sum (32768 * c.count) sum (omega arith)),
        chunk_averages-Within n cs few (omega arith) full,
      )

  waveform_peak-IsPeak :
      (peak x : F.Float)
      → L.Within 32768 peak
      → F.less peak (F.of_nat 1) ≡ false
      → IsUnder peak x
      → IsPeak (waveform_peak F peak x)
  unfolding waveform_peak
  waveform_peak-IsPeak peak x h_peak one (h_x, under) =
      let ratio = L.ratio_within 32768 x peak (omega arith) h_x h_peak under one in
      let percent = L.mul_within 1 100 (F.div x peak) (omega arith) ratio in
      let rounded = L.round_within 100 _ (omega arith) percent in
      (
        L.max_least 8 100 _ (omega arith) (omega arith) rounded,
        L.truncate_le 100 _ (omega arith)
            (L.max_within 8 100 _ (omega arith) (omega arith) rounded),
      )

  waveform_peaks-IsPeak :
      (peak : F.Float) (xs : List F.Float)
      → L.Within 32768 peak
      → F.less peak (F.of_nat 1) ≡ false
      → All (IsUnder peak) xs
      → All IsPeak (map (waveform_peak F peak) xs)
        × (length (map (waveform_peak F peak) xs) ≡ length xs)
  waveform_peaks-IsPeak peak [] h_peak one all = (tt, refl)
  waveform_peaks-IsPeak peak (x ∷ xs) h_peak one (h_x, all) =
      let (rest, size) = waveform_peaks-IsPeak peak xs h_peak one all in
      ((waveform_peak-IsPeak peak x h_peak one h_x, rest), omega arith)

  duration_of-bounds :
      (frames rate : ℕ)
      → 0 < rate
      → rate ≤ 48000
      → frames ≤ rate * 1800
      → (1 ≤ duration_of F frames rate) × (duration_of F frames rate ≤ 1800)
  unfolding duration_of
  duration_of-bounds frames rate nonzero h_rate h =
      let seconds =
        L.div_within 1800 rate (F.of_nat frames) nonzero (omega arith)
          (L.of_nat_within frames (1800 * rate) (omega arith) (omega arith)) in
      let bound = L.truncate_le 1800 _ (omega arith) (L.ceil_within 1800 _ (omega arith) seconds) in
      (ground arith, ground arith)

  -- AnalyzeMP3 with a valid number of bars does not fail once a preview of at most 48 kHz is
  -- decoded, and never indexes out of range: it returns one peak for each bar, from 8 to 100,
  -- and a duration from one second to thirty minutes.
  pub analyze_mp3-bounds :
      (rate bar_count : ℕ) (reads : List (List ℕ)) (failed : Bool) (s : State)
      → rate ≤ 48000
      → 0 < bar_count
      → bar_count ≤ 512
      → decode_chunks rate reads failed ≡ ok s
      → (a : Mp3Analysis) × (analyze_mp3 F (some (rate, reads, failed)) bar_count ≡ ok a)
        × (length a.waveform_peaks ≡ bar_count)
        × ((1 ≤ a.duration) × (a.duration ≤ 1800))
        × All IsPeak a.waveform_peaks
  unfolding analyze_mp3
  analyze_mp3-bounds rate bar_count reads failed s h_rate nonzero few decodes =
      let (sums, counts, frames, some_frames, limit, some_chunks, few_chunks, full) =
        decode_chunks-sums rate reads failed s (omega arith) decodes in
      let averages = map (chunk_average F) s.chunks in
      let size : length averages ≡ length s.chunks = length-map (chunk_average F) s.chunks in
      let within = chunk_averages-Within s.total_frames s.chunks (omega arith) (omega arith) full in
      let (silence_size, silence_bars) = silence-IsBar F L bar_count in
      let (bars, places, bars_size, h_bars) =
        place_averages-IsBar F L bar_count (length averages) 0 averages (silence F bar_count)
          nonzero (omega arith) silence_size within silence_bars in
      let one = L.of_nat_within 1 32768 (omega arith) (omega arith) in
      let (xs, top, values, xs_size, h_top, over, under) =
        bar_averages-IsUnder bar_count 0 (0 + length averages) averages (F.of_nat 1) bars
          (omega arith) (omega arith) within one h_bars in
      let (peaks, peaks_size) = waveform_peaks-IsPeak top xs h_top over under in
      let valid : (bar_count == 0 || ltb 512 bar_count) ≡ false = ground arith in
      (
        _,
        rw valid (rw decodes (rw places (rw values refl))),
        omega arith,
        duration_of-bounds s.total_frames rate (omega arith) h_rate limit,
        peaks,
      )
