-- ===== src/Processing/Waveform/Bars/Placing.antt =====
-- The averages of the chunks in the bars: no index is out of range.
use Prim.Native.Nat.{◌/◌}
use blueprint_audio_backend.Common.{
  ℕ, zero, suc, ◌+◌, ◌*◌, ◌<◌, ◌≤◌, List, [], ◌∷◌, ◌≡◌, arith, refl, length, All, subst,
}
use blueprint_audio_backend.Db.{ok}
use blueprint_audio_backend.Processing.Waveform.Bars.{
  Floats, Bar, silence, add_at, value_at, last_if_over, place_averages,
}
use blueprint_audio_backend.Processing.Waveform.Bars.Arithmetic.{IsFloats}

pub last_if_over_lt : (k n : ℕ) → 0 < n → last_if_over k n < n
last_if_over_lt k n h = ground arith

module _ (F : Floats) (L : IsFloats F) where
  -- the sum of at most `n` averages of levels
  abbrev pub IsBar : ℕ → Bar F → Type 0
  IsBar n bar = L.Within (32768 * bar.count) bar.sum × (bar.count ≤ n)

  IsBar-more : (n : ℕ) (bars : List (Bar F)) → All (IsBar n) bars → All (IsBar (n + 1)) bars
  IsBar-more n [] h = tt
  IsBar-more n (b ∷ bars) ((sum, count), h) = ((sum, omega arith), IsBar-more n bars h)

  pub silence-IsBar : (n : ℕ) → (length (silence F n) ≡ n) × All (IsBar 0) (silence F n)
  unfolding silence
  silence-IsBar zero = (refl, tt)
  silence-IsBar (suc n) =
      let (size, rest) = silence-IsBar n in
      (
        omega arith,
        ((L.of_nat_within 0 (32768 * 0) (omega arith) (omega arith), omega arith), rest),
      )

  add_at-IsBar :
      (k n : ℕ) (x : F.Float) (bars : List (Bar F))
      → n < 16384
      → k < length bars
      → L.Within 32768 x
      → All (IsBar n) bars
      → (bars' : List (Bar F)) × (add_at F k x bars ≡ ok bars')
        × (length bars' ≡ length bars)
        × All (IsBar (n + 1)) bars'
  unfolding add_at
  add_at-IsBar k n x [] few h h_x all = absurd (omega arith)
  add_at-IsBar zero n x (b ∷ bars) few h h_x ((sum, count), all) =
      let more = 32768 * b.count + 32768 in
      let next : more ≡ 32768 * (b.count + 1) = omega arith in
      let sum' = L.add_within (32768 * b.count) 32768 b.sum x (omega arith) sum h_x in
      (
        _,
        refl,
        refl,
        ((subst (λ m. L.Within m (F.add b.sum x)) next sum', omega arith), IsBar-more n bars all),
      )
  add_at-IsBar (suc k) n x (b ∷ bars) few h h_x (bar, all) =
      let (rest, adds, size, all') = add_at-IsBar k n x bars few (omega arith) h_x all in
      let (sum, count) = bar in (b ∷ rest, rw adds refl, omega arith, ((sum, omega arith), all'))

  pub value_at_total :
      (k : ℕ) (P : F.Float → Type 0) (xs : List F.Float)
      → k < length xs
      → All P xs
      → (x : F.Float) × (value_at F k xs ≡ ok x) × P x
  unfolding value_at
  value_at_total k P [] h all = absurd (omega arith)
  value_at_total zero P (x ∷ xs) h (p, all) = (x, refl, p)
  value_at_total (suc k) P (x ∷ xs) h (p, all) = value_at_total k P xs (omega arith) all

  pub place_averages-IsBar :
      (bar_count n i : ℕ) (averages : List F.Float) (bars : List (Bar F))
      → 0 < bar_count
      → i + length averages < 16384
      → length bars ≡ bar_count
      → All (L.Within 32768) averages
      → All (IsBar i) bars
      → (bars' : List (Bar F)) × (place_averages F bar_count n i averages bars ≡ ok bars')
        × (length bars' ≡ bar_count)
        × All (IsBar (i + length averages)) bars'
  unfolding place_averages
  place_averages-IsBar bar_count n i [] bars nonzero few size h all =
      (bars, refl, size, subst (λ m. All (IsBar m) bars) (omega arith) all)
  place_averages-IsBar bar_count n i (x ∷ averages) bars nonzero few size (h_x, h) all =
      let k = last_if_over (i * bar_count / n) bar_count in
      let k_lt = last_if_over_lt (i * bar_count / n) bar_count nonzero in
      let (bars', adds, size', all') =
        add_at-IsBar k i x bars (omega arith) (omega arith) h_x all in
      let (done, places, same, all'') =
        place_averages-IsBar bar_count n (i + 1) averages bars' nonzero (omega arith) (omega arith)
          h all' in
      (done, rw adds places, same, subst (λ m. All (IsBar m) done) (omega arith) all'')
