-- ===== src/Processing/Waveform/Bars/Arithmetic.antt =====
-- What AnalyzeMP3 relies on of float64.
use Prim.Native.Nat.{◌^◌}
use blueprint_audio_backend.Common.{ℕ, ◌+◌, ◌*◌, ◌<◌, ◌≤◌, true, false, ◌≡◌}
use blueprint_audio_backend.Processing.Waveform.Bars.{Floats}

-- What the code relies on of IEEE 754 arithmetic: `Within n x` where x is a number from 0 to n.
-- Integers below 2 ^ 53 are exact, and rounding keeps the order.
pub record IsFloats (F : Floats) : Type 1 where
  pub Within : ℕ → F.Float → Type 0
  pub of_nat_within : (m n : ℕ) → m ≤ n → n < 2 ^ 53 → Within n (F.of_nat m)
  pub add_within :
      (m n : ℕ) (x y : F.Float)
      → m + n < 2 ^ 53
      → Within m x
      → Within n y
      → Within (m + n) (F.add x y)
  pub div_within :
      (n c : ℕ) (x : F.Float)
      → 0 < c
      → n * c < 2 ^ 53
      → Within (n * c) x
      → Within n (F.div x (F.of_nat c))
  pub ratio_within :
      (n : ℕ) (x y : F.Float)
      → n < 2 ^ 53
      → Within n x
      → Within n y
      → F.less y x ≡ false
      → F.less y (F.of_nat 1) ≡ false
      → Within 1 (F.div x y)
  pub mul_within :
      (m n : ℕ) (x : F.Float) → m * n < 2 ^ 53 → Within m x → Within (m * n) (F.mul x (F.of_nat n))
  pub round_within : (n : ℕ) (x : F.Float) → n < 2 ^ 53 → Within n x → Within n (F.round x)
  pub ceil_within : (n : ℕ) (x : F.Float) → n < 2 ^ 53 → Within n x → Within n (F.ceil x)
  pub max_within :
      (m n : ℕ) (x : F.Float) → m ≤ n → n < 2 ^ 53 → Within n x → Within n (F.max (F.of_nat m) x)
  pub max_least :
      (m n : ℕ) (x : F.Float)
      → m ≤ n
      → n < 2 ^ 53
      → Within n x
      → m ≤ F.truncate (F.max (F.of_nat m) x)
  pub truncate_le : (n : ℕ) (x : F.Float) → n < 2 ^ 53 → Within n x → F.truncate x ≤ n
  pub less_self : (x : F.Float) → F.less x x ≡ false
  pub less_asym : (x y : F.Float) → F.less x y ≡ true → F.less y x ≡ false
  pub not_less_trans :
      (n : ℕ) (x y z : F.Float)
      → Within n x
      → Within n y
      → Within n z
      → F.less x y ≡ false
      → F.less y z ≡ false
      → F.less x z ≡ false
