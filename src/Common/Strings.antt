-- ===== src/Common/Strings.antt =====
-- Go strings as lists of code points, and the functions of package strings that the source uses.
use Prim.Native.Nat.{ℕ, ◌+◌, ◌-◌}
use Prim.Native.Char.{code}
use Prim.Native.String.{String}
use mathlib.Core.Path.{◌≡◌, refl}
use mathlib.Core.Logic.{◌↔◌}
use mathlib.Core.Bool.{Bool, true, false, ◌&&◌, ◌||◌}
use mathlib.Core.List.{List, [], ◌∷◌, map, reverse}
use native.Mathlib.Omega.{arith}
use blueprint_audio_backend.Common.Tests.{◌==◌, leb, ltb, if◌then◌else◌}

abbrev pub Text : Type 0
Text = List ℕ

-- a string literal
abbrev pub text : String → Text
text String.[] = []
text (String.◌∷◌ c s) = code c ∷ text s

unfoldable pub text_eq : Text → Text → Bool
text_eq [] [] = true
text_eq (a ∷ s) (b ∷ t) = a == b && text_eq s t
text_eq _ _ = false

pub text_eq_refl : (s : Text) → text_eq s s ≡ true
unfolding text_eq
text_eq_refl [] = refl
text_eq_refl (a ∷ s) = ground (arith, text_eq_refl s)

pub text_eq_sound : (s t : Text) → text_eq s t ≡ true → s ≡ t
unfolding text_eq
text_eq_sound [] [] h = refl
text_eq_sound [] (b ∷ t) h = absurd (ground arith)
text_eq_sound (a ∷ s) [] h = absurd (ground arith)
text_eq_sound (a ∷ s) (b ∷ t) h = ground (arith, text_eq_sound s t)

pub text_eq_iff : (s t : Text) → (text_eq s t ≡ true) ↔ (s ≡ t)
text_eq_iff s t = (text_eq_sound s t, λ e. rw e (text_eq_refl t))

abbrev pub is_empty : Text → Bool
is_empty [] = true
is_empty _ = false

-- what stands before the first occurrence of a character, or all of it
abbrev pub before_char : ℕ → Text → Text
before_char sep [] = []
before_char sep (c ∷ s) = let rest = before_char sep s in if c == sep then [] else c ∷ rest

-- len(s): a code point's UTF-8 bytes
abbrev pub byte_length : Text → ℕ
byte_length [] = 0
byte_length (c ∷ s) =
    (if ltb c 128 then 1 else if ltb c 2048 then 2 else if ltb c 65536 then 3 else 4)
    + byte_length s

-- utf8.ValidString: a number that is no Unicode scalar value stands for a byte outside UTF-8
abbrev pub valid_string : Text → Bool
valid_string [] = true
valid_string (c ∷ s) = (ltb c 0xd800 || leb 0xe000 c && leb c 0x10ffff) && valid_string s

-- Package unicode's tables beyond ASCII.
pub record Unicode : Type 0 where
  pub upper : ℕ → ℕ
  pub lower : ℕ → ℕ
  pub space : ℕ → Bool

module _ (u : Unicode) where
  abbrev pub lower_rune : ℕ → ℕ
  lower_rune c = if leb b'A' c && leb c b'Z' then c + 32 else if ltb c 128 then c else u.lower c

  abbrev pub upper_rune : ℕ → ℕ
  upper_rune c = if leb b'a' c && leb c b'z' then c - 32 else if ltb c 128 then c else u.upper c

  -- '\t', '\n', '\v', '\f', '\r', ' ', and what the tables say beyond ASCII
  abbrev pub is_space : ℕ → Bool
  is_space c = if ltb c 128 then leb 9 c && leb c 13 || c == 32 else u.space c

  unfoldable pub to_lower : Text → Text
  to_lower = map lower_rune

  unfoldable pub to_upper : Text → Text
  to_upper = map upper_rune

  abbrev pub trim_left : Text → Text
  trim_left [] = []
  trim_left (c ∷ s) = let rest = trim_left s in if is_space c then rest else c ∷ s

  unfoldable pub trim_space : Text → Text
  trim_space s = reverse (trim_left (reverse (trim_left s)))
