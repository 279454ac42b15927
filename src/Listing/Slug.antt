-- ===== src/Listing/Slug.antt =====
-- slugify of internal/modules/catalog/application/service.go.
use mathlib.Core.List.{reverse, reverse-append, reverse-reverse}
use blueprint_audio_backend.Common.{
  ℕ, Bool, true, false, [], ◌∷◌, ◌++◌, ◌≡◌, ◌⊎◌, ◌==◌, ◌||◌, ◌&&◌, not, refl, ap, ◌∙◌, arith, ltb,
  leb, if◌then◌else◌, Text, Bool-cases, inl, inr,
}
use blueprint_audio_backend.Common.Strings.{Unicode, to_lower, trim_space, is_space}
use blueprint_audio_backend.Processing.Worker.{trim_dashes, trim_left_dashes}

-- `table` is unicode.IsLetter(r) || unicode.IsDigit(r) beyond ASCII
module _ (u : Unicode) (table : ℕ → Bool) where
  abbrev pub is_alphanumeric : ℕ → Bool
  is_alphanumeric c =
      if ltb c 128
      then leb b'a' c && leb c b'z' || (leb b'A' c && leb c b'Z' || leb b'0' c && leb c b'9')
      else table c

  abbrev pub is_separator : ℕ → Bool
  is_separator c = is_space u c || (c == b'-' || (c == b'_' || c == b'.'))

  -- the loop's output, by prevDash and by len(out) > 0
  unfoldable pub slug_runes : Bool → Bool → Text → Text
  slug_runes prev_dash started [] = []
  slug_runes prev_dash started (c ∷ s) =
      let letter = slug_runes false true s in
      let dash = slug_runes true started s in
      let skip = slug_runes prev_dash started s in
      if is_alphanumeric c
      then c ∷ letter
      else if is_separator c
      then (if not prev_dash && started then b'-' ∷ dash else skip)
      else skip

  unfoldable pub slugify : Text → Text
  slugify input = trim_dashes (slug_runes false false (to_lower u (trim_space u input)))

  -- letters and digits, with single dashes between them; `after_dash` where a dash or nothing is before
  abbrev pub joins : Bool → Text → Bool
  joins after_dash [] = not after_dash
  joins after_dash (c ∷ s) =
      let dash = joins true s in
      let letter = joins false s in
      if c == b'-' then not after_dash && dash else is_alphanumeric c && letter

  -- a text that is empty or a slug
  abbrev pub is_slug : Text → Bool
  is_slug [] = true
  is_slug (c ∷ s) = joins true (c ∷ s)

  -- the text joins, perhaps but for one dash at its end
  Loose : Bool → Text → Type 0
  Loose after_dash t =
      (joins after_dash t ≡ true)
      ⊎ ((t' : Text) × (t ≡ t' ++ b'-' ∷ []) × (joins after_dash t' ≡ true))

  slug_runes-start : (s : Text) → slug_runes false false s ≡ slug_runes true true s
  unfolding slug_runes
  slug_runes-start [] = refl
  slug_runes-start (c ∷ s) = ground (arith, slug_runes-start s)

  Loose-letter :
      (b : Bool) (c : ℕ) (t : Text) → is_alphanumeric c ≡ true → Loose false t → Loose b (c ∷ t)
  unfolding Loose
  Loose-letter b c t letter (inl joined) = inl (ground arith)
  Loose-letter b c t letter (inr (t', split, joined)) =
      inr (c ∷ t', ap (λ l. c ∷ l) split, ground arith)

  Loose-dash : (t : Text) → (t ≡ []) ⊎ Loose true t → Loose false (b'-' ∷ t)
  unfolding Loose
  Loose-dash t (inl none_left) = inr ([], ap (λ l. b'-' ∷ l) none_left, refl)
  Loose-dash t (inr (inl joined)) = inl (ground arith)
  Loose-dash t (inr (inr (t', split, joined))) =
      inr (b'-' ∷ t', ap (λ l. b'-' ∷ l) split, ground arith)

  slug_runes-Loose :
      (s : Text)
      → Loose false (slug_runes false true s)
        × ((slug_runes true true s ≡ []) ⊎ Loose true (slug_runes true true s))
  unfolding slug_runes Loose
  slug_runes-Loose [] = (inl refl, inl refl)
  slug_runes-Loose (c ∷ s) =
      let (after_letter, after_dash) = slug_runes-Loose s in
      elim (Bool-cases (is_alphanumeric c)) [
        | inl letter ↦ rw letter (
          Loose-letter false c (slug_runes false true s) letter after_letter,
          inr (Loose-letter true c (slug_runes false true s) letter after_letter),
        )
        | inr other ↦ elim (Bool-cases (is_separator c)) [
          | inl separates ↦
              rw other (rw separates (Loose-dash (slug_runes true true s) after_dash, after_dash))
          | inr dropped ↦ rw other (rw dropped (after_letter, after_dash))
        ]
      ]

  -- a text that joins ends in a letter or digit
  joins-last :
      (b : Bool) (c : ℕ) (t : Text)
      → joins b (c ∷ t) ≡ true
      → (i : Text) × (l : ℕ) × (c ∷ t ≡ i ++ l ∷ []) × ((l == b'-') ≡ false)
  joins-last b c [] h = ([], c, refl, ground arith)
  joins-last b c (d ∷ t) h =
      let (i, l, split, letter) = joins-last (c == b'-') d t (ground arith) in
      (c ∷ i, l, ap (λ m. c ∷ m) split, letter)

  trim_left_dashes-letter :
      (c : ℕ) (t : Text) → (c == b'-') ≡ false → trim_left_dashes (c ∷ t) ≡ c ∷ t
  trim_left_dashes-letter c t letter = ground arith

  -- nothing is trimmed from the end of a text that joins
  trim_reverse :
      (c : ℕ) (t : Text)
      → joins true (c ∷ t) ≡ true
      → trim_left_dashes (reverse (c ∷ t)) ≡ reverse (c ∷ t)
  trim_reverse c t h =
      let (i, l, split, letter) = joins-last true c t h in
      let turned : reverse (c ∷ t) ≡ l ∷ reverse i =
        ap (λ (m : Text). reverse m) split ∙ reverse-append i (l ∷ []) in
      rw turned (trim_left_dashes-letter l (reverse i) letter)

  trim_dashes-joins : (c : ℕ) (t : Text) → joins true (c ∷ t) ≡ true → trim_dashes (c ∷ t) ≡ c ∷ t
  unfolding trim_dashes
  trim_dashes-joins c t h =
      let kept : trim_left_dashes (c ∷ t) ≡ c ∷ t = trim_left_dashes-letter c t (ground arith) in
      rw kept (rw (trim_reverse c t h) (reverse-reverse (c ∷ t)))

  trim_dashes-dash :
      (c : ℕ) (t : Text) → joins true (c ∷ t) ≡ true → trim_dashes ((c ∷ t) ++ b'-' ∷ []) ≡ c ∷ t
  unfolding trim_dashes
  trim_dashes-dash c t h =
      let kept : trim_left_dashes ((c ∷ t) ++ b'-' ∷ []) ≡ (c ∷ t) ++ b'-' ∷ [] =
        trim_left_dashes-letter c (t ++ b'-' ∷ []) (ground arith) in
      let turned : reverse ((c ∷ t) ++ b'-' ∷ []) ≡ b'-' ∷ reverse (c ∷ t) =
        reverse-append (c ∷ t) (b'-' ∷ []) in
      rw kept (rw turned (rw (trim_reverse c t h) (reverse-reverse (c ∷ t))))

  trim_dashes-Loose : (t : Text) → (t ≡ []) ⊎ Loose true t → is_slug (trim_dashes t) ≡ true
  unfolding Loose trim_dashes
  trim_dashes-Loose t (inl none_left) = rw none_left refl
  trim_dashes-Loose [] (inr (inl joined)) = refl
  trim_dashes-Loose (c ∷ t) (inr (inl joined)) = rw (trim_dashes-joins c t joined) joined
  trim_dashes-Loose t (inr (inr ([], split, joined))) = absurd (ground arith)
  trim_dashes-Loose t (inr (inr (c ∷ t', split, joined))) =
      rw split (rw (trim_dashes-dash c t' joined) joined)

  -- slugify returns a slug or nothing
  pub slugify-slug : (input : Text) → is_slug (slugify input) ≡ true
  unfolding slugify
  slugify-slug input =
      let s = to_lower u (trim_space u input) in
      rw (slug_runes-start s) (trim_dashes-Loose (slug_runes true true s) (slug_runes-Loose s).1)
