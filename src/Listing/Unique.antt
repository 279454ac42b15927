-- ===== src/Listing/Unique.antt =====
-- generateUniqueSlug of internal/modules/catalog/application/service.go.
use blueprint_audio_backend.Common.{
  ℕ, zero, suc, ◌+◌, ◌≤◌, ◌<◌, Bool, true, false, Option, none, some, [], ◌∷◌, ◌++◌, ◌≡◌, ◌==◌,
  refl, arith, if◌then◌else◌, Text, text, is_empty, Bool-cases, inl, inr,
}
use blueprint_audio_backend.Common.Strings.{Unicode, to_lower}
use blueprint_audio_backend.Listing.Slug.{joins, is_slug, slugify, slugify-slug}

-- strings.ReplaceAll(s, "-", "")
abbrev pub without_dashes : Text → Text
without_dashes [] = []
without_dashes (c ∷ s) = let rest = without_dashes s in if c == b'-' then rest else c ∷ rest

-- s[:n], where s has so many characters, and whether it has fewer
abbrev pub first : ℕ → Text → Text
first zero s = []
first (suc n) [] = []
first (suc n) (c ∷ s) = c ∷ first n s

abbrev pub is_shorter : Text → ℕ → Bool
is_shorter s zero = false
is_shorter [] (suc n) = true
is_shorter (c ∷ s) (suc n) = is_shorter s n

-- randomCodeSegment, of what uuid.NewString returns
unfoldable pub random_code_segment : Unicode → ℕ → Text → Text
random_code_segment u length uuid =
    let id = without_dashes uuid in
    if length == 0 then [] else if is_shorter id length then id else to_lower u (first length id)

-- the slug of the n-th attempt, by the random segments
abbrev pub candidate : Text → (ℕ → Text) → ℕ → Text
candidate base segments zero = base
candidate base segments (suc n) = base ++ (text "-" ++ segments n)

-- The loop of generateUniqueSlug from the n-th attempt on: `taken` says at each attempt whether
-- GetBySlug finds a spec.
unfoldable pub find_slug : (ℕ → Text → Bool) → (ℕ → Text) → Text → ℕ → ℕ → Option Text
find_slug taken segments base zero n = none
find_slug taken segments base (suc fuel) n =
    let slug = candidate base segments n in
    let next = find_slug taken segments base fuel (n + 1) in
    if taken n slug then next else some slug

find_slug-some :
    (taken : ℕ → Text → Bool) (segments : ℕ → Text) (base slug : Text) (fuel n : ℕ)
    → find_slug taken segments base fuel n ≡ some slug
    → (k : ℕ) × (n ≤ k)
      × (k < n + fuel)
      × (slug ≡ candidate base segments k)
      × (taken k slug ≡ false)
unfolding find_slug
find_slug-some taken segments base slug zero n h = absurd (ground arith)
find_slug-some taken segments base slug (suc fuel) n h =
    elim (Bool-cases (taken n (candidate base segments n))) [
      | inl hit ↦
          let later : find_slug taken segments base fuel (n + 1) ≡ some slug = ground arith in
          let (k, low, high, same, free) =
            find_slug-some taken segments base slug fuel (n + 1) later in
          (k, omega arith, omega arith, same, free)
      | inr miss ↦
          let here : slug ≡ candidate base segments n = ground arith in
          (n, omega arith, omega arith, here, rw here miss)
    ]

find_slug-none :
    (taken : ℕ → Text → Bool) (segments : ℕ → Text) (base : Text) (fuel n k : ℕ)
    → find_slug taken segments base fuel n ≡ none
    → n ≤ k
    → k < n + fuel
    → taken k (candidate base segments k) ≡ true
unfolding find_slug
find_slug-none taken segments base zero n k h low high = absurd (omega arith)
find_slug-none taken segments base (suc fuel) n k h low high =
    elim (Bool-cases (taken n (candidate base segments n))) [
      | inr miss ↦ absurd (ground arith)
      | inl hit ↦ elim (Bool-cases (k == n)) [
        | inl same ↦ let e : k ≡ n = ground arith in rw e hit
        | inr other ↦
            find_slug-none taken segments base fuel (n + 1) k (ground arith) (ground arith)
              (ground arith)
      ]
    ]

module _ (u : Unicode) (table : ℕ → Bool) where
  -- base-segment
  joins-segment :
      (b : Bool) (c : ℕ) (t seg : Text)
      → joins u table b (c ∷ t) ≡ true
      → joins u table true seg ≡ true
      → joins u table b ((c ∷ t) ++ b'-' ∷ seg) ≡ true
  joins-segment b c [] seg h h_seg = ground arith
  joins-segment b c (d ∷ t) seg h h_seg =
      let rest = joins-segment (c == b'-') d t seg (ground arith) h_seg in ground arith

  abbrev pub base_slug : Text → Text
  base_slug title =
      let base = slugify u table title in if is_empty base then text "untitled-beat" else base

  -- the random segment after the slug of the n-th attempt
  abbrev pub segment : (ℕ → Text) → ℕ → Text
  segment uuids n = random_code_segment u 3 (uuids n)

  -- `uuids` are the answers of uuid.NewString
  unfoldable pub generate_unique_slug : (ℕ → Text → Bool) → (ℕ → Text) → Text → Option Text
  generate_unique_slug taken uuids title = find_slug taken (segment uuids) (base_slug title) 10 0

  base_slug-joins : (title : Text) → joins u table true (base_slug title) ≡ true
  base_slug-joins title = go (slugify u table title) (slugify-slug u table title)
    where
      go :
          (base : Text)
          → is_slug u table base ≡ true
          → joins u table true (if is_empty base then text "untitled-beat" else base) ≡ true
      go [] h = refl
      go (c ∷ base) h = h

  candidate-joins :
      (base : Text) (segments : ℕ → Text) (n : ℕ)
      → joins u table true base ≡ true
      → ((k : ℕ) → joins u table true (segments k) ≡ true)
      → joins u table true (candidate base segments n) ≡ true
  candidate-joins base segments zero h h_segments = h
  candidate-joins [] segments (suc n) h h_segments = absurd (ground arith)
  candidate-joins (c ∷ base) segments (suc n) h h_segments =
      joins-segment true c base (segments n) h (h_segments n)

  -- Where the segments that randomCodeSegment cuts from the identifiers are of letters and digits, generateUniqueSlug returns a slug, which is of
  -- letters and digits with single dashes between them, and for which one of its ten attempts has
  -- found no spec; and it fails only where each of the ten slugs that it tries is taken.
  pub generate_unique_slug_ok :
      (taken : ℕ → Text → Bool) (uuids : ℕ → Text) (title : Text)
      → ((k : ℕ) → joins u table true (segment uuids k) ≡ true)
      → ((slug : Text)
          → generate_unique_slug taken uuids title ≡ some slug
          → (joins u table true slug ≡ true)
            × ((k : ℕ) × (k < 10)
                × (slug ≡ candidate (base_slug title) (segment uuids) k)
                × (taken k slug ≡ false)))
        × (generate_unique_slug taken uuids title ≡ none
            → (k : ℕ) → k < 10
            → taken k (candidate (base_slug title) (segment uuids) k) ≡ true)
  unfolding generate_unique_slug
  generate_unique_slug_ok taken uuids title h_segments =
      let base = base_slug title in
      let segments = segment uuids in
      (
        (λ slug h.
            let (k, _, high, same, free) = find_slug-some taken segments base slug 10 0 h in
            (
              rw same (candidate-joins base segments k (base_slug-joins title) h_segments),
              (k, omega arith, same, free),
            )),
        λ h k few. find_slug-none taken segments base 10 0 k h (omega arith) (omega arith),
      )
