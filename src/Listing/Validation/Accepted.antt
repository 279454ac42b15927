-- ===== src/Listing/Validation/Accepted.antt =====
-- What validateSpec accepts, and how it leaves it.
use blueprint_audio_backend.Common.{
  ℕ, ◌+◌, ◌≤◌, false, none, List, [], ◌∷◌, ◌≡◌, ◌≢◌, refl, sym, ap, subst, arith, length, map,
  if◌then◌else◌, exists_where, Bool-cases, Option-cases, inl, inr, All,
}
use blueprint_audio_backend.Common.Strings.{Unicode}
use blueprint_audio_backend.Db.{ok}
use blueprint_audio_backend.Db.Results.{Result-cases}
use blueprint_audio_backend.Catalog.Domain.{LicenseType}
use blueprint_audio_backend.Listing.Draft.{Prices, Offer, Draft, not_nil}
use blueprint_audio_backend.Listing.Validation.{
  known_license, license_eq, is_sample, storable_offer, normalize_database_arrays, check_offer,
  check_offers, check_beat, check_spec, validate_spec,
}

abbrev free : List LicenseType → LicenseType → ℕ
free seen t = if exists_where (license_eq t) seen then 0 else 1

-- how many types are not in the list
abbrev room : List LicenseType → ℕ
room seen =
    free seen LicenseType.basic
    + (free seen LicenseType.premium
        + (free seen LicenseType.trackout + free seen LicenseType.unlimited))

room-cons :
    (t : LicenseType) (seen : List LicenseType)
    → exists_where (license_eq t) seen ≡ false
    → room (t ∷ seen) + 1 ≡ room seen
room-cons LicenseType.basic seen new = ground arith
room-cons LicenseType.premium seen new = ground arith
room-cons LicenseType.trackout seen new = ground arith
room-cons LicenseType.unlimited seen new = ground arith

module _ (u : Unicode) (F : Prices) where
  check_offers-room :
      (seen : List LicenseType) (offers : List (Offer F.Price))
      → check_offers u F seen offers ≡ ok tt
      → length offers ≤ room seen
  unfolding check_offers
  check_offers-room seen [] h = omega arith
  check_offers-room seen (o ∷ offers) h = elim (Option-cases (known_license o.license_type)) [
    | inl unknown ↦ absurd (ground arith)
    | inr (t, known) ↦ elim (Bool-cases (exists_where (license_eq t) seen)) [
      | inl again ↦ absurd (ground arith)
      | inr new ↦ elim (Result-cases (check_offer u F o)) [
        | inl (e, fails) ↦ absurd (ground arith)
        | inr (_, passes) ↦
            let rest : check_offers u F (t ∷ seen) offers ≡ ok tt = ground arith in
            omega (arith, check_offers-room (t ∷ seen) offers rest, room-cons t seen new)
      ]
    ]
  ]

  -- what the checks of a beat ensure
  abbrev pub IsBeat : Draft F.Price → Type 0
  IsBeat d =
      (60 ≤ d.bpm)
      × (d.bpm ≤ 300)
      × (length d.genres ≡ 1)
      × (1 ≤ length d.licenses)
      × (length d.licenses ≤ 4)

  check_beat_ok : (d : Draft F.Price) → check_beat u F d ≡ ok tt → IsBeat d
  unfolding check_beat
  check_beat_ok d h =
      let offers : check_offers u F [] d.licenses ≡ ok tt = ground arith in
      let few = check_offers-room [] d.licenses offers in
      (ground arith, ground arith, ground arith, ground arith, few)

  check_spec_ok :
      (d : Draft F.Price)
      → check_spec u F d ≡ ok tt
      → is_sample d.category ≡ false
      → check_beat u F d ≡ ok tt
  unfolding check_spec
  check_spec_ok d h other = ground arith

map-storable :
    {P : Type 0} (offers : List (Offer P))
    → map storable_offer (map storable_offer offers) ≡ map storable_offer offers
map-storable [] = refl
map-storable (o ∷ offers) = ap (λ l. storable_offer o ∷ l) (map-storable offers)

-- no array of the spec is null
abbrev pub IsStorable : {P : Type 0} → Draft P → Type 0
IsStorable d =
    (d.moods ≢ none)
    × (d.instruments ≢ none)
    × All (λ o. (o.features ≢ none) × (o.file_types ≢ none)) d.licenses

storable-All :
    {P : Type 0} (offers : List (Offer P))
    → All (λ o. (o.features ≢ none) × (o.file_types ≢ none)) (map storable_offer offers)
storable-All [] = tt
storable-All (o ∷ offers) =
    (((λ e. absurd (ground arith)), λ e. absurd (ground arith)), storable-All offers)

normalize_again :
    {P : Type 0} (d : Draft P)
    → normalize_database_arrays (normalize_database_arrays d) ≡ normalize_database_arrays d
unfolding normalize_database_arrays
normalize_again d =
    ap
      (λ l. record d { moods = not_nil d.moods; instruments = not_nil d.instruments; licenses = l })
      (map-storable d.licenses)

module _ (u : Unicode) (F : Prices) where
  normalized-IsStorable : (d : Draft F.Price) → IsStorable (normalize_database_arrays d)
  unfolding normalize_database_arrays
  normalized-IsStorable d =
      ((λ e. absurd (ground arith)), (λ e. absurd (ground arith)), storable-All d.licenses)

  validated_again :
      (d : Draft F.Price)
      → check_spec u F (normalize_database_arrays d) ≡ ok tt
      → validate_spec u F (normalize_database_arrays d) ≡ ok (normalize_database_arrays d)
  unfolding validate_spec
  validated_again d passes = rw (normalize_again d) (rw passes refl)

  pub validate_spec_ok :
      (d d' : Draft F.Price)
      → validate_spec u F d ≡ ok d'
      → IsStorable d'
        × (validate_spec u F d' ≡ ok d')
        × (is_sample d'.category ≡ false → IsBeat u F d')
  unfolding validate_spec
  validate_spec_ok d d' h = elim (Result-cases (check_spec u F (normalize_database_arrays d))) [
    | inl (e, fails) ↦ absurd (ground arith)
    | inr (_, passes) ↦
        let same : d' ≡ normalize_database_arrays d = ground arith in
        let n = normalize_database_arrays d in
        subst
          (λ m.
            IsStorable m
            × (validate_spec u F m ≡ ok m)
            × (is_sample m.category ≡ false → IsBeat u F m))
          (sym same)
          (
            normalized-IsStorable d,
            validated_again d passes,
            λ other. check_beat_ok u F n (check_spec_ok u F n passes other),
          )
  ]
