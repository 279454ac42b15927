-- ===== src/Listing/Create.antt =====
-- prepareSpecForCreate, with the currencies and the short code, of
-- internal/modules/catalog/application/service.go.
pub mod Prepared
use blueprint_audio_backend.Common.{
  ℕ, zero, suc, ◌+◌, Bool, true, false, Option, none, some, List, [], ◌∷◌, ◌≡◌, ◌⊎◌, refl, arith,
  not, ◌&&◌, if◌then◌else◌, Text, text, text_eq, is_empty, All, Option-cases, Bool-cases, inl, inr,
}
use blueprint_audio_backend.Common.Strings.{Unicode, to_upper, trim_space}
use blueprint_audio_backend.Db.{Result, ok, err}
use blueprint_audio_backend.Db.Results.{◌>>=◌, ◌>>◌, refuse_if, Result-cases}
use blueprint_audio_backend.Catalog.Domain.{ProcessingStatus}
use blueprint_audio_backend.Listing.Draft.{Prices, Offer, Draft}
use blueprint_audio_backend.Listing.Validation.{ValidationError, is_beat, validate_spec}
use blueprint_audio_backend.Listing.Unique.{generate_unique_slug, random_code_segment}

pub data CreateError : Type 0 where
  validation : ValidationError → CreateError
  wav_missing stems_missing slug_taken short_code_taken invalid_currency : CreateError

-- a spec that is to be created
pub record NewSpec (P : Type 0) : Type 0 where
  pub draft : Draft P
  pub processing_status : ProcessingStatus
  pub wav_url : Option Text
  pub stems_url : Option Text
  pub slug : Option Text
  pub short_code : Option Text

abbrev pub is_in_processing : ProcessingStatus → Bool
is_in_processing ProcessingStatus.processing = true
is_in_processing _ = false

-- `s == nil || *s == ""`
abbrev pub is_missing : Option Text → Bool
is_missing none = true
is_missing (some s) = is_empty s

-- The loop of generateUniqueShortCode: `taken` says whether GetByShortCode finds a spec.
unfoldable pub find_short_code : (ℕ → Text → Bool) → (ℕ → Text) → ℕ → ℕ → Option Text
find_short_code taken codes zero n = none
find_short_code taken codes (suc fuel) n =
    let next = find_short_code taken codes fuel (n + 1) in
    if taken n (codes n) then next else some (codes n)

abbrev pub or_refuse : {A : Type 0} → Option A → CreateError → Result CreateError A
or_refuse none e = err e
or_refuse (some a) e = ok a

abbrev pub is_currency : Text → Bool
is_currency s = if text_eq s (text "INR") then true else text_eq s (text "USD")

-- what the repository and uuid.NewString answer
pub record Names : Type 0 where
  pub slug_taken : ℕ → Text → Bool
  pub code_taken : ℕ → Text → Bool
  pub slug_uuids : ℕ → Text
  pub code_uuids : ℕ → Text

module _ (u : Unicode) where
  unfoldable pub normalize_currency : Text → Text → Result CreateError Text
  normalize_currency value fallback =
      let stated = to_upper u (trim_space u value) in
      let currency = if is_empty stated then fallback else stated in
      if is_currency currency then ok currency else err CreateError.invalid_currency

  unfoldable pub normalize_offers :
      {P : Type 0} → Text → List (Offer P) → Result CreateError (List (Offer P))
  normalize_offers fallback [] = ok []
  normalize_offers fallback (o ∷ offers) = do
    currency ← normalize_currency o.price_currency fallback
    rest ← normalize_offers fallback offers
    ok (record o { price_currency = currency } ∷ rest)

  unfoldable pub normalize_spec_currencies : {P : Type 0} → Draft P → Result CreateError (Draft P)
  normalize_spec_currencies d = do
    currency ← normalize_currency d.price_currency (text "INR")
    licenses ← normalize_offers currency d.licenses
    ok (record d { price_currency = currency; licenses = licenses })

  -- `s == nil || strings.TrimSpace(*s) == ""`
  abbrev pub is_blank : Option Text → Bool
  is_blank none = true
  is_blank (some s) = is_empty (trim_space u s)

  abbrev pub name_or : Option Text → Option Text → CreateError → Result CreateError (Option Text)
  name_or given generated e =
      if is_blank given then (or_refuse generated e >>= λ s. ok (some s)) else ok given

  -- randomCodeSegment(shortCodeLength)
  abbrev pub short_codes : Names → ℕ → Text
  short_codes names n = random_code_segment u 8 (names.code_uuids n)

  module _ (F : Prices) (table : ℕ → Bool) where
    abbrev pub validated : Draft F.Price → Result CreateError (Draft F.Price)
    validated d = elim (validate_spec u F d) [
      | ok d' ↦ ok d'
      | err e ↦ err (CreateError.validation e)
    ]

    unfoldable pub check_files : NewSpec F.Price → Result CreateError (Unit {0})
    check_files s =
        if is_beat s.draft.category && not (is_in_processing s.processing_status)
        then (do
          refuse_if (is_missing s.wav_url) CreateError.wav_missing
          refuse_if (is_missing s.stems_url) CreateError.stems_missing)
        else ok tt

    unfoldable pub prepare_spec_for_create :
        Names → NewSpec F.Price → Result CreateError (NewSpec F.Price)
    prepare_spec_for_create names s = do
      draft ← validated s.draft
      check_files s
      slug ←
          name_or s.slug
            (generate_unique_slug u table names.slug_taken names.slug_uuids draft.title)
            CreateError.slug_taken
      short_code ←
          name_or s.short_code (find_short_code names.code_taken (short_codes names) 10 0)
            CreateError.short_code_taken
      priced ← normalize_spec_currencies draft
      ok (record s { draft = priced; slug = slug; short_code = short_code })
