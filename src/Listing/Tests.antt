-- ===== src/Listing/Tests.antt =====
-- A beat that is accepted, a list of tags and a slug.
use blueprint_audio_backend.Common.{
  ℕ, ◌<◌, Bool, true, false, none, some, [], ◌∷◌, ◌≡◌, ◌≢◌, ◌&&◌, refl, leb, Text, text,
}
use blueprint_audio_backend.Common.Strings.{Unicode, text_eq, to_lower, to_upper, trim_space}
use blueprint_audio_backend.Db.{ok, err}
use blueprint_audio_backend.Db.Results.{is_ok}
use blueprint_audio_backend.Processing.Worker.{trim_dashes}
use blueprint_audio_backend.Listing.Draft.{Prices, Offer, Draft}
use blueprint_audio_backend.Listing.Lists.{
  is_value, list_key, check_values, validate_string_list, all_values, all_distinct,
  validate_string_list_iff,
}
use blueprint_audio_backend.Listing.Validation.{
  ValidationError, known_license, is_sample, normalize_database_arrays, check_offer, check_offers,
  check_beat, check_spec, validate_spec,
}
use blueprint_audio_backend.Listing.Validation.Accepted.{IsBeat}
use blueprint_audio_backend.Listing.Slug.{slug_runes, slugify, joins}
use blueprint_audio_backend.Listing.Unique.{
  find_slug, candidate, base_slug, segment, random_code_segment, generate_unique_slug,
  generate_unique_slug_ok,
}
use blueprint_audio_backend.Catalog.Domain.{ProcessingStatus}
use blueprint_audio_backend.Listing.Create.{
  NewSpec, Names, find_short_code, normalize_currency, normalize_offers, normalize_spec_currencies,
  check_files, prepare_spec_for_create,
}
use blueprint_audio_backend.Listing.Create.Prepared.{IsPriced, HasFiles, prepare_spec_for_create_ok}

abbrev ascii : Unicode
ascii = record { lower = λ c. c; upper = λ c. c; space = λ c. false }

-- prices in whole units
abbrev whole : Prices
whole = record { Price = ℕ; is_nan = λ p. false; is_inf = λ p. false; is_negative = λ p. false }

abbrev basic_offer : Offer ℕ
basic_offer = record {
  license_type = text "Basic";
  name = text "MP3 lease";
  price = 20;
  price_currency = [];
  features = none;
  file_types = some (text "mp3" ∷ []);
}

abbrev trap_beat : Draft ℕ
trap_beat = record {
  title = text " Night Drive ";
  description = [];
  category = text "beat";
  base_price = 20;
  price_currency = [];
  tags = text "dark" ∷ text "night" ∷ [];
  moods = none;
  instruments = some (text "808" ∷ []);
  bpm = 140;
  key = text "c# minor";
  genres = text "Trap" ∷ [];
  licenses = basic_offer ∷ [];
}

again_refused :
    validate_spec ascii whole (record trap_beat { licenses = basic_offer ∷ basic_offer ∷ [] })
    ≡ err ValidationError.duplicate_license
unfolding validate_spec check_spec check_beat check_offers check_offer known_license
    validate_string_list check_values is_value list_key text_eq to_lower to_upper trim_space
    normalize_database_arrays
again_refused = refl

night_slug : slugify ascii (λ c. false) (text " Night--Drive! 2 ") ≡ text "night-drive-2"
unfolding slugify slug_runes trim_dashes to_lower trim_space
night_slug = refl

validate_string_list_iff_example :
    is_ok (validate_string_list ascii 3 30 none (text "dark" ∷ text " Dark" ∷ [])) ≡ (
      leb 2 3
      && (all_values ascii 30 none (text "dark" ∷ text " Dark" ∷ [])
          && all_distinct ascii (text "dark" ∷ text " Dark" ∷ [])))
validate_string_list_iff_example =
    validate_string_list_iff ascii 3 30 none (text "dark" ∷ text " Dark" ∷ [])

-- the first two slugs are taken
abbrev twice_taken : ℕ → Text → Bool
twice_taken n slug = leb n 1

abbrev uuids : ℕ → Text
uuids k = text "a1b2c3d4-0000-4000-8000-000000000000"

generate_unique_slug_ok_example :
    ((slug : Text)
      → generate_unique_slug ascii (λ c. false) twice_taken uuids (text "Night") ≡ some slug
      → (joins ascii (λ c. false) true slug ≡ true)
        × ((k : ℕ) × (k < 10)
            × (slug
                ≡ candidate
                    (base_slug ascii (λ c. false) (text "Night"))
                    (segment ascii (λ c. false) uuids)
                    k)
            × (twice_taken k slug ≡ false)))
    × (generate_unique_slug ascii (λ c. false) twice_taken uuids (text "Night") ≡ none
        → (k : ℕ) → k < 10
        → twice_taken k (
            candidate
              (base_slug ascii (λ c. false) (text "Night"))
              (segment ascii (λ c. false) uuids)
              k)
          ≡ true)
unfolding random_code_segment to_lower
generate_unique_slug_ok_example =
    generate_unique_slug_ok ascii (λ c. false) twice_taken uuids (text "Night") (λ k. refl)

abbrev fresh : NewSpec ℕ
fresh = record {
  draft = trap_beat;
  processing_status = ProcessingStatus.processing;
  wav_url = none;
  stems_url = none;
  slug = none;
  short_code = none;
}

abbrev names : Names
names = record {
  slug_taken = twice_taken;
  code_taken = λ n code. false;
  slug_uuids = λ k. text "a1b2c3d4-0000-4000-8000-000000000000";
  code_uuids = λ k. text "0a1b2c3d-0000-4000-8000-000000000000";
}

fresh_prepared :
    (s : NewSpec ℕ) × (prepare_spec_for_create ascii whole (λ c. false) names fresh ≡ ok s)
    × (s.slug ≡ some (text "night-drive-a1b"))
unfolding prepare_spec_for_create check_files normalize_spec_currencies normalize_offers
    normalize_currency find_short_code generate_unique_slug random_code_segment find_slug slugify
    slug_runes trim_dashes validate_spec check_spec check_beat check_offers check_offer
    known_license validate_string_list check_values is_value list_key text_eq to_lower to_upper
    trim_space normalize_database_arrays
fresh_prepared = (_, refl, refl)

prepare_spec_for_create_ok_example :
    let s = fresh_prepared.0 in
    (s.slug ≢ none)
    × (s.short_code ≢ none)
    × IsPriced ascii s.draft
    × (is_sample s.draft.category ≡ false → IsBeat ascii whole s.draft)
    × HasFiles ascii whole (λ c. false) fresh
prepare_spec_for_create_ok_example =
    prepare_spec_for_create_ok ascii whole (λ c. false) names fresh fresh_prepared.0
      fresh_prepared.1
