-- ===== src/Listing/Validation.antt =====
-- validateSpec and normalizeDatabaseArrays of internal/modules/catalog/application/validation.go.
pub mod Accepted
use blueprint_audio_backend.Common.{
  ℕ, Bool, true, false, Option, none, some, List, [], ◌∷◌, ◌||◌, ◌&&◌, not, ◌==◌, ltb, length, map,
  if◌then◌else◌, exists_where, Text, text, text_eq, is_empty,
}
use blueprint_audio_backend.Common.Strings.{Unicode, to_upper, trim_space}
use blueprint_audio_backend.Db.{Result, ok, err}
use blueprint_audio_backend.Db.Results.{◌>>=◌, ◌>>◌, refuse_if}
use blueprint_audio_backend.Catalog.Domain.{LicenseType}
use blueprint_audio_backend.Listing.Draft.{Prices, Offer, Draft, items, not_nil}
use blueprint_audio_backend.Listing.Lists.{ListError, validate_string_list}

pub data ListName : Type 0 where
  tags moods instruments features file_types : ListName

pub data ValidationError : Type 0 where
  title_required title_length description price category bpm key : ValidationError
  genre_count genre no_license license_type duplicate_license license_name license_price :
      ValidationError
  list : ListName → ListError → ValidationError

abbrev pub allowed_keys : List Text
allowed_keys =
    text "C MAJOR"
    ∷ text "C# MAJOR"
    ∷ text "D MAJOR"
    ∷ text "D# MAJOR"
    ∷ text "E MAJOR"
    ∷ text "F MAJOR"
    ∷ text "F# MAJOR"
    ∷ text "G MAJOR"
    ∷ text "G# MAJOR"
    ∷ text "A MAJOR"
    ∷ text "A# MAJOR"
    ∷ text "B MAJOR"
    ∷ text "C MINOR"
    ∷ text "C# MINOR"
    ∷ text "D MINOR"
    ∷ text "D# MINOR"
    ∷ text "E MINOR"
    ∷ text "F MINOR"
    ∷ text "F# MINOR"
    ∷ text "G MINOR"
    ∷ text "G# MINOR"
    ∷ text "A MINOR"
    ∷ text "A# MINOR"
    ∷ text "B MINOR"
    ∷ []

abbrev pub allowed_genres : List Text
allowed_genres =
    text "TRAP"
    ∷ text "DRILL"
    ∷ text "R&B"
    ∷ text "EXPERIMENTAL"
    ∷ text "HOUSE"
    ∷ text "LO-FI"
    ∷ text "HIP-HOP"
    ∷ text "POP"
    ∷ text "TECH"
    ∷ text "AMBIENT"
    ∷ []

abbrev pub allowed_moods : List Text
allowed_moods =
    text "Moody"
    ∷ text "Dark"
    ∷ text "Cinematic"
    ∷ text "Dreamy"
    ∷ text "Aggressive"
    ∷ text "Soulful"
    ∷ text "Melancholic"
    ∷ []

abbrev pub allowed_instruments : List Text
allowed_instruments =
    text "Piano"
    ∷ text "Guitar"
    ∷ text "Drums"
    ∷ text "Synth"
    ∷ text "Bass"
    ∷ text "Strings"
    ∷ text "Brass"
    ∷ text "808"
    ∷ text "Vocal"
    ∷ []

-- the types that the comparisons of a license's type accept
unfoldable pub known_license : Text → Option LicenseType
known_license s =
    if text_eq s (text "Basic")
    then some LicenseType.basic
    else if text_eq s (text "Premium")
    then some LicenseType.premium
    else if text_eq s (text "Trackout")
    then some LicenseType.trackout
    else if text_eq s (text "Unlimited")
    then some LicenseType.unlimited
    else none

abbrev pub license_eq : LicenseType → LicenseType → Bool
license_eq LicenseType.basic LicenseType.basic = true
license_eq LicenseType.premium LicenseType.premium = true
license_eq LicenseType.trackout LicenseType.trackout = true
license_eq LicenseType.unlimited LicenseType.unlimited = true
license_eq _ _ = false

abbrev pub license_or_refuse : Text → Result ValidationError LicenseType
license_or_refuse s = elim (known_license s) [
  | none ↦ err ValidationError.license_type
  | some t ↦ ok t
]

abbrev pub named : ListName → Result ListError (Unit {0}) → Result ValidationError (Unit {0})
named name (ok _) = ok tt
named name (err e) = err (ValidationError.list name e)

abbrev pub is_beat : Text → Bool
is_beat = text_eq (text "beat")

abbrev pub is_sample : Text → Bool
is_sample = text_eq (text "sample")

-- the loop of normalizeDatabaseArrays over spec.Licenses
abbrev pub storable_offer : {P : Type 0} → Offer P → Offer P
storable_offer o = record o { features = not_nil o.features; file_types = not_nil o.file_types }

unfoldable pub normalize_database_arrays : {P : Type 0} → Draft P → Draft P
normalize_database_arrays d = record d {
  moods = not_nil d.moods;
  instruments = not_nil d.instruments;
  licenses = map storable_offer d.licenses;
}

module _ (u : Unicode) (F : Prices) where
  abbrev pub is_price : F.Price → Bool
  is_price p = not (F.is_nan p || (F.is_inf p || F.is_negative p))

  -- a round of the loop over spec.Licenses, after the check of duplicates
  unfoldable pub check_offer : Offer F.Price → Result ValidationError (Unit {0})
  check_offer o = do
    let name_length = length (trim_space u o.name)
    refuse_if (ltb name_length 1 || ltb 100 name_length) ValidationError.license_name
    refuse_if (not (is_price o.price)) ValidationError.license_price
    named ListName.features (validate_string_list u 20 200 none (items o.features))
    named ListName.file_types (validate_string_list u 10 50 none (items o.file_types))

  -- the loop over spec.Licenses, with the types that it has seen
  unfoldable pub check_offers :
      List LicenseType → List (Offer F.Price) → Result ValidationError (Unit {0})
  check_offers seen [] = ok tt
  check_offers seen (o ∷ offers) = do
    t ← license_or_refuse o.license_type
    refuse_if (exists_where (license_eq t) seen) ValidationError.duplicate_license
    check_offer o
    check_offers (t ∷ seen) offers

  abbrev pub check_genres : List Text → Result ValidationError (Unit {0})
  check_genres [] = ok tt
  check_genres (g ∷ genres) = do
    refuse_if (not (exists_where (text_eq (to_upper u (trim_space u g))) allowed_genres))
        ValidationError.genre
    check_genres genres

  -- the part that only a beat goes through
  unfoldable pub check_beat : Draft F.Price → Result ValidationError (Unit {0})
  check_beat d = do
    refuse_if (ltb d.bpm 60 || ltb 300 d.bpm) ValidationError.bpm
    refuse_if (not (exists_where (text_eq (to_upper u (trim_space u d.key))) allowed_keys))
        ValidationError.key
    refuse_if (not (length d.genres == 1)) ValidationError.genre_count
    check_genres d.genres
    refuse_if (length d.licenses == 0) ValidationError.no_license
    check_offers [] d.licenses

  -- validateSpec on a spec whose arrays are normalized
  unfoldable pub check_spec : Draft F.Price → Result ValidationError (Unit {0})
  check_spec d = do
    let title_length = length (trim_space u d.title)
    refuse_if (title_length == 0) ValidationError.title_required
    refuse_if (ltb 100 title_length) ValidationError.title_length
    refuse_if (ltb 500 (length d.description)) ValidationError.description
    refuse_if (not (is_price d.base_price)) ValidationError.price
    refuse_if (not (is_beat d.category) && not (is_sample d.category)) ValidationError.category
    named ListName.tags (validate_string_list u 3 30 none d.tags)
    named ListName.moods (validate_string_list u 5 30 (some allowed_moods) (items d.moods))
    named ListName.instruments
        (validate_string_list u 5 30 (some allowed_instruments) (items d.instruments))
    if is_sample d.category then ok tt else check_beat d

  -- validateSpec, with the spec as it leaves it
  unfoldable pub validate_spec : Draft F.Price → Result ValidationError (Draft F.Price)
  validate_spec d = let d' = normalize_database_arrays d in check_spec d' >>= λ _. ok d'
