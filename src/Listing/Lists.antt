-- ===== src/Listing/Lists.antt =====
-- validateStringList of internal/modules/catalog/application/validation.go.
use blueprint_audio_backend.Common.{
  ℕ, Bool, true, false, Option, none, some, List, [], ◌∷◌, ◌≡◌, ◌||◌, ◌&&◌, not, leb, refl, arith,
  ltb, length, if◌then◌else◌, exists_where, Text, text_eq, is_empty,
}
use blueprint_audio_backend.Common.Strings.{Unicode, to_lower, trim_space}
use blueprint_audio_backend.Db.{Result, ok}
use blueprint_audio_backend.Db.Results.{◌>>◌, refuse_if, is_ok}

pub data ListError : Type 0 where
  too_many invalid duplicate : ListError

-- the keys of a set of strings, where there is one
abbrev pub allows : Option (List Text) → Text → Bool
allows none value = true
allows (some allowed) value = exists_where (text_eq value) allowed

module _ (u : Unicode) where
  -- a value that the loop accepts, apart from the values before it
  unfoldable pub is_value : ℕ → Option (List Text) → Text → Bool
  is_value value_max allowed value =
      let v = trim_space u value in
      if is_empty v || ltb value_max (length v) then false else allows allowed v

  -- the key under which the loop remembers a value
  unfoldable pub list_key : Text → Text
  list_key value = to_lower u (trim_space u value)

  -- the loop over the values, with the keys that it has seen
  unfoldable pub check_values :
      ℕ → Option (List Text) → List Text → List Text → Result ListError (Unit {0})
  check_values value_max allowed seen [] = ok tt
  check_values value_max allowed seen (value ∷ values) = do
    refuse_if (not (is_value value_max allowed value)) ListError.invalid
    refuse_if (exists_where (text_eq (list_key value)) seen) ListError.duplicate
    check_values value_max allowed (list_key value ∷ seen) values

  unfoldable pub validate_string_list :
      ℕ → ℕ → Option (List Text) → List Text → Result ListError (Unit {0})
  validate_string_list max value_max allowed values = do
    refuse_if (ltb max (length values)) ListError.too_many
    check_values value_max allowed [] values

  -- Of the values, no two are equal without their outer spaces and in lower case.
  abbrev pub all_distinct : List Text → Bool
  all_distinct [] = true
  all_distinct (value ∷ values) =
      let rest = all_distinct values in
      if exists_where (λ w. text_eq (list_key w) (list_key value)) values then false else rest

  abbrev pub all_values : ℕ → Option (List Text) → List Text → Bool
  all_values value_max allowed [] = true
  all_values value_max allowed (value ∷ values) =
      let rest = all_values value_max allowed values in
      if is_value value_max allowed value then rest else false

  unseen : List Text → List Text → Bool
  unseen seen [] = true
  unseen seen (value ∷ values) =
      let rest = unseen seen values in
      if exists_where (text_eq (list_key value)) seen then false else rest

  unseen-cons :
      (k : Text) (seen values : List Text)
      → unseen (k ∷ seen) values
        ≡ (not (exists_where (λ w. text_eq (list_key w) k) values) && unseen seen values)
  unfolding unseen
  unseen-cons k seen [] = refl
  unseen-cons k seen (value ∷ values) = ground (arith, unseen-cons k seen values)

  unseen-nil : (values : List Text) → unseen [] values ≡ true
  unfolding unseen
  unseen-nil [] = refl
  unseen-nil (value ∷ values) = unseen-nil values

  is_ok-check_values :
      (value_max : ℕ) (allowed : Option (List Text)) (seen values : List Text)
      → is_ok (check_values value_max allowed seen values)
        ≡ (all_values value_max allowed values && (unseen seen values && all_distinct values))
  unfolding check_values unseen
  is_ok-check_values value_max allowed seen [] = refl
  is_ok-check_values value_max allowed seen (value ∷ values) = ground (
    arith,
    is_ok-check_values value_max allowed (list_key value ∷ seen) values,
    unseen-cons (list_key value) seen values,
  )

  -- validateStringList accepts a list exactly where it has at most `max` values, each is, without its
  -- outer spaces, not empty, of at most `value_max` characters and one of the allowed where there is such
  -- a set, and no two are equal without their outer spaces and in lower case.
  pub validate_string_list_iff :
      (max value_max : ℕ) (allowed : Option (List Text)) (values : List Text)
      → is_ok (validate_string_list max value_max allowed values)
        ≡ (leb (length values) max && (all_values value_max allowed values && all_distinct values))
  unfolding validate_string_list
  validate_string_list_iff max value_max allowed values =
      ground (arith, is_ok-check_values value_max allowed [] values, unseen-nil values)
