-- ===== src/Listing/Draft.antt =====
-- What a producer states of a spec: the fields of domain.Spec and domain.LicenseOption in
-- internal/modules/catalog/domain/spec.go that the checks read, as they are decoded. A slice that
-- may be nil is an Option; a tempo below 0, which is refused as 0 is, is 0.
use blueprint_audio_backend.Common.{ℕ, Bool, Option, none, some, List, [], Text}

-- float64, as far as prices are checked
pub record Prices : Type 1 where
  pub Price : Type 0
  pub is_nan : Price → Bool
  pub is_inf : Price → Bool
  pub is_negative : Price → Bool

pub record Offer (P : Type 0) : Type 0 where
  pub license_type : Text
  pub name : Text
  pub price : P
  pub price_currency : Text
  pub features : Option (List Text)
  pub file_types : Option (List Text)

pub record Draft (P : Type 0) : Type 0 where
  pub title : Text
  pub description : Text
  pub category : Text
  pub base_price : P
  pub price_currency : Text
  pub tags : List Text
  pub moods : Option (List Text)
  pub instruments : Option (List Text)
  pub bpm : ℕ
  pub key : Text
  pub genres : List Text
  pub licenses : List (Offer P)

-- the values of a slice
abbrev pub items : Option (List Text) → List Text
items none = []
items (some xs) = xs

-- `if s == nil { s = []string{} }`
abbrev pub not_nil : Option (List Text) → Option (List Text)
not_nil s = some (items s)
