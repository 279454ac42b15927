-- ===== src/Payment/Domain.antt =====
-- internal/modules/payment/domain/models.go, and the values of a decoded JSON object.
--
-- Identifiers and times are numbers as in Catalog/Domain; amounts are in minor units.
use blueprint_audio_backend.Common.{
  ℕ, Bool, true, false, Option, none, some, Text, text_eq, if◌then◌else◌,
}

-- a Go `any` that encoding/json decodes; `other` prints as its text under %v
mutual
  pub data Value : Type 0 where
    null : Value
    str : Text → Value
    object : Fields → Value
    other : Text → Value

  pub data Fields : Type 0 where
    end : Fields
    field : Text → Value → Fields → Fields

-- `m[key]`, nil on a missing key
abbrev pub get_field : Text → Fields → Value
get_field key end = null
get_field key (field k v rest) = if text_eq k key then v else get_field key rest

-- `value.(string)` with its ok
abbrev pub as_string : Value → Option Text
as_string (str s) = some s
as_string _ = none

pub data OrderStatus : Type 0 where
  pending processing paid failed cancelled refunded : OrderStatus

pub data PaymentStatus : Type 0 where
  pending captured failed refunded : PaymentStatus

pub record Order : Type 0 where
  pub id : ℕ
  pub user_id : ℕ
  pub spec_id : ℕ
  pub license_type : Text
  pub amount : ℕ
  pub currency : Text
  pub razorpay_order_id : Option Text
  pub provider : Text
  pub provider_checkout_id : Option Text
  pub status : OrderStatus
  pub notes : Fields
  pub created_at : ℕ
  pub updated_at : ℕ
  pub expires_at : ℕ

-- The bank, wallet and card columns stay null in every operation here.
pub record Payment : Type 0 where
  pub id : ℕ
  pub order_id : ℕ
  pub razorpay_payment_id : Text
  pub razorpay_signature : Text
  pub amount : ℕ
  pub currency : Text
  pub status : PaymentStatus
  pub method : Option Text
  pub email : Option Text
  pub captured_at : Option ℕ
  pub created_at : ℕ
  pub updated_at : ℕ

pub record License : Type 0 where
  pub id : ℕ
  pub order_id : ℕ
  pub user_id : ℕ
  pub spec_id : ℕ
  pub license_option_id : ℕ
  pub license_type : Text
  pub purchase_price : ℕ
  pub currency : Text
  -- "LIC-" and this identifier
  pub license_key : ℕ
  pub is_active : Bool
  pub is_revoked : Bool
  pub revoked_reason : Option Text
  pub revoked_at : Option ℕ
  pub downloads_count : ℕ
  pub last_downloaded_at : Option ℕ
  pub issued_at : ℕ
  pub created_at : ℕ
  pub updated_at : ℕ

-- the errors that the service and its repositories return
pub data Error : Type 0 where
  database uuid unsigned malformed_payload missing_order_id order_not_found : Error
  already_processed not_payable order_expired expired_update_failed invalid_order_state : Error
  invalid_signature signature_update_failed fetch_failed not_captured captured_update_failed : Error
  license_option_missing invalid_license_option license_failed : Error
  license_not_found not_owner not_active revoked spec_not_found : Error

abbrev pub is_pending : OrderStatus → Bool
is_pending OrderStatus.pending = true
is_pending _ = false

abbrev pub is_paid : OrderStatus → Bool
is_paid OrderStatus.paid = true
is_paid _ = false
