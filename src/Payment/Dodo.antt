-- ===== src/Payment/Dodo.antt =====
-- The Dodo webhook's signature and metadata: verifyDodoSignature, subtleCompareSignature,
-- extractDodoOrderMetadata and stringFromAny of
-- internal/modules/payment/application/service.go.
use mathlib.Core.List.{reverse}
use blueprint_audio_backend.Common.{
  ℕ, Bool, true, false, Option, none, some, List, [], ◌∷◌, ◌++◌, ◌==◌, ◌||◌, ◌&&◌, not,
  if◌then◌else◌, Text, text, text_eq, is_empty, exists_where,
}
use blueprint_audio_backend.Common.Strings.{Unicode, to_lower, trim_space}
use blueprint_audio_backend.Payment.Domain.{Value, null, str, object, other, Fields, get_field}

-- What the service reaches outside the repository: the Razorpay client, HMAC-SHA256 and the
-- encodings, encoding/json and uuid.Parse. The first argument of `fetch` numbers the call.
pub record Providers : Type 0 where
  pub unicode : Unicode
  pub hmac : Text → Text → Text
  pub hex : Text → Text
  pub base64_std : Text → Text
  pub decode_std : Text → Option Text
  pub decode_raw : Text → Option Text
  pub fetch : ℕ → Text → Option Fields
  pub unmarshal : Text → Option (Text × Fields)
  -- fmt.Sprintf("%v", value) of a map
  pub print_object : Fields → Text
  pub parse_uuid : Text → Option ℕ
  pub secret : Text
  pub webhook_key : Text

-- strings.CutPrefix
abbrev pub cut_prefix : Text → Text → Option Text
cut_prefix [] s = some s
cut_prefix (c ∷ pre) [] = none
cut_prefix (c ∷ pre) (d ∷ s) = let rest = cut_prefix pre s in if c == d then rest else none

-- strings.HasPrefix
abbrev pub has_prefix : Text → Text → Bool
has_prefix pre s = elim (cut_prefix pre s) [ none ↦ false | some _ ↦ true ]

-- strings.TrimPrefix
abbrev pub trim_prefix : Text → Text → Text
trim_prefix pre s = elim (cut_prefix pre s) [ none ↦ s | some rest ↦ rest ]

-- strings.FieldsFunc; `word` is the field read so far, backwards
abbrev pub fields_from : (ℕ → Bool) → Text → Text → List Text
fields_from sep word [] = if is_empty word then [] else reverse word ∷ []
fields_from sep word (c ∷ s) =
    let next = fields_from sep [] s in
    let more = fields_from sep (c ∷ word) s in
    if sep c then (if is_empty word then next else reverse word ∷ next) else more

abbrev pub is_separator : ℕ → Bool
is_separator c = c == b' ' || c == b','

-- one part of the header against the candidates; "v1" in either case is no signature
abbrev pub part_matches : Unicode → List Text → Text → Bool
part_matches u expected raw =
    let part = trim_space u (trim_prefix (text "v1=") raw) in
    not (text_eq part (text "v1") || text_eq part (text "V1") || is_empty part)
    && exists_where (text_eq part) expected

unfoldable pub subtle_compare_signature : Unicode → Text → List Text → Bool
subtle_compare_signature u received expected =
    exists_where (part_matches u expected) (fields_from is_separator [] received)
    || exists_where (text_eq (trim_space u received)) expected

module _ (p : Providers) where
  open p use {
    unicode, hmac, hex, base64_std, decode_std, decode_raw, print_object, parse_uuid, webhook_key,
  }

  -- the decoded key, where one of the two decoders accepts it
  abbrev pub decoded_keys : Text → List Text
  decoded_keys encoded = elim (decode_std encoded) [
    | some key ↦ key ∷ []
    | none ↦ elim (decode_raw encoded) [ some key ↦ key ∷ [] | none ↦ [] ]
  ]

  abbrev pub secret_keys : Text → List Text
  secret_keys secret = elim (cut_prefix (text "whsec_") secret) [
    | none ↦ secret ∷ []
    | some encoded ↦ secret ∷ (encoded ∷ decoded_keys encoded)
  ]

  abbrev pub signed_by : Text → Text → Text → Bool
  signed_by message signature key =
      let sum = hmac key message in
      subtle_compare_signature unicode signature (base64_std sum ∷ (hex sum ∷ []))

  -- verifyDodoSignature; true where it returns nil
  unfoldable pub verify_dodo_signature : Text → (Text → Text) → Bool
  verify_dodo_signature payload header =
      let secret = trim_space unicode webhook_key in
      let id = header (text "webhook-id") in
      let timestamp = header (text "webhook-timestamp") in
      let signature = header (text "webhook-signature") in
      let message = id ++ (text "." ++ (timestamp ++ (text "." ++ payload))) in
      not (is_empty secret)
      && (not (
            has_prefix (text "http://") (to_lower unicode secret)
            || has_prefix (text "https://") (to_lower unicode secret))
          && (not (is_empty id || is_empty timestamp || is_empty signature)
              && exists_where (signed_by message signature) (secret_keys secret)))

  -- stringFromAny
  abbrev pub string_from_any : Value → Text
  string_from_any null = []
  string_from_any (str s) = s
  string_from_any (object fields) = print_object fields
  string_from_any (other s) = s

  -- the order named by one candidate map
  abbrev pub order_in : Value → Option ℕ
  order_in (object meta) = parse_uuid (string_from_any (get_field (text "order_id") meta))
  order_in _ = none

  abbrev pub first_some : List (Option ℕ) → ℕ
  first_some [] = 0
  first_some (none ∷ rest) = first_some rest
  first_some (some id ∷ rest) = id

  -- extractDodoOrderMetadata, with 0 for uuid.Nil
  unfoldable pub extract_dodo_order_metadata : Fields → ℕ × Text
  extract_dodo_order_metadata fields =
      let named = string_from_any (get_field (text "payment_id") fields) in
      let payment_id =
        if is_empty named then string_from_any (get_field (text "id") fields) else named in
      (
        first_some (
            order_in (get_field (text "metadata") fields)
            ∷ (order_in (get_field (text "custom_data") fields)
                ∷ (order_in (get_field (text "custom_fields") fields)
                    ∷ (parse_uuid (string_from_any (get_field (text "order_id") fields)) ∷ [])))),
        payment_id,
      )
