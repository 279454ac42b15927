-- ===== src/Payment/Service.antt =====
-- internal/modules/payment/application/service.go: VerifyPayment, HandleDodoWebhook,
-- issueLicense and what they call. The receipt e-mail, sent by a goroutine, writes no table.
use blueprint_audio_backend.Common.{
  ℕ, suc, Bool, true, false, Option, none, some, [], ◌∷◌, ◌++◌, ◌==◌, not, ltb, if◌then◌else◌, Text,
  text, text_eq, is_empty,
}
use blueprint_audio_backend.Common.Strings.{to_lower}
use blueprint_audio_backend.Payment.Dodo.{
  Providers, verify_dodo_signature, extract_dodo_order_metadata,
}
use blueprint_audio_backend.Db.{
  ok, err, pure, fail, fail_if, fail_none, ◌>>=◌, ◌>>◌, time_now, new_uuid,
}
use blueprint_audio_backend.Payment.Domain.{
  Fields, get_field, as_string, Order, OrderStatus, Payment, PaymentStatus, License, Error, uuid,
  unsigned, malformed_payload, missing_order_id, order_not_found, already_processed, not_payable,
  order_expired, expired_update_failed, invalid_order_state, invalid_signature,
  signature_update_failed, fetch_failed, not_captured, captured_update_failed,
  license_option_missing, invalid_license_option, license_failed, is_pending, is_paid,
}
use blueprint_audio_backend.Payment.Repositories.{
  Action, get_order_by_id, update_status, create_payment, create_license,
}

-- `x, err := m; if err != nil { return …, e }`
abbrev pub replace_error : {A : Type 0} → Action A → Error → Action A
replace_error m e env w = let (r, w') = m env w in (elim r [ ok a ↦ ok a | err _ ↦ err e ], w')

-- a settlement that an event asks for: the order, the payment and the signature
abbrev pub Event : Type 0
Event = Option (ℕ × Text × Text)

module _ (p : Providers) where
  open p use {unicode, hmac, hex, unmarshal, parse_uuid, secret}

  unfoldable pub generate_signature : Text → Text → Text
  generate_signature order_id payment_id = hex (hmac secret (order_id ++ (text "|" ++ payment_id)))

  -- the license that issueLicense creates for an order
  abbrev pub license_of : Order → ℕ → ℕ → ℕ → License
  license_of order option_id key issued = record {
    id = 0;
    order_id = order.id;
    user_id = order.user_id;
    spec_id = order.spec_id;
    license_option_id = option_id;
    license_type = order.license_type;
    purchase_price = order.amount;
    currency = order.currency;
    license_key = key;
    is_active = true;
    is_revoked = false;
    revoked_reason = none;
    revoked_at = none;
    downloads_count = 0;
    last_downloaded_at = none;
    issued_at = issued;
    created_at = 0;
    updated_at = 0;
  }

  unfoldable pub issue_license : Order → Action License
  issue_license order = do
    option_text ←
        fail_none (as_string (get_field (text "license_option_id") order.notes))
          license_option_missing
    option_id ← fail_none (parse_uuid option_text) invalid_license_option
    key ← new_uuid uuid
    issued ← time_now
    create_license (license_of order option_id key issued)

  -- `UpdateStatus(failed)`, then the error that the caller gets
  abbrev pub reject_order : {A : Type 0} → ℕ → Error → Error → Action A
  reject_order id update_failed reason = do
    replace_error (update_status id OrderStatus.failed) update_failed
    fail reason

  abbrev pub reject_if : Bool → ℕ → Error → Error → Action (Unit {0})
  reject_if c id update_failed reason env w =
      if c then reject_order id update_failed reason env w else pure tt env w

  abbrev pub non_empty : Option Text → Option Text
  non_empty none = none
  non_empty (some []) = none
  non_empty (some (c ∷ s)) = some (c ∷ s)

  -- razorpayClient.Payment.Fetch
  abbrev pub fetch_payment : Text → Action Fields
  fetch_payment payment_id env w = (
    elim (p.fetch w.tick payment_id) [ none ↦ err fetch_failed | some fields ↦ ok fields ],
    record w { tick = suc w.tick },
  )

  abbrev pub text_or_empty : Option Text → Text
  text_or_empty none = []
  text_or_empty (some s) = s

  -- `strings.ToLower(paymentStatus) != "captured"`, where a missing status is ""
  abbrev pub is_captured : Fields → Bool
  is_captured fields =
      text_eq (to_lower unicode (text_or_empty (as_string (get_field (text "status") fields))))
        (text "captured")

  abbrev pub captured_payment : ℕ → Order → Text → Text → Option Text → Option Text → ℕ → Payment
  captured_payment order_id order payment_id signature method email now = record {
    id = 0;
    order_id = order_id;
    razorpay_payment_id = payment_id;
    razorpay_signature = signature;
    amount = order.amount;
    currency = order.currency;
    status = PaymentStatus.captured;
    method = method;
    email = email;
    captured_at = some now;
    created_at = 0;
    updated_at = 0;
  }

  -- VerifyPayment's last checks: the signature, and Razorpay's answer
  unfoldable pub confirm_payment : ℕ → Text → Text → Text → Action Fields
  confirm_payment order_id razorpay_id payment_id signature = do
    reject_if (not (text_eq (generate_signature razorpay_id payment_id) signature)) order_id
        signature_update_failed invalid_signature
    fields ← fetch_payment payment_id
    reject_if (not (is_captured fields)) order_id captured_update_failed not_captured
    pure fields

  -- VerifyPayment between the order's lookup and the recorded payment, in the order of the source
  unfoldable pub check_order : ℕ → Order → Text → Text → Action Fields
  check_order order_id order payment_id signature = do
    fail_if (not (is_pending order.status)) already_processed
    checked_at ← time_now
    reject_if (ltb order.expires_at checked_at) order_id expired_update_failed order_expired
    razorpay_id ← fail_none (non_empty order.razorpay_order_id) invalid_order_state
    confirm_payment order_id razorpay_id payment_id signature

  -- VerifyPayment up to the recorded payment
  unfoldable pub check_payment : ℕ → Text → Text → Action (Order × Fields)
  check_payment order_id payment_id signature = do
    order ← replace_error (get_order_by_id order_id) order_not_found
    fields ← check_order order_id order payment_id signature
    pure (order, fields)

  -- the captured payment is recorded
  abbrev pub record_payment :
      ℕ → Order → Text → Text → Option Text → Option Text → Action (Unit {0})
  record_payment order_id order payment_id signature method email = do
    now ← time_now
    create_payment (captured_payment order_id order payment_id signature method email now)

  -- the captured payment is recorded, the order is paid, and its license is issued by `issue`
  unfoldable pub settle_order :
      Action License → ℕ → Order → Text → Text → Option Text → Option Text → Action License
  settle_order issue order_id order payment_id signature method email = do
    record_payment order_id order payment_id signature method email
    update_status order_id OrderStatus.paid
    issue

  -- PaymentService.VerifyPayment
  unfoldable pub verify_payment : ℕ → Text → Text → Action License
  verify_payment order_id payment_id signature = do
    (order, fields) ← check_payment order_id payment_id signature
    settle_order (replace_error (issue_license order) license_failed) order_id order payment_id
        signature (as_string (get_field (text "method") fields))
        (as_string (get_field (text "email") fields))

  -- a paid order is left as it is; any other must be pending
  abbrev pub pay_unless_paid : Order → Text → Text → Action (Unit {0})
  pay_unless_paid order payment_id signature env w =
      if is_paid order.status
      then pure tt env w
      else if is_pending order.status
      then (settle_order (issue_license order) order.id order payment_id signature none none
            >> pure tt)
          env w
      else fail not_payable env w

  -- HandleDodoWebhook from the order's lookup on
  unfoldable pub settle_webhook : ℕ → Text → Text → Action (Unit {0})
  settle_webhook order_id payment_id signature = do
    order ← replace_error (get_order_by_id order_id) order_not_found
    pay_unless_paid order payment_id signature

  -- `event.Type` and the identifiers that the event names
  abbrev pub if_succeeded : Bool → ℕ → Text → Text → Action Event
  if_succeeded succeeded order_id payment_id signature env w =
      if succeeded
      then (if order_id == 0
          then fail missing_order_id env w
          else pure (some (order_id, payment_id, signature)) env w)
      else pure none env w

  -- HandleDodoWebhook up to the order's lookup; `header` looks a header up, "" where it is missing
  unfoldable pub read_event : Text → (Text → Text) → Action Event
  read_event payload header = do
    fail_if (not (verify_dodo_signature p payload header)) unsigned
    (kind, fields) ← fail_none (unmarshal payload) malformed_payload
    let (order_id, payment_id) = extract_dodo_order_metadata p fields
    if_succeeded (text_eq kind (text "payment.succeeded")) order_id
        (if is_empty payment_id then header (text "webhook-id") else payment_id)
        (header (text "webhook-signature"))

  abbrev pub settle_event : Event → Action (Unit {0})
  settle_event none = pure tt
  settle_event (some (order_id, payment_id, signature)) =
      settle_webhook order_id payment_id signature

  -- PaymentService.HandleDodoWebhook
  unfoldable pub handle_dodo_webhook : Text → (Text → Text) → Action (Unit {0})
  handle_dodo_webhook payload header = do event ← read_event payload header; settle_event event
