-- ===== src/Payment/Soundness.antt =====
-- What VerifyPayment leaves in the store, on success and on error, where no other client acts
-- meanwhile.
use blueprint_audio_backend.Common.{
  ℕ, true, Option, none, some, [], ◌∷◌, ◌≡◌, arith, find_where, Text, text, text_eq,
}
use blueprint_audio_backend.Db.{Env, World}
use blueprint_audio_backend.Db.Outcomes.{Yields, Outcome-map, >>=-Yields}
use blueprint_audio_backend.Payment.Domain.{
  Order, OrderStatus, License, Fields, is_pending, as_string, get_field, license_failed,
}
use blueprint_audio_backend.Payment.Dodo.{Providers}
use blueprint_audio_backend.Payment.Repositories.{
  Store, Action, order_is, get_order_by_id, update_status,
}
use blueprint_audio_backend.Payment.Invariant.{IsConsistent}
use blueprint_audio_backend.Payment.Service.{
  generate_signature, issue_license, check_payment, check_order, confirm_payment, verify_payment,
  settle_order, replace_error, non_empty, is_captured,
}
use blueprint_audio_backend.Payment.Steps.{
  Licensed, Checked, update_status-Yields, issue_license-Yields, replace_error-Yields,
  settle_order-Yields,
}

-- the stored order is pending, its payment is signed, and the provider answers a fetch of the
-- payment with fields that report it captured
abbrev pub Verified : Providers → ℕ → Text → Text → Store → Order → Fields → Type 0
Verified p id payment_id signature s order fields =
    (find_where (order_is id) s.orders ≡ some order)
    × (is_pending order.status ≡ true)
    × ((razorpay_id : Text) × (order.razorpay_order_id ≡ some razorpay_id)
        × (text_eq (generate_signature p razorpay_id payment_id) signature ≡ true))
    × (is_captured p fields ≡ true)
    × ((n : ℕ) × (p.fetch n payment_id ≡ some fields))

module _ (p : Providers) (env : Env) (id : ℕ) where
  module _ (payment_id signature : Text) where
    non_empty-some : (o : Option Text) (t : Text) → non_empty p o ≡ some t → o ≡ some t
    non_empty-some none t h = cc
    non_empty-some (some []) t h = cc
    non_empty-some (some (c ∷ s)) t h = h

    rejected :
        (w : World Store) (o : Order)
        → IsConsistent w.store
        → find_where (order_is id) w.store.orders ≡ some o
        → is_pending o.status ≡ true
        → IsConsistent (update_status id OrderStatus.failed env w).1.store
    rejected w o v f h = update_status-Yields p env id o w OrderStatus.failed (v, f, h)

    check_payment-Yields :
        (w : World Store)
        → IsConsistent w.store
        → Yields
            (check_payment p id payment_id signature)
            env
            w
            (λ r t.
              Checked p id payment_id signature r.0 r.1 t
              × Verified p id payment_id signature w.store r.0 r.1)
            IsConsistent
    unfolding check_payment check_order confirm_payment get_order_by_id
    check_payment-Yields w v = grind (arith, rejected, non_empty-some)

    -- VerifyPayment, called where the payment tables are consistent, with no other client's call in
    -- between. Where it succeeds, the order
    -- was stored and pending, the caller's signature is the provider's over the order's Razorpay identifier
    -- and the payment's, the provider answers a fetch of
    -- this payment with fields that report it captured, the tables are consistent,
    -- the order is paid, and the license is stored, with the order's buyer, spec and amount.
    -- Where it fails, the tables are consistent too.
    pub verify_payment-Yields :
        (w : World Store)
        → IsConsistent w.store
        → Yields
            (verify_payment p id payment_id signature)
            env
            w
            (λ l t.
              (order : Order) × (fields : Fields) × Verified p id payment_id signature w.store order
                fields
              × Licensed id order l t)
            IsConsistent
    unfolding verify_payment
    verify_payment-Yields w v =
        let settled : Order × Fields → Action License = λ r.
          settle_order p (replace_error (issue_license p r.0) license_failed) id r.0 payment_id
            signature (as_string (get_field (text "method") r.1))
            (as_string (get_field (text "email") r.1)) in
        let R : License → Store → Type 0 = λ l t.
          (o : Order) × (f : Fields) × Verified p id payment_id signature w.store o f
          × Licensed id o l t in
        >>=-Yields (check_payment p id payment_id signature) settled env w
          (λ r t.
            Checked p id payment_id signature r.0 r.1 t
            × Verified p id payment_id signature w.store r.0 r.1)
          R IsConsistent (check_payment-Yields w v)
          (λ r w1 h.
            Outcome-map (Licensed id r.0) R IsConsistent (settled r env w1).0
              (settled r env w1).1.store (λ l t k. (r.0, r.1, h.1, k))
              (settle_order-Yields p env id (replace_error (issue_license p r.0) license_failed) r.0
                w1 payment_id signature _ _
                (λ w2 h2.
                  replace_error-Yields (issue_license p r.0) license_failed env w2 (Licensed id r.0)
                    IsConsistent (issue_license-Yields p env id r.0 w2 h2))
                h.0.0))
