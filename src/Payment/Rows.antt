-- ===== src/Payment/Rows.antt =====
-- What one row that a payment call writes does to the tables.
use blueprint_audio_backend.Common.{
  ℕ, ◌+◌, Bool, true, false, ◌≢◌, ◌||◌, ◌∙◌, sym, ap, In, List, [], ◌∷◌, ◌++◌, ◌==◌, ◌≡◌, refl,
  arith, inl, inr, update_where, touch, count_where, if◌then◌else◌, Bool-cases,
}
use blueprint_audio_backend.Common.Table.Laws.{In-append, In-update_where, exists_false}
use blueprint_audio_backend.Payment.Domain.{Order, Payment, PaymentStatus, License}
use blueprint_audio_backend.Payment.Repositories.{Store, payment_violates}
use blueprint_audio_backend.Payment.Invariant.{Captured, In-left, In-last}
use blueprint_audio_backend.Payment.Clients.{Client}
use blueprint_audio_backend.Payment.Backing.{
  IsBacked, AllBacked, Distinct, pays, Knows, Read, IsFair,
}
use blueprint_audio_backend.Common.Strings.{text_eq, text_eq_refl}

count-append :
    {A : Type 0} (q : A → Bool) (xs : List A) (x : A)
    → count_where q (xs ++ x ∷ []) ≡ count_where q xs + (if q x then 1 else 0)
count-append q [] x = ground arith
count-append q (y ∷ xs) x = ground (arith, count-append q xs x)

count-update :
    (q : License → Bool) (f : License → License) (k : ℕ) (ls : List License)
    → ((l : License) → (f l).order_id ≡ l.order_id)
    → count_where (λ (l : License). l.order_id == k) (update_where q f ls)
      ≡ count_where (λ (l : License). l.order_id == k) ls
count-update q f k [] h = refl
count-update q f k (l ∷ ls) h = ground (arith, count-update q f k ls h, h l)

module _ (s : Store) (v : AllBacked s) where
  -- the unique identifier keeps a second payment with it out
  unseen :
      (row a : Payment)
      → payment_violates row s ≡ false
      → In a s.payments
      → a.razorpay_payment_id ≢ row.razorpay_payment_id
  unseen row a fits m e =
      let known : Payment → Bool =
        λ r. r.id == row.id || text_eq r.razorpay_payment_id row.razorpay_payment_id in
      let no : known a ≡ false = exists_false known s.payments a (ground arith) m in
      let same : text_eq a.razorpay_payment_id row.razorpay_payment_id ≡ true =
        rw e (text_eq_refl row.razorpay_payment_id) in
      ground arith

  added : (row : Payment) → payment_violates row s ≡ false → Distinct (s.payments ++ row ∷ [])
  added row fits a b ma mb e = elim (In-append s.payments row a ma) [
    | inl ia ↦ elim (In-append s.payments row b mb) [
      | inl ib ↦ v.distinct a b ia ib e
      | inr eb ↦ absurd (unseen row a fits ia (e ∙ ap (λ x. x.razorpay_payment_id) eb))
    ]
    | inr ea ↦ elim (In-append s.payments row b mb) [
      | inl ib ↦ absurd (unseen row b fits ib (sym e ∙ ap (λ x. x.razorpay_payment_id) ea))
      | inr eb ↦ ea ∙ sym eb
    ]
  ]

  -- a captured payment is recorded
  pub payment-IsFair :
      (row : Payment) (id : ℕ) (order : Order) (c : Client)
      → row.order_id ≡ id
      → row.status ≡ PaymentStatus.captured
      → row.amount ≡ order.amount
      → Read id order s
      → payment_violates row s ≡ false
      → IsFair c s (Client.recorded id order) (record s { payments = s.payments ++ row ∷ [] })
  payment-IsFair row id order c a b e h fits =
      let t : Store = record s { payments = s.payments ++ row ∷ [] } in
      let kept : (i m : ℕ) → Captured i m s → Captured i m t =
        λ i m (q, mq, x, y, z). (q, In-left q s.payments (row ∷ []) mq, x, y, z) in
      record {
        grows = record { ordered = λ _ _ _ _ x. x; captured = kept };
        backed = record {
          sold = λ l m. let b' = v.sold l m in (b'.0, kept l.order_id l.purchase_price b'.1);
          distinct = added row fits;
        };
        knows = (h, (row, In-last row s.payments, a, b, e));
        fair = λ k. ground (arith, count-append (pays k) s.payments row);
      }

  -- the license that a recorded payment pays for is issued
  pub license-IsFair :
      (l : License) (order : Order)
      → l.order_id ≡ order.id
      → l.user_id ≡ order.user_id
      → l.spec_id ≡ order.spec_id
      → l.purchase_price ≡ order.amount
      → Knows (Client.paid order) s
      → IsFair (Client.paid order) s Client.ended (record s { licenses = s.licenses ++ l ∷ [] })
  license-IsFair l order a b c d h = record {
    grows = record { ordered = λ _ _ _ _ x. x; captured = λ _ _ x. x };
    backed = record {
      sold = λ x m. elim (In-append s.licenses l x m) [
        | inl old ↦ v.sold x old
        | inr e ↦ rw (e, a, b, c, d) (h.0.1, h.1)
      ];
      distinct = v.distinct;
    };
    knows = tt;
    fair = λ k. ground (arith, count-append (λ (x : License). x.order_id == k) s.licenses l);
  }

  -- a change of licenses that keeps what they were sold for
  pub change-IsFair :
      (q : License → Bool) (f : License → License) (c : Client)
      → ((l : License) → (f l).order_id ≡ l.order_id)
      → ((l : License) → IsBacked l s → IsBacked (f l) s)
      → IsFair c s Client.ended (record s { licenses = update_where q f s.licenses })
  change-IsFair q f c same kept = record {
    grows = record { ordered = λ _ _ _ _ x. x; captured = λ _ _ x. x };
    backed = record {
      sold = λ l m.
          let (x, mx, e) = In-update_where q f s.licenses l m in rw e (touched x (v.sold x mx));
      distinct = v.distinct;
    };
    knows = tt;
    fair = λ k. ground (arith, count-update q f k s.licenses same);
  }
    where
      touched : (x : License) → IsBacked x s → IsBacked (touch q f x) s
      touched x h = elim (Bool-cases (q x)) [ inl e ↦ rw e (kept x h) | inr e ↦ rw e h ]
