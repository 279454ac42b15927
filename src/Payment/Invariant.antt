-- ===== src/Payment/Invariant.antt =====
-- What holds of orders, payments and licenses before and after a call of the service that no other
-- call overlaps.
use mathlib.Core.Option
use blueprint_audio_backend.Common.{
  ℕ, Option, some, List, [], ◌∷◌, ◌++◌, ◌==◌, ◌≡◌, ◌≢◌, ◌∙◌, refl, sym, ap, arith, inl, inr, In,
  find_where, update_where, if◌then◌else◌,
}
use blueprint_audio_backend.Common.Table.Laws.{In-append}
use blueprint_audio_backend.Payment.Domain.{Order, OrderStatus, Payment, PaymentStatus, License}
use blueprint_audio_backend.Payment.Repositories.{Store, order_is}

-- the status of an order by its identifier
abbrev pub status_of : ℕ → List Order → Option OrderStatus
status_of id orders = Option.map (λ o. o.status) (find_where (order_is id) orders)

-- a captured payment of this order and this amount
abbrev pub Captured : ℕ → ℕ → Store → Type 0
Captured order_id amount s =
    (p : Payment) × In p s.payments
    × (p.order_id ≡ order_id)
    × (p.status ≡ PaymentStatus.captured)
    × (p.amount ≡ amount)

pub record IsConsistent (s : Store) : Type 0 where
  -- every license belongs to an order that is paid,
  pub paid : (l : License) → In l s.licenses → status_of l.order_id s.orders ≡ some OrderStatus.paid
  -- for which its whole price was captured,
  pub captured : (l : License) → In l s.licenses → Captured l.order_id l.purchase_price s
  -- and an order has one license at most
  pub single : (a b : License) → In a s.licenses → In b s.licenses → a.order_id ≡ b.order_id → a ≡ b

abbrev pub Unlicensed : ℕ → Store → Type 0
Unlicensed order_id s = (l : License) → In l s.licenses → l.order_id ≢ order_id

pub In-left : {A : Type 0} (x : A) (xs ys : List A) → In x xs → In x (xs ++ ys)
In-left x [] ys m = absurd m
In-left x (y ∷ xs) ys (inl e) = inl e
In-left x (y ∷ xs) ys (inr m) = inr (In-left x xs ys m)

pub In-last : {A : Type 0} (x : A) (xs : List A) → In x (xs ++ x ∷ [])
In-last x [] = inl refl
In-last x (y ∷ xs) = inr (In-last x xs)

pub status-set :
    (id : ℕ) (st : OrderStatus) (now k : ℕ) (orders : List Order)
    → status_of k
        (update_where (order_is id) (λ o. record o { status = st; updated_at = now }) orders)
      ≡ (if k == id then Option.map (λ _. st) (status_of k orders) else status_of k orders)
status-set id st now k [] = ground arith
status-set id st now k (o ∷ orders) = ground (arith, status-set id st now k orders)

module _ (s : Store) (v : IsConsistent s) where
  pub unlicensed : (id : ℕ) → status_of id s.orders ≡ some OrderStatus.pending → Unlicensed id s
  unlicensed id h l m e = ground (arith, v.paid l m)

  abbrev pub with_status : ℕ → OrderStatus → ℕ → Store
  with_status id st now = record s {
    orders = update_where (order_is id) (λ o. record o { status = st; updated_at = now }) s.orders;
  }

  -- the status of an order without a license may change
  pub status-IsConsistent :
      (id : ℕ) (st : OrderStatus) (now : ℕ) → Unlicensed id s → IsConsistent (with_status id st now)
  status-IsConsistent id st now none_yet = record {
    paid =
        λ l m. ground (arith, status-set id st now l.order_id s.orders, v.paid l m, none_yet l m);
    captured = v.captured;
    single = v.single;
  }

  pub payment-IsConsistent :
      (p : Payment) → IsConsistent (record s { payments = s.payments ++ p ∷ [] })
  payment-IsConsistent p = record {
    paid = v.paid;
    captured = λ l m.
        let (q, mq, o, st, am) = v.captured l m in (q, In-left q s.payments (p ∷ []) mq, o, st, am);
    single = v.single;
  }

  pub license-IsConsistent :
      (l : License)
      → status_of l.order_id s.orders ≡ some OrderStatus.paid
      → Captured l.order_id l.purchase_price s
      → Unlicensed l.order_id s
      → IsConsistent (record s { licenses = s.licenses ++ l ∷ [] })
  license-IsConsistent l is_paid has_payment none_yet = record {
    paid =
        λ x m. elim (In-append s.licenses l x m) [ inl old ↦ v.paid x old | inr e ↦ rw e is_paid ];
    captured = λ x m. elim (In-append s.licenses l x m) [
      | inl old ↦ v.captured x old
      | inr e ↦ rw e has_payment
    ];
    single = λ a b ma mb e. elim (In-append s.licenses l a ma) [
      | inl ia ↦ elim (In-append s.licenses l b mb) [
        | inl ib ↦ v.single a b ia ib e
        | inr eb ↦ absurd (none_yet a ia (e ∙ ap (λ x. x.order_id) eb))
      ]
      | inr ea ↦ elim (In-append s.licenses l b mb) [
        | inl ib ↦ absurd (none_yet b ib (sym e ∙ ap (λ x. x.order_id) ea))
        | inr eb ↦ ea ∙ sym eb
      ]
    ];
  }
