-- ===== src/Payment/Steps.antt =====
-- The steps of a payment, one by one: what each leaves in the store, on success and on error.
use blueprint_audio_backend.Common.{
  ℕ, suc, Bool, true, false, Option, some, [], ◌∷◌, ◌++◌, ◌≡◌, refl, arith, not, In, find_where,
  Text, text_eq,
}
use blueprint_audio_backend.Common.Table.Laws.{find_holds}
use blueprint_audio_backend.Db.{Env, World, ◌>>=◌}
use blueprint_audio_backend.Db.Outcomes.{Yields, >>=-Yields}
use blueprint_audio_backend.Payment.Domain.{
  Order, OrderStatus, Payment, PaymentStatus, License, Fields, is_pending, Error,
}
use blueprint_audio_backend.Payment.Dodo.{Providers}
use blueprint_audio_backend.Payment.Repositories.{
  Store, Action, order_is, update_status, create_payment, create_license,
}
use blueprint_audio_backend.Payment.Invariant.{
  IsConsistent, status_of, Captured, Unlicensed, unlicensed, status-set, status-IsConsistent,
  payment-IsConsistent, license-IsConsistent, In-last,
}
use blueprint_audio_backend.Payment.Service.{
  generate_signature, issue_license, settle_order, replace_error, reject_if, is_captured,
  captured_payment,
}

-- a valid store in which the order is stored, and pending
abbrev pub Ready : ℕ → Order → Store → Type 0
Ready id order s =
    IsConsistent s
    × (find_where (order_is id) s.orders ≡ some order)
    × (is_pending order.status ≡ true)

-- a valid store with the order paid, its price captured, and no license issued for it yet
abbrev pub Settled : ℕ → Order → Store → Type 0
Settled id order s =
    IsConsistent s
    × (order.id ≡ id)
    × (status_of id s.orders ≡ some OrderStatus.paid)
    × Captured id order.amount s
    × Unlicensed id s

pub Ready-pending :
    (id : ℕ) (order : Order) (s : Store)
    → Ready id order s
    → status_of id s.orders ≡ some OrderStatus.pending
Ready-pending id order s h = ground arith

-- the order is paid, and the license is its license
abbrev pub Licensed : ℕ → Order → License → Store → Type 0
Licensed id order l s =
    IsConsistent s
    × In l s.licenses
    × (l.order_id ≡ id)
    × (l.user_id ≡ order.user_id)
    × (l.spec_id ≡ order.spec_id)
    × (l.purchase_price ≡ order.amount)
    × (status_of id s.orders ≡ some OrderStatus.paid)

module _ (p : Providers) (env : Env) (id : ℕ) (order : Order) where
  pub update_status-Yields :
      (w : World Store) (st : OrderStatus)
      → Ready id order w.store
      → IsConsistent (update_status id st env w).1.store
  unfolding update_status
  update_status-Yields w st h = ground (
    arith,
    status-IsConsistent w.store h.0 id st (env.clock w.tick)
        (unlicensed w.store h.0 id (Ready-pending id order w.store h)),
  )

  pub reject_if-Yields :
      (w : World Store) (c : Bool) (a b : Error)
      → Ready id order w.store
      → Yields (reject_if p c id a b) env w (λ _ t. Ready id order t × (c ≡ false)) IsConsistent
  reject_if-Yields w true a b h = ground (arith, update_status-Yields w OrderStatus.failed h)
  reject_if-Yields w false a b h = (h, refl)

  recorded :
      (s : Store)
      → Ready id order s
      → (row : Payment) → row.order_id ≡ id
      → row.status ≡ PaymentStatus.captured
      → row.amount ≡ order.amount
      → Ready id order (record s { payments = s.payments ++ row ∷ [] })
        × Captured id order.amount (record s { payments = s.payments ++ row ∷ [] })
  recorded s h row a b c =
      ((payment-IsConsistent s h.0 row, h.1, h.2), (row, In-last row s.payments, a, b, c))

  licensed :
      (s : Store)
      → Settled id order s
      → (l : License) → l.order_id ≡ id
      → l.user_id ≡ order.user_id
      → l.spec_id ≡ order.spec_id
      → l.purchase_price ≡ order.amount
      → Licensed id order l (record s { licenses = s.licenses ++ l ∷ [] })
  licensed s (v, _, st, c, none_yet) l a b d e = (
    license-IsConsistent s v l (rw a st) (rw (a, e) c) (rw a none_yet),
    In-last l s.licenses,
    a,
    b,
    d,
    e,
    st,
  )

  pub create_payment-Yields :
      (w : World Store) (payment_id signature : Text) (method email : Option Text) (now : ℕ)
      → Ready id order w.store
      → Yields
          (create_payment (captured_payment p id order payment_id signature method email now))
          env
          w
          (λ _ t. Ready id order t × Captured id order.amount t)
          IsConsistent
  unfolding create_payment
  create_payment-Yields w payment_id signature method email now h =
      grind (arith, recorded w.store h)

  pub paid-Yields :
      (w : World Store)
      → Ready id order w.store
      → Captured id order.amount w.store
      → Yields (update_status id OrderStatus.paid) env w (λ _ t. Settled id order t) IsConsistent
  unfolding update_status
  paid-Yields w h c =
      let open_status = Ready-pending id order w.store h in
      let none_yet = unlicensed w.store h.0 id open_status in
      ground (
        arith,
        status-IsConsistent w.store h.0 id OrderStatus.paid (env.clock w.tick) none_yet,
        status-set id OrderStatus.paid (env.clock w.tick) id w.store.orders,
        open_status,
        none_yet,
        c,
        find_holds (order_is id) w.store.orders {x = order} h.1,
      )

  pub issue_license-Yields :
      (w : World Store)
      → Settled id order w.store
      → Yields (issue_license p order) env w (Licensed id order) IsConsistent
  unfolding issue_license create_license
  issue_license-Yields w h = grind (arith, licensed w.store h)

-- the order's payment was checked: Razorpay signed it, and reports it captured
abbrev pub Checked : Providers → ℕ → Text → Text → Order → Fields → Store → Type 0
Checked p id payment_id signature order fields s =
    Ready id order s
    × ((razorpay_id : Text) × (order.razorpay_order_id ≡ some razorpay_id)
        × (text_eq (generate_signature p razorpay_id payment_id) signature ≡ true))
    × (is_captured p fields ≡ true)

pub replace_error-Yields :
    {A : Type 0} (m : Action A) (e : Error) (env : Env) (w : World Store) (R : A → Store → Type 0)
    (I : Store → Type 0)
    → Yields m env w R I
    → Yields (replace_error m e) env w R I
replace_error-Yields m e env w R I h = ground arith

not-false : (b : Bool) → not b ≡ false → b ≡ true
not-false true h = refl
not-false false h = cc

module _ (p : Providers) (env : Env) (id : ℕ) where
  pub settle_order-Yields :
      (issue : Action License) (order : Order) (w : World Store) (payment_id signature : Text)
      (method email : Option Text)
      → ((w2 : World Store)
          → Settled id order w2.store
          → Yields issue env w2 (Licensed id order) IsConsistent)
      → Ready id order w.store
      → Yields
          (settle_order p issue id order payment_id signature method email)
          env
          w
          (Licensed id order)
          IsConsistent
  unfolding settle_order
  settle_order-Yields issue order w payment_id signature method email hi h =
      let w1 : World Store = record w { tick = suc w.tick } in
      let pay : Action (Unit {0}) = update_status id OrderStatus.paid in
      >>=-Yields
        (create_payment
          (captured_payment p id order payment_id signature method email (env.clock w.tick)))
        (λ _. pay >>= λ _. issue) env w1 (λ _ t. Ready id order t × Captured id order.amount t)
        (Licensed id order) IsConsistent
        (create_payment-Yields p env id order w1 payment_id signature method email
          (env.clock w.tick) h)
        (λ _ w2 h2.
          >>=-Yields pay (λ _. issue) env w2 (λ _ t. Settled id order t) (Licensed id order)
            IsConsistent (paid-Yields p env id order w2 h2.0 h2.1) (λ _ w3 h3. hi w3 h3))
