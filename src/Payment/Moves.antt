-- ===== src/Payment/Moves.antt =====
-- Each step of a call is fair, whatever the other calls have done before it.
use blueprint_audio_backend.Common.{
  ℕ, false, Option, none, some, [], ◌∷◌, ◌++◌, ◌≡◌, refl, arith, update_where, find_where, Text,
}
use blueprint_audio_backend.Db.{Env, World, Result, ok, err}
use blueprint_audio_backend.Db.Outcomes.{Outcome, Yields}
use blueprint_audio_backend.Payment.Domain.{
  Order, OrderStatus, Payment, PaymentStatus, License, Error,
}
use blueprint_audio_backend.Payment.Dodo.{Providers}
use blueprint_audio_backend.Payment.Repositories.{
  Store, order_is, license_is, get_order_by_id, create_order, update_status, create_payment,
  payment_violates, create_license, increment_downloads, revoke, downloaded, with_revocation,
}
use blueprint_audio_backend.Payment.Invariant.{Captured}
use blueprint_audio_backend.Payment.Service.{
  check_order, confirm_payment, read_event, issue_license,
}
use blueprint_audio_backend.Payment.Clients.{Client, Request, after, next}
use blueprint_audio_backend.Payment.Backing.{
  AllBacked, Knows, Read, IsFair, Keeps, Keeps-refl, Keeps-IsFair, status-Keeps, order-Keeps,
  found-Ordered,
}
use blueprint_audio_backend.Payment.Rows.{payment-IsFair, license-IsFair, change-IsFair}

-- the relations as names that automation does not open
unfoldable Kept : Store → Store → Type 0
Kept s t = Keeps s t

unfoldable Fair : Client → Store → Client → Store → Type 0
Fair c s c' t = IsFair c s c' t

kept : {s t : Store} → Keeps s t → Kept s t
unfolding Kept
kept h = h

unkept : {s t : Store} → Kept s t → Keeps s t
unfolding Kept
unkept h = h

fair : {c : Client} {s : Store} {c' : Client} {t : Store} → IsFair c s c' t → Fair c s c' t
unfolding Fair
fair h = h

module _ (p : Providers) (env : Env) (w : World Store) (v : AllBacked w.store) where
  -- what a step of `c` yields
  abbrev Steps : Client → Type 0
  Steps c =
      Yields (next p c) env w (λ c' t. Fair c w.store c' t) (λ t. Fair c w.store Client.ended t)

  ends : (c : Client) (t : Store) → Keeps w.store t → Fair c w.store Client.ended t
  ends c t k = fair (Keeps-IsFair c Client.ended w.store t k v tt (λ i. ground arith))

  same : (c : Client) → Fair c w.store Client.ended w.store
  same c = ends c w.store (Keeps-refl w.store)

  create-Steps : (o : Order) → Steps (Client.called (Request.create o))
  unfolding next create_order
  create-Steps o =
      let c = Client.called (Request.create o) in
      let here : (row : Order)
          → Fair c w.store Client.ended (record w.store { orders = w.store.orders ++ row ∷ [] }) =
        λ row. ends c _ (order-Keeps w.store row) in
      grind (arith, same c, here)

  verify-Steps :
      (id : ℕ) (payment_id signature : Text)
      → Steps (Client.called (Request.verify id payment_id signature))
  unfolding next get_order_by_id
  verify-Steps id payment_id signature =
      let c = Client.called (Request.verify id payment_id signature) in
      let here : (o : Order)
          → find_where (order_is id) w.store.orders ≡ some o
          → Fair c w.store (Client.verify_found id o payment_id signature) w.store =
        λ o h. fair (
          Keeps-IsFair c _ w.store w.store (Keeps-refl w.store) v (found-Ordered w.store id o h)
            (λ k. omega arith)) in
      grind (arith, same c, here)

  notified-Steps :
      (id : ℕ) (payment_id signature : Text) → Steps (Client.notified id payment_id signature)
  unfolding next get_order_by_id
  notified-Steps id payment_id signature =
      let c = Client.notified id payment_id signature in
      let here : (o : Order)
          → find_where (order_is id) w.store.orders ≡ some o
          → Fair c w.store (Client.notify_found o payment_id signature) w.store =
        λ o h. fair (
          Keeps-IsFair c _ w.store w.store (Keeps-refl w.store) v
            (refl, (found-Ordered w.store id o h).1) (λ k. omega arith)) in
      grind (arith, same c, here)

  webhook-Steps :
      (payload : Text) (header : Text → Text)
      → Steps (Client.called (Request.webhook payload header))
  unfolding next read_event
  webhook-Steps payload header =
      let c = Client.called (Request.webhook payload header) in
      let here : (id : ℕ) (payment_id signature : Text)
          → Fair c w.store (Client.notified id payment_id signature) w.store =
        λ id payment_id signature.
          fair (Keeps-IsFair c _ w.store w.store (Keeps-refl w.store) v tt (λ k. omega arith)) in
      grind (arith, same c, here)

  checked-Kept :
      (id : ℕ) (o : Order) (payment_id signature : Text)
      → Kept w.store (check_order p id o payment_id signature env w).1.store
  unfolding check_order confirm_payment update_status
  checked-Kept id o payment_id signature =
      let same_rows : Kept w.store w.store = kept (Keeps-refl w.store) in
      let here : (st : OrderStatus) (now : ℕ)
          → Kept w.store (record w.store {
            orders =
                update_where (order_is id) (λ x. record x { status = st; updated_at = now })
                  w.store.orders;
          }) =
        λ st now. kept (status-Keeps w.store id st now) in
      grind (arith, same_rows, here)

  found-Steps :
      (id : ℕ) (o : Order) (payment_id signature : Text)
      → Read id o w.store
      → Steps (Client.verify_found id o payment_id signature)
  unfolding next
  found-Steps id o payment_id signature h =
      let c = Client.verify_found id o payment_id signature in
      let k = unkept (checked-Kept id o payment_id signature) in
      let t = (check_order p id o payment_id signature env w).1.store in
      let here : (method email : Option Text)
          → Fair c w.store (Client.confirmed id o payment_id signature method email) t =
        λ method email.
          fair (Keeps-IsFair c _ w.store t k v (h.0, k.ordered _ _ _ _ h.1) (λ k. omega arith)) in
      grind (arith, ends c t k, here)

  notify_found-Steps :
      (o : Order) (payment_id signature : Text)
      → Read o.id o w.store
      → Steps (Client.notify_found o payment_id signature)
  unfolding next
  notify_found-Steps o payment_id signature h =
      let c = Client.notify_found o payment_id signature in
      let here : (method email : Option Text)
          → Fair c w.store (Client.confirmed o.id o payment_id signature method email) w.store =
        λ method email.
          fair (Keeps-IsFair c _ w.store w.store (Keeps-refl w.store) v h (λ k. omega arith)) in
      ground (arith, same c, here none none)

  confirmed-Steps :
      (id : ℕ) (o : Order) (payment_id signature : Text) (method email : Option Text)
      → Read id o w.store
      → Steps (Client.confirmed id o payment_id signature method email)
  unfolding next create_payment
  confirmed-Steps id o payment_id signature method email h =
      let c = Client.confirmed id o payment_id signature method email in
      let here : (row : Payment)
          → row.order_id ≡ id
          → row.status ≡ PaymentStatus.captured
          → row.amount ≡ o.amount
          → payment_violates row w.store ≡ false
          → Fair c w.store (Client.recorded id o)
              (record w.store { payments = w.store.payments ++ row ∷ [] }) =
        λ row a b e fits. fair (payment-IsFair w.store v row id o c a b e h fits) in
      grind (arith, same c, here)

  recorded-Steps :
      (id : ℕ) (o : Order)
      → Read id o w.store × Captured id o.amount w.store
      → Steps (Client.recorded id o)
  unfolding next update_status
  recorded-Steps id o h =
      let c = Client.recorded id o in
      let here : (now : ℕ)
          → Fair c w.store (Client.paid o) (record w.store {
            orders =
                update_where (order_is id)
                  (λ x. record x { status = OrderStatus.paid; updated_at = now }) w.store.orders;
          }) =
        λ now.
          let k = status-Keeps w.store id OrderStatus.paid now in
          fair (
            Keeps-IsFair c (Client.paid o) w.store _ k v
              ((refl, k.ordered _ _ _ _ h.0.1), rw h.0.0 h.1) (λ i. ground (arith, h.0.0))) in
      ground (arith, same c, here (env.clock w.tick))

  paid-Steps :
      (o : Order) → Read o.id o w.store × Captured o.id o.amount w.store → Steps (Client.paid o)
  unfolding next issue_license create_license
  paid-Steps o h =
      let c = Client.paid o in
      let here : (l : License)
          → l.order_id ≡ o.id
          → l.user_id ≡ o.user_id
          → l.spec_id ≡ o.spec_id
          → l.purchase_price ≡ o.amount
          → Fair c w.store Client.ended (record w.store { licenses = w.store.licenses ++ l ∷ [] }) =
        λ l a b d e. fair (license-IsFair w.store v l o a b d e h) in
      grind (arith, same c, here)

  download-Steps : (id : ℕ) → Steps (Client.called (Request.download id))
  unfolding next increment_downloads
  download-Steps id =
      let c = Client.called (Request.download id) in
      let here : (now : ℕ)
          → Fair c w.store Client.ended (record w.store {
            licenses = update_where (license_is id) (downloaded now) w.store.licenses;
          }) =
        λ now.
          fair
            (change-IsFair w.store v (license_is id) (downloaded now) c (λ l. refl) (λ l x. x)) in
      ground (arith, same c, here (env.clock w.tick))

  revoke-Steps : (id : ℕ) (reason : Text) → Steps (Client.called (Request.revoke_license id reason))
  unfolding next revoke
  revoke-Steps id reason =
      let c = Client.called (Request.revoke_license id reason) in
      let here : (now : ℕ)
          → Fair c w.store Client.ended (record w.store {
            licenses = update_where (license_is id) (with_revocation reason now) w.store.licenses;
          }) =
        λ now. fair (
          change-IsFair w.store v (license_is id) (with_revocation reason now) c (λ l. refl)
            (λ l x. x)) in
      ground (arith, same c, here (env.clock w.tick))

  next-Steps : (c : Client) → Knows c w.store → Steps c
  unfolding next
  next-Steps (Client.called (Request.create o)) h = create-Steps o
  next-Steps (Client.called (Request.verify id a b)) h = verify-Steps id a b
  next-Steps (Client.called (Request.webhook payload header)) h = webhook-Steps payload header
  next-Steps (Client.called (Request.download id)) h = download-Steps id
  next-Steps (Client.called (Request.revoke_license id reason)) h = revoke-Steps id reason
  next-Steps (Client.verify_found id o a b) h = found-Steps id o a b h
  next-Steps (Client.notified id a b) h = notified-Steps id a b
  next-Steps (Client.notify_found o a b) h = notify_found-Steps o a b h
  next-Steps (Client.confirmed id o a b m e) h = confirmed-Steps id o a b m e h
  next-Steps (Client.recorded id o) h = recorded-Steps id o h
  next-Steps (Client.paid o) h = paid-Steps o h
  next-Steps Client.ended h = same Client.ended

  after-Fair :
      (c : Client) (r : Result Error Client) (t : Store)
      → Outcome (λ c' x. Fair c w.store c' x) (λ x. Fair c w.store Client.ended x) r t
      → IsFair c w.store (after r) t
  unfolding Fair
  after-Fair c (ok c') t h = h
  after-Fair c (err e) t h = h

  -- a step of a call whose knowledge is right, where all licenses are backed, is fair
  pub next-IsFair :
      (c : Client)
      → Knows c w.store
      → IsFair c w.store (after (next p c env w).0) (next p c env w).1.store
  next-IsFair c h = after-Fair c (next p c env w).0 (next p c env w).1.store (next-Steps c h)
