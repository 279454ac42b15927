-- ===== src/Payment/Backing.antt =====
-- What interleaved calls keep of the payment tables, one step of one call at a time.
use blueprint_audio_backend.Common.{
  ℕ, ◌+◌, ◌≤◌, Bool, true, false, some, List, [], ◌∷◌, ◌++◌, ◌==◌, ◌&&◌, ◌≡◌, refl, sym, subst, ap,
  arith, inl, inr, In, update_where, find_where, touch, count_where, if◌then◌else◌,
}
use blueprint_audio_backend.Common.Table.Laws.{find_holds, find-In}
use blueprint_audio_backend.Payment.Domain.{Order, OrderStatus, Payment, PaymentStatus, License}
use blueprint_audio_backend.Payment.Repositories.{Store, order_is}
use blueprint_audio_backend.Payment.Invariant.{Captured, In-left}
use blueprint_audio_backend.Payment.Clients.{Client}

-- the order is stored, with this buyer, spec and amount
abbrev pub Ordered : ℕ → ℕ → ℕ → ℕ → Store → Type 0
Ordered id user_id spec_id amount s =
    (o : Order) × In o s.orders
    × (o.id ≡ id)
    × (o.user_id ≡ user_id)
    × (o.spec_id ≡ spec_id)
    × (o.amount ≡ amount)

-- a license has its order, and a captured payment of its price for that order
abbrev pub IsBacked : License → Store → Type 0
IsBacked l s =
    Ordered l.order_id l.user_id l.spec_id l.purchase_price s
    × Captured l.order_id l.purchase_price s

-- no two payments have one Razorpay identifier
abbrev pub Distinct : List Payment → Type 0
Distinct ps =
    (a b : Payment) → In a ps → In b ps → a.razorpay_payment_id ≡ b.razorpay_payment_id → a ≡ b

pub record AllBacked (s : Store) : Type 0 where
  pub sold : (l : License) → In l s.licenses → IsBacked l s
  pub distinct : Distinct s.payments

abbrev is_captured_payment : PaymentStatus → Bool
is_captured_payment PaymentStatus.captured = true
is_captured_payment _ = false

abbrev pub pays : ℕ → Payment → Bool
pays id p = p.order_id == id && is_captured_payment p.status

abbrev pub licenses_of : ℕ → Store → ℕ
licenses_of id s = count_where (λ (l : License). l.order_id == id) s.licenses

abbrev pub captured_of : ℕ → Store → ℕ
captured_of id s = count_where (pays id) s.payments

-- 1 where the call has recorded a payment for the order and not issued its license yet
abbrev pub due : ℕ → Client → ℕ
due k (Client.recorded id order) = if id == k then 1 else 0
due k (Client.paid order) = if order.id == k then 1 else 0
due k _ = 0

abbrev pub Read : ℕ → Order → Store → Type 0
Read id order s = (order.id ≡ id) × Ordered order.id order.user_id order.spec_id order.amount s

-- what a call has learned of the store, which stays true whatever other calls do
abbrev pub Knows : Client → Store → Type 0
Knows (Client.verify_found id order _ _) s = Read id order s
Knows (Client.notify_found order _ _) s = Read order.id order s
Knows (Client.confirmed id order _ _ _ _) s = Read id order s
Knows (Client.recorded id order) s = Read id order s × Captured id order.amount s
Knows (Client.paid order) s = Read order.id order s × Captured order.id order.amount s
Knows _ s = Unit {0}

pub record Grows (s t : Store) : Type 0 where
  pub ordered :
      (id user_id spec_id amount : ℕ)
      → Ordered id user_id spec_id amount s
      → Ordered id user_id spec_id amount t
  pub captured : (id amount : ℕ) → Captured id amount s → Captured id amount t

-- a step of a call from `c` to `c'`, which takes the store from `s` to `t`
pub record IsFair (c : Client) (s : Store) (c' : Client) (t : Store) : Type 0 where
  pub grows : Grows s t
  pub backed : AllBacked t
  pub knows : Knows c' t
  pub fair :
      (k : ℕ)
      → licenses_of k t + due k c' + captured_of k s ≤ licenses_of k s + due k c + captured_of k t

pub Knows-Grows : (c : Client) (s t : Store) → Grows s t → Knows c s → Knows c t
Knows-Grows (Client.called r) s t g h = tt
Knows-Grows (Client.verify_found id o _ _) s t g h = (h.0, g.ordered _ _ _ _ h.1)
Knows-Grows (Client.notified _ _ _) s t g h = tt
Knows-Grows (Client.notify_found o _ _) s t g h = (h.0, g.ordered _ _ _ _ h.1)
Knows-Grows (Client.confirmed id o _ _ _ _) s t g h = (h.0, g.ordered _ _ _ _ h.1)
Knows-Grows (Client.recorded id o) s t g h = ((h.0.0, g.ordered _ _ _ _ h.0.1), g.captured _ _ h.1)
Knows-Grows (Client.paid o) s t g h = ((h.0.0, g.ordered _ _ _ _ h.0.1), g.captured _ _ h.1)
Knows-Grows Client.ended s t g h = tt

pub Grows-refl : (s : Store) → Grows s s
Grows-refl s = record { ordered = λ _ _ _ _ h. h; captured = λ _ _ h. h }

-- the orders that are stored stay, and no payment and no license changes
pub record Keeps (s t : Store) : Type 0 where
  pub ordered :
      (id user_id spec_id amount : ℕ)
      → Ordered id user_id spec_id amount s
      → Ordered id user_id spec_id amount t
  pub payments : t.payments ≡ s.payments
  pub licenses : t.licenses ≡ s.licenses

pub Keeps-refl : (s : Store) → Keeps s s
Keeps-refl s = record { ordered = λ _ _ _ _ h. h; payments = refl; licenses = refl }

pub Keeps-IsFair :
    (c c' : Client) (s t : Store)
    → Keeps s t
    → AllBacked s
    → Knows c' t
    → ((k : ℕ) → due k c' ≤ due k c)
    → IsFair c s c' t
Keeps-IsFair c c' s t kept v known less =
    let o = kept.ordered in
    let pe = kept.payments in
    let le = kept.licenses in
    let paid_for : (id amount : ℕ) → Captured id amount s → Captured id amount t =
      λ id amount (q, m, a, b, c). (q, subst (λ xs. In q xs) (sym pe) m, a, b, c) in
    record {
      grows = record { ordered = o; captured = paid_for };
      backed = record {
        sold = λ l m.
            let b = v.sold l (subst (λ xs. In l xs) le m) in
            (
              o l.order_id l.user_id l.spec_id l.purchase_price b.0,
              paid_for l.order_id l.purchase_price b.1,
            );
        distinct = subst (λ ps. Distinct ps) (sym pe) v.distinct;
      };
      knows = known;
      fair = λ k. ground (arith, pe, le, less k);
    }

In-touched :
    {A : Type 0} (q : A → Bool) (f : A → A) (xs : List A) (x : A)
    → In x xs
    → In (touch q f x) (update_where q f xs)
In-touched q f [] x m = absurd m
In-touched q f (y ∷ xs) x (inl e) = inl (ap (touch q f) e)
In-touched q f (y ∷ xs) x (inr m) = inr (In-touched q f xs x m)

pub status-Keeps :
    (s : Store) (id : ℕ) (st : OrderStatus) (now : ℕ)
    → Keeps s (record s {
      orders =
          update_where (order_is id) (λ o. record o { status = st; updated_at = now }) s.orders;
    })
status-Keeps s id st now =
    let f : Order → Order = λ o. record o { status = st; updated_at = now } in
    record {
      ordered = λ a b c d (o, m, ea, eb, ec, ed). (
        touch (order_is id) f o,
        In-touched (order_is id) f s.orders o m,
        ground arith,
        ground arith,
        ground arith,
        ground arith,
      );
      payments = refl;
      licenses = refl;
    }

pub order-Keeps : (s : Store) (row : Order) → Keeps s (record s { orders = s.orders ++ row ∷ [] })
order-Keeps s row = record {
  ordered = λ _ _ _ _ (o, m, a, b, c, d). (o, In-left o s.orders (row ∷ []) m, a, b, c, d);
  payments = refl;
  licenses = refl;
}

pub found-Ordered :
    (s : Store) (id : ℕ) (o : Order) → find_where (order_is id) s.orders ≡ some o → Read id o s
found-Ordered s id o h = (
  ground (arith, find_holds (order_is id) s.orders {x = o} h),
  (o, find-In (order_is id) s.orders {x = o} h, refl, refl, refl, refl),
)
