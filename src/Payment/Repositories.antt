-- ===== src/Payment/Repositories.antt =====
-- internal/modules/payment/infrastructure/persistence/postgres: pg_order_repo.go,
-- pg_payment_repo.go and pg_license_repo.go, over the tables of migration 000006.
use blueprint_audio_backend.Common.{
  ℕ, ◌+◌, Bool, true, false, Option, some, List, [], ◌∷◌, ◌++◌, ◌==◌, ◌||◌, if◌then◌else◌, Text,
  text_eq, find_where, exists_where, update_where,
}
use blueprint_audio_backend.Db.{
  M, pure, fail_none, ◌>>=◌, ◌>>◌, query, execute, insert, time_now, new_uuid,
}
use blueprint_audio_backend.Payment.Domain.{
  Order, OrderStatus, Payment, License, Error, database, uuid,
}

pub record Store : Type 0 where
  pub orders : List Order
  pub payments : List Payment
  pub licenses : List License

abbrev pub Action : Type 0 → Type 0
Action A = M Store Error A

abbrev pub id_or_new : ℕ → Action ℕ
id_or_new id env w = if id == 0 then new_uuid uuid env w else pure id env w

abbrev pub or_now : ℕ → ℕ → ℕ
or_now time now = if time == 0 then now else time

abbrev pub option_text_eq : Option Text → Option Text → Bool
option_text_eq (some a) (some b) = text_eq a b
option_text_eq _ _ = false

abbrev pub order_is : ℕ → Order → Bool
order_is id o = o.id == id

abbrev pub license_is : ℕ → License → Bool
license_is id l = l.id == id

-- PRIMARY KEY (id), UNIQUE (razorpay_order_id), CHECK (amount > 0)
abbrev pub order_violates : Order → Store → Bool
order_violates o s =
    o.amount == 0
    || exists_where (λ r. r.id == o.id || option_text_eq r.razorpay_order_id o.razorpay_order_id)
        s.orders

-- PgOrderRepository.Create
unfoldable pub create_order : Order → Action (Unit {0})
create_order order = do
  id ← id_or_new order.id
  now ← time_now
  later ← time_now
  let row = record order { id = id; created_at = or_now order.created_at now; updated_at = later }
  insert database database (order_violates row) (λ _ s. record s { orders = s.orders ++ row ∷ [] })

-- PgOrderRepository.GetByID
unfoldable pub get_order_by_id : ℕ → Action Order
get_order_by_id id = do
  found ← query database (λ s. find_where (order_is id) s.orders)
  fail_none found database

-- PgOrderRepository.UpdateStatus
unfoldable pub update_status : ℕ → OrderStatus → Action (Unit {0})
update_status id status = execute database (λ now s. (
  tt,
  record s {
    orders =
        update_where (order_is id) (λ o. record o { status = status; updated_at = now }) s.orders;
  },
))

-- PRIMARY KEY (id), UNIQUE (razorpay_payment_id), CHECK (amount > 0), and the reference
abbrev pub payment_violates : Payment → Store → Bool
payment_violates p s =
    p.amount == 0
    || exists_where (λ r. r.id == p.id || text_eq r.razorpay_payment_id p.razorpay_payment_id)
        s.payments

-- PgPaymentRepository.Create
unfoldable pub create_payment : Payment → Action (Unit {0})
create_payment payment = do
  id ← id_or_new payment.id
  now ← time_now
  later ← time_now
  let row = record payment {
    id = id;
    created_at = or_now payment.created_at now;
    updated_at = later;
  }
  insert database database (payment_violates row)
      (λ _ s. record s { payments = s.payments ++ row ∷ [] })

-- PRIMARY KEY (id), UNIQUE (license_key)
abbrev pub license_violates : License → Store → Bool
license_violates l s = exists_where (λ r. r.id == l.id || r.license_key == l.license_key) s.licenses

-- PgLicenseRepository.Create; it returns the row, since the caller's license is updated
unfoldable pub create_license : License → Action License
create_license license = do
  id ← id_or_new license.id
  now ← time_now
  later ← time_now
  issued ← time_now
  let row = record license {
    id = id;
    created_at = or_now license.created_at now;
    updated_at = later;
    issued_at = issued;
  }
  insert database database (license_violates row)
      (λ _ s. record s { licenses = s.licenses ++ row ∷ [] })
  pure row

-- PgLicenseRepository.GetByID
unfoldable pub get_license_by_id : ℕ → Action License
get_license_by_id id = do
  found ← query database (λ s. find_where (license_is id) s.licenses)
  fail_none found database

abbrev pub downloaded : ℕ → License → License
downloaded now l = record l {
  downloads_count = l.downloads_count + 1;
  last_downloaded_at = some now;
  updated_at = now;
}

-- PgLicenseRepository.IncrementDownloads
unfoldable pub increment_downloads : ℕ → Action (Unit {0})
increment_downloads id = execute database (λ now s.
    (tt, record s { licenses = update_where (license_is id) (downloaded now) s.licenses }))

abbrev pub with_revocation : Text → ℕ → License → License
with_revocation reason now l = record l {
  is_revoked = true;
  revoked_reason = some reason;
  revoked_at = some now;
  updated_at = now;
}

-- PgLicenseRepository.Revoke
unfoldable pub revoke : ℕ → Text → Action (Unit {0})
revoke id reason = execute database (λ now s. (
  tt,
  record s { licenses = update_where (license_is id) (with_revocation reason now) s.licenses },
))
