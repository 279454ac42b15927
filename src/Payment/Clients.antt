-- ===== src/Payment/Clients.antt =====
-- The service's calls step by step: VerifyPayment and HandleDodoWebhook of application/service.go
-- run without a transaction, so the calls of concurrent clients interleave between one
-- repository call and the next. A step is one repository call with the code up to the next one;
-- that code reads no table.
use blueprint_audio_backend.Common.{
  ℕ, zero, suc, none, some, List, [], ◌∷◌, Option, Text, text, if◌then◌else◌,
}
use blueprint_audio_backend.Db.{Env, World, Result, ok, err, pure, fail, ◌>>=◌, ◌>>◌}
use blueprint_audio_backend.Payment.Domain.{
  Order, OrderStatus, Error, as_string, get_field, order_not_found, not_payable, is_pending,
  is_paid,
}
use blueprint_audio_backend.Payment.Dodo.{Providers}
use blueprint_audio_backend.Payment.Repositories.{
  Store, Action, create_order, get_order_by_id, update_status, increment_downloads, revoke,
}
use blueprint_audio_backend.Payment.Service.{
  Event, check_order, record_payment, issue_license, read_event, replace_error, verify_payment,
  handle_dodo_webhook,
}

-- one call of the service or of its repositories
pub data Request : Type 0 where
  create : Order → Request
  verify : ℕ → Text → Text → Request
  webhook : Text → (Text → Text) → Request
  download : ℕ → Request
  revoke_license : ℕ → Text → Request

-- where a call stands, with the values that its local variables hold there
pub data Client : Type 0 where
  called : Request → Client
  -- VerifyPayment has read the order
  verify_found : ℕ → Order → Text → Text → Client
  -- HandleDodoWebhook has read the event, then the order
  notified : ℕ → Text → Text → Client
  notify_found : Order → Text → Text → Client
  -- the payment is to be recorded, then the order to be paid, then the license to be issued
  confirmed : ℕ → Order → Text → Text → Option Text → Option Text → Client
  recorded : ℕ → Order → Client
  paid : Order → Client
  ended : Client

abbrev pub start_settlement : Event → Client
start_settlement none = Client.ended
start_settlement (some (order_id, payment_id, signature)) =
    Client.notified order_id payment_id signature

-- where a step leads; an error ends the call
abbrev pub after : Result Error Client → Client
after (ok c) = c
after (err e) = Client.ended

module _ (p : Providers) where
  -- the next step of a call
  unfoldable pub next : Client → Action Client
  next (Client.called (Request.create order)) = create_order order >> pure Client.ended
  next (Client.called (Request.verify id payment_id signature)) = do
    order ← replace_error (get_order_by_id id) order_not_found
    pure (Client.verify_found id order payment_id signature)
  next (Client.called (Request.webhook payload header)) = do
    event ← read_event p payload header
    pure (start_settlement event)
  next (Client.called (Request.download id)) = increment_downloads id >> pure Client.ended
  next (Client.called (Request.revoke_license id reason)) = revoke id reason >> pure Client.ended
  next (Client.verify_found id order payment_id signature) = do
    fields ← check_order p id order payment_id signature
    pure (
        Client.confirmed id order payment_id signature
          (as_string (get_field (text "method") fields))
          (as_string (get_field (text "email") fields)))
  next (Client.notified id payment_id signature) = do
    order ← replace_error (get_order_by_id id) order_not_found
    pure (Client.notify_found order payment_id signature)
  next (Client.notify_found order payment_id signature) =
      if is_paid order.status
      then pure Client.ended
      else if is_pending order.status
      then pure (Client.confirmed order.id order payment_id signature none none)
      else fail not_payable
  next (Client.confirmed id order payment_id signature method email) = do
    record_payment p id order payment_id signature method email
    pure (Client.recorded id order)
  next (Client.recorded id order) = do update_status id OrderStatus.paid; pure (Client.paid order)
  next (Client.paid order) = issue_license p order >> pure Client.ended
  next Client.ended = pure Client.ended

  -- the step of the client at that index; the others wait
  unfoldable pub advance : ℕ → Env → World Store → List Client → World Store × List Client
  advance n env w [] = (w, [])
  advance zero env w (c ∷ clients) = let (r, w') = next c env w in (w', after r ∷ clients)
  advance (suc n) env w (c ∷ clients) =
      let (w', clients') = advance n env w clients in (w', c ∷ clients')

  -- a call alone, step by step
  unfoldable pub drive : ℕ → Client → Env → World Store → World Store
  drive zero c env w = w
  drive (suc n) c env w = let (r, w') = next c env w in drive n (after r) env w'

  -- the store after a call that nothing interrupts
  unfoldable pub call : Request → Env → World Store → World Store
  call (Request.create order) env w = (create_order order env w).1
  call (Request.verify id payment_id signature) env w =
      (verify_payment p id payment_id signature env w).1
  call (Request.webhook payload header) env w = (handle_dodo_webhook p payload header env w).1
  call (Request.download id) env w = (increment_downloads id env w).1
  call (Request.revoke_license id reason) env w = (revoke id reason env w).1

-- a call arrives, or the call at that index makes its next step
pub data Turn : Type 0 where
  arrive : Request → Turn
  move : ℕ → Env → Turn

unfoldable pub turn : Providers → Turn → World Store → List Client → World Store × List Client
turn p (Turn.arrive r) w clients = (w, Client.called r ∷ clients)
turn p (Turn.move n env) w clients = advance p n env w clients

-- a schedule of the clients
unfoldable pub run : Providers → List Turn → World Store → List Client → World Store × List Client
run p [] w clients = (w, clients)
run p (t ∷ turns) w clients = let (w', clients') = turn p t w clients in run p turns w' clients'
