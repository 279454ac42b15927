-- ===== src/Payment/Tests.antt =====
-- Payments on small inputs, with the identity in place of the hash and the encodings.
use blueprint_audio_backend.Common.{arith, suc, false, none, some, List, [], ◌∷◌, ◌≡◌, refl, text}
use blueprint_audio_backend.Common.Strings.{text_eq, to_lower}
use blueprint_audio_backend.Db.{Env, World}
use blueprint_audio_backend.Db.Outcomes.{Yields}
use blueprint_audio_backend.Payment.Domain.{str, end, field, Fields, Order, OrderStatus}
use blueprint_audio_backend.Payment.Dodo.{Providers}
use blueprint_audio_backend.Payment.Repositories.{
  Store, create_order, get_order_by_id, update_status, create_payment, create_license,
}
use blueprint_audio_backend.Payment.Invariant.{IsConsistent, status_of}
use blueprint_audio_backend.Payment.Service.{
  check_order, confirm_payment, verify_payment, issue_license, generate_signature,
}
use blueprint_audio_backend.Payment.Steps.{Licensed}
use blueprint_audio_backend.Payment.Soundness.{Verified, verify_payment-Yields}
use blueprint_audio_backend.Payment.Clients.{Request, Turn, next, advance, turn, run}
use blueprint_audio_backend.Payment.Backing.{licenses_of}
use blueprint_audio_backend.Payment.History.{IsSafe, run-IsSafe}

abbrev calm : Env
calm = record {
  clock = λ n. n;
  fault = λ _. false;
  uuid = λ n. some (suc n);
  locked = λ _ _. false;
}

abbrev plain : Providers
plain = record {
  unicode = record { lower = λ c. c; upper = λ c. c; space = λ c. false };
  hmac = λ key message. message;
  hex = λ s. s;
  base64_std = λ s. s;
  decode_std = λ s. some s;
  decode_raw = λ s. none;
  fetch = λ n id. some (field (text "status") (str (text "captured")) end);
  unmarshal = λ s. none;
  print_object = λ _. [];
  parse_uuid = λ s. some 9;
  secret = text "key";
  webhook_key = text "key";
}

abbrev order : Order
order = record {
  id = 1;
  user_id = 2;
  spec_id = 3;
  license_type = text "Basic";
  amount = 499;
  currency = text "INR";
  razorpay_order_id = some (text "rz");
  provider = text "razorpay";
  provider_checkout_id = none;
  status = OrderStatus.pending;
  notes = field (text "license_option_id") (str (text "9")) end;
  created_at = 0;
  updated_at = 0;
  expires_at = 1000;
}

abbrev start : World Store
start = record { tick = 1; store = record { orders = []; payments = []; licenses = [] } }

abbrev ordered_world : World Store
ordered_world = (create_order order calm start).1

ordered_world-IsConsistent : IsConsistent ordered_world.store
unfolding create_order
ordered_world-IsConsistent = record {
  paid = λ l m. absurd m;
  captured = λ l m. absurd m;
  single = λ a b m. absurd m;
}

start-IsSafe : IsSafe start.store []
start-IsSafe = record {
  backed = record { sold = λ l m. absurd m; distinct = λ a b m. absurd m };
  know = tt;
  covered = λ k. omega arith;
}

-- two verifications of one order with two payments, each of which reads the order before the
-- other has changed it
abbrev two_payments : List Turn
two_payments =
    Turn.arrive (Request.create order)
    ∷ Turn.move 0 calm
    ∷ Turn.arrive (Request.verify 1 (text "a") (text "rz|a"))
    ∷ Turn.arrive (Request.verify 1 (text "b") (text "rz|b"))
    ∷ Turn.move 0 calm
    ∷ Turn.move 1 calm
    ∷ Turn.move 0 calm
    ∷ Turn.move 1 calm
    ∷ Turn.move 0 calm
    ∷ Turn.move 1 calm
    ∷ Turn.move 0 calm
    ∷ Turn.move 1 calm
    ∷ Turn.move 0 calm
    ∷ Turn.move 1 calm
    ∷ []

-- the order has two licenses
two_licenses : licenses_of 1 (run plain two_payments start []).0.store ≡ 2
unfolding run turn advance next create_order check_order get_order_by_id confirm_payment
    create_payment update_status issue_license create_license generate_signature text_eq to_lower
two_licenses = refl

-- a verification with a wrong signature reads the pending order, and goes on after another has
-- paid it
abbrev late_rejection : List Turn
late_rejection =
    Turn.arrive (Request.create order)
    ∷ Turn.move 0 calm
    ∷ Turn.arrive (Request.verify 1 (text "a") (text "rz|a"))
    ∷ Turn.arrive (Request.verify 1 (text "b") (text "wrong"))
    ∷ Turn.move 0 calm
    ∷ Turn.move 1 calm
    ∷ Turn.move 1 calm
    ∷ Turn.move 1 calm
    ∷ Turn.move 1 calm
    ∷ Turn.move 1 calm
    ∷ Turn.move 0 calm
    ∷ []

-- the order that was paid, and has its license, has failed
paid_order_failed :
    (status_of 1 (run plain late_rejection start []).0.store.orders ≡ some OrderStatus.failed)
    × (licenses_of 1 (run plain late_rejection start []).0.store ≡ 1)
unfolding run turn advance next create_order check_order get_order_by_id confirm_payment
    create_payment update_status issue_license create_license generate_signature text_eq to_lower
paid_order_failed = (refl, refl)

run-IsSafe_example :
    IsSafe (run plain two_payments start []).0.store (run plain two_payments start []).1
run-IsSafe_example = run-IsSafe plain two_payments start [] start-IsSafe

verify_payment-Yields_example :
    Yields
      (verify_payment plain 1 (text "pay") (text "rz|pay"))
      calm
      ordered_world
      (λ l t.
        (o : Order) × (fields : Fields) × Verified plain 1
          (text "pay")
          (text "rz|pay")
          ordered_world.store
          o
          fields
        × Licensed 1 o l t)
      IsConsistent
verify_payment-Yields_example =
    verify_payment-Yields plain calm 1 (text "pay") (text "rz|pay") ordered_world
      ordered_world-IsConsistent
