-- ===== src/Payment/History.antt =====
-- The payment service under concurrent clients: their calls arrive and make their steps in any
-- order, each step against an environment of its own, and any step may fail.
use blueprint_audio_backend.Common.{ℕ, zero, suc, ◌+◌, ◌≤◌, List, [], ◌∷◌, arith}
use blueprint_audio_backend.Db.{Env, World}
use blueprint_audio_backend.Payment.Dodo.{Providers}
use blueprint_audio_backend.Payment.Repositories.{Store}
use blueprint_audio_backend.Payment.Clients.{Client, Turn, next, advance, turn, run}
use blueprint_audio_backend.Payment.Backing.{
  AllBacked, licenses_of, captured_of, due, Knows, Knows-Grows, Grows,
}
use blueprint_audio_backend.Payment.Moves.{next-IsFair}

-- the calls that have recorded a payment for the order and not issued its license yet
abbrev pub due_of : ℕ → List Client → ℕ
due_of k [] = 0
due_of k (c ∷ clients) = due k c + due_of k clients

abbrev pub AllKnow : List Client → Store → Type 0
AllKnow [] s = Unit {0}
AllKnow (c ∷ clients) s = Knows c s × AllKnow clients s

pub record IsSafe (s : Store) (clients : List Client) : Type 0 where
  -- every license has its order, with its buyer, spec and price, and a captured payment of it,
  -- and no two payments have one Razorpay identifier,
  pub backed : AllBacked s
  -- what a call has read of its order is still true,
  pub know : AllKnow clients s
  -- and every license of an order has a captured payment of its own, which is not the one of a
  -- call that has still to issue its license
  pub covered : (k : ℕ) → licenses_of k s + due_of k clients ≤ captured_of k s

AllKnow-Grows :
    (clients : List Client) (s t : Store) → Grows s t → AllKnow clients s → AllKnow clients t
AllKnow-Grows [] s t g h = tt
AllKnow-Grows (c ∷ clients) s t g h = (Knows-Grows c s t g h.0, AllKnow-Grows clients s t g h.1)

-- what one step does to the store and to all calls
record Advances (s : Store) (clients : List Client) (t : Store) (clients' : List Client)
    : Type 0 where
  grows : Grows s t
  backed : AllBacked t
  know : AllKnow clients' t
  fair :
      (k : ℕ)
      → licenses_of k t + due_of k clients' + captured_of k s
        ≤ licenses_of k s + due_of k clients + captured_of k t

module _ (p : Providers) where
  advance-Advances :
      (n : ℕ) (env : Env) (w : World Store) (clients : List Client)
      → AllBacked w.store
      → AllKnow clients w.store
      → Advances w.store clients (advance p n env w clients).0.store (advance p n env w clients).1
  unfolding advance
  advance-Advances n env w [] v h = record {
    grows = record { ordered = λ _ _ _ _ x. x; captured = λ _ _ x. x };
    backed = v;
    know = tt;
    fair = λ k. ground arith;
  }
  advance-Advances zero env w (c ∷ clients) v h =
      let f = next-IsFair p env w v c h.0 in
      record {
        grows = f.grows;
        backed = f.backed;
        know = (f.knows, AllKnow-Grows clients w.store (next p c env w).1.store f.grows h.1);
        fair = λ k. ground (arith, f.fair k);
      }
  advance-Advances (suc n) env w (c ∷ clients) v h =
      let a = advance-Advances n env w clients v h.1 in
      record {
        grows = a.grows;
        backed = a.backed;
        know = (Knows-Grows c w.store (advance p n env w clients).0.store a.grows h.0, a.know);
        fair = λ k. ground (arith, a.fair k);
      }

  turn-IsSafe :
      (t : Turn) (w : World Store) (clients : List Client)
      → IsSafe w.store clients
      → IsSafe (turn p t w clients).0.store (turn p t w clients).1
  unfolding turn
  turn-IsSafe (Turn.arrive r) w clients v = record {
    backed = v.backed;
    know = (tt, v.know);
    covered = λ k. ground (arith, v.covered k);
  }
  turn-IsSafe (Turn.move n env) w clients v =
      let a = advance-Advances n env w clients v.backed v.know in
      record {
        backed = a.backed;
        know = a.know;
        covered = λ k. ground (arith, a.fair k, v.covered k);
      }

  -- Whatever calls of the payment service arrive, in whatever order their steps interleave, and
  -- whichever of them fail: where the tables and the calls were safe, they are safe at the end.
  -- Every license then has its stored order, with its buyer, spec and price, and a captured
  -- payment of that price for that order; and an order's licenses, with the calls that have
  -- recorded a payment for it and not issued its license yet, are at most its captured payments,
  -- no two of which have one Razorpay identifier.
  pub run-IsSafe :
      (turns : List Turn) (w : World Store) (clients : List Client)
      → IsSafe w.store clients
      → IsSafe (run p turns w clients).0.store (run p turns w clients).1
  unfolding run
  run-IsSafe [] w clients v = v
  run-IsSafe (t ∷ turns) w clients v =
      run-IsSafe turns (turn p t w clients).0 (turn p t w clients).1 (turn-IsSafe t w clients v)
