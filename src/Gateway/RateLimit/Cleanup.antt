-- ===== src/Gateway/RateLimit/Cleanup.antt =====
-- The goroutine that deletes old entries changes no answer.
use blueprint_audio_backend.Common.{
  ℕ, ◌≤◌, Option, none, some, List, [], ◌∷◌, ◌≡◌, refl, arith, ltb, if◌then◌else◌, Text,
}
use blueprint_audio_backend.Gateway.RateLimit.{Limiter, Event, allow, cleanup, answers, count_of}

-- an address's window and its count, where the window is not over
abbrev pub live : ℕ → Limiter → Text → Option (ℕ × ℕ)
live now rl ip = elim (rl.ip_resets ip) [
  | none ↦ none
  | some reset ↦ if ltb reset now then none else some (reset, count_of (rl.ip_requests ip))
]

-- two limiters that nobody can tell apart from `now` on
pub record Agree (now : ℕ) (a b : Limiter) : Type 0 where
  pub same_max : a.max_req ≡ b.max_req
  pub same_window : a.window ≡ b.window
  pub same_live : (ip : Text) → live now a ip ≡ live now b ip

-- the events in the order of their times, from `now` on
abbrev pub IsOrdered : ℕ → List Event → Type 0
IsOrdered now [] = Unit
IsOrdered now (Event.request t ip ∷ events) = (now ≤ t) × IsOrdered t events
IsOrdered now (Event.sweep t ∷ events) = (now ≤ t) × IsOrdered t events

abbrev pub without_sweeps : List Event → List Event
without_sweeps [] = []
without_sweeps (Event.request t ip ∷ events) = Event.request t ip ∷ without_sweeps events
without_sweeps (Event.sweep t ∷ events) = without_sweeps events

Agree-later : (now t : ℕ) (a b : Limiter) → now ≤ t → Agree now a b → Agree t a b
Agree-later now t a b le g = record {
  same_max = g.same_max;
  same_window = g.same_window;
  same_live = λ ip. ground (arith, g.same_live ip);
}

Agree-cleanup : (now : ℕ) (a b : Limiter) → Agree now a b → Agree now (cleanup now a) b
unfolding cleanup
Agree-cleanup now a b g = record {
  same_max = g.same_max;
  same_window = g.same_window;
  same_live = λ ip. ground (arith, g.same_live ip);
}

allow_same :
    (now : ℕ) (ip : Text) (a b : Limiter) → Agree now a b → (allow now ip a).0 ≡ (allow now ip b).0
unfolding allow
allow_same now ip a b g = ground (arith, g.same_live ip, g.same_max)

Agree-allow :
    (now : ℕ) (ip : Text) (a b : Limiter)
    → Agree now a b
    → Agree now (allow now ip a).1 (allow now ip b).1
unfolding allow
Agree-allow now ip a b g = record {
  same_max = ground (arith, g.same_live ip, g.same_max);
  same_window = ground (arith, g.same_live ip, g.same_window);
  same_live = λ j. ground (arith, g.same_live ip, g.same_live j, g.same_window);
}

answers_same :
    (events : List Event) (now : ℕ) (a b : Limiter)
    → IsOrdered now events
    → Agree now a b
    → answers events a ≡ answers (without_sweeps events) b
unfolding answers
answers_same [] now a b h g = refl
answers_same (Event.request t ip ∷ events) now a b h g =
    let g' = Agree-later now t a b h.0 g in
    rw (
      allow_same t ip a b g',
      answers_same events t (allow t ip a).1 (allow t ip b).1 h.1 (Agree-allow t ip a b g'),
    )
answers_same (Event.sweep t ∷ events) now a b h g =
    answers_same events t (cleanup t a) b h.1 (Agree-cleanup t a b (Agree-later now t a b h.0 g))

-- Where the events come in the order of their times, the rounds of cleanup among them change no
-- answer: the limiter answers as one that deletes nothing.
pub answers-cleanup :
    (events : List Event) (now : ℕ) (rl : Limiter)
    → IsOrdered now events
    → answers events rl ≡ answers (without_sweeps events) rl
answers-cleanup events now rl h =
    answers_same events now rl rl h
      (record { same_max = refl; same_window = refl; same_live = λ ip. refl })
