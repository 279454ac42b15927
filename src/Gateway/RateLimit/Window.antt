-- ===== src/Gateway/RateLimit/Window.antt =====
-- How many requests of one address pass in one window, and which requests share an address.
use mathlib.Core.List.{reverse, reverse-cons, reverse-append, reverse-reverse, append_assoc}
use blueprint_audio_backend.Common.{
  ℕ, suc, ◌+◌, ◌-◌, ◌≤◌, true, false, none, some, List, [], ◌∷◌, ◌++◌, ◌≡◌, refl, arith, leb,
  if◌then◌else◌, Text, text_eq, ◌==◌, Bool-cases, inl, inr, ◌⊎◌,
}
use blueprint_audio_backend.Common.Strings.{text_eq_iff}
use blueprint_audio_backend.Gateway.RateLimit.{
  Limiter, Event, allow, cleanup, is_over, client_ip, after_colon,
}

-- the requests of the address that pass
abbrev pub passed : Text → List Event → Limiter → ℕ
passed ip [] rl = 0
passed ip (Event.request now j ∷ events) rl =
    let rest = passed ip events (allow now j rl).1 in
    if text_eq j ip then (if (allow now j rl).0 then suc rest else rest) else rest
passed ip (Event.sweep now ∷ events) rl = passed ip events (cleanup now rl)

-- every event happens until then
abbrev pub IsUntil : ℕ → List Event → Type 0
IsUntil t [] = Unit
IsUntil t (Event.request now ip ∷ events) = (now ≤ t) × IsUntil t events
IsUntil t (Event.sweep now ∷ events) = (now ≤ t) × IsUntil t events

-- the address has counted `n` requests in a window that ends then
abbrev pub InWindow : Text → ℕ → ℕ → Limiter → Type 0
InWindow ip n reset rl = (rl.ip_resets ip ≡ some reset) × (rl.ip_requests ip ≡ some n)

InWindow-other :
    (ip j : Text) (now n reset : ℕ) (rl : Limiter)
    → InWindow ip n reset rl
    → text_eq j ip ≡ false
    → InWindow ip n reset (allow now j rl).1
unfolding allow
InWindow-other ip j now n reset rl w other = ground (arith, text_eq_iff ip j, text_eq_iff j ip)

InWindow-cleanup :
    (ip : Text) (now n reset : ℕ) (rl : Limiter)
    → InWindow ip n reset rl
    → now ≤ reset
    → InWindow ip n reset (cleanup now rl)
unfolding cleanup
InWindow-cleanup ip now n reset rl w le = ground arith

abbrev pub min : ℕ → ℕ → ℕ
min a b = if leb a b then a else b

-- the requests of the address
abbrev pub requests : Text → List Event → ℕ
requests ip [] = 0
requests ip (Event.request now j ∷ events) =
    let rest = requests ip events in if text_eq j ip then suc rest else rest
requests ip (Event.sweep now ∷ events) = requests ip events

same-max : (now : ℕ) (j : Text) (rl : Limiter) → (allow now j rl).1.max_req ≡ rl.max_req
unfolding allow
same-max now j rl = ground arith

allow-own :
    (ip : Text) (now n reset : ℕ) (rl : Limiter)
    → InWindow ip n reset rl
    → now ≤ reset
    → ((allow now ip rl).0 ≡ leb (suc n) rl.max_req) × InWindow ip (suc n) reset (allow now ip rl).1
unfolding allow
allow-own ip now n reset rl w le = ground (arith, text_eq_iff ip ip)

passed_lem :
    (ip : Text) (events : List Event) (n reset : ℕ) (rl : Limiter)
    → InWindow ip n reset rl
    → IsUntil reset events
    → passed ip events rl ≡ min (requests ip events) (rl.max_req - n)
unfolding cleanup
passed_lem ip [] n reset rl w u = ground arith
passed_lem ip (Event.request now j ∷ events) n reset rl w u = elim (Bool-cases (text_eq j ip)) [
  | inl own ↦
      let e : j ≡ ip = (text_eq_iff j ip).0 own in
      let (answer, w') = allow-own ip now n reset rl w u.0 in
      let rest = passed_lem ip events (suc n) reset (allow now ip rl).1 w' u.1 in
      rw (own, e) (ground (arith, rest, answer, same-max now ip rl))
  | inr other ↦
      let w' = InWindow-other ip j now n reset rl w other in
      rw other
        (ground (arith, passed_lem ip events n reset (allow now j rl).1 w' u.1, same-max now j rl))
]
passed_lem ip (Event.sweep now ∷ events) n reset rl w u =
    passed_lem ip events n reset (cleanup now rl) (InWindow-cleanup ip now n reset rl w u.0) u.1

allow-first :
    (ip : Text) (now : ℕ) (rl : Limiter)
    → (is_over now (rl.ip_resets ip) ≡ true) ⊎ (rl.ip_resets ip ≡ none)
    → ((allow now ip rl).0 ≡ true) × InWindow ip 1 (now + rl.window) (allow now ip rl).1
unfolding allow
allow-first ip now rl (inl over) = ground (arith, text_eq_iff ip ip)
allow-first ip now rl (inr unknown) = ground (arith, text_eq_iff ip ip)

-- Where a request finds no window of its address, or one that is over, and further events happen
-- until the window that it starts ends, the requests of the address that pass are this one and as
-- many of the others as there are, up to the limit less one. Other addresses' requests and rounds of
-- cleanup may stand among the events.
pub passed-window :
    (ip : Text) (now : ℕ) (events : List Event) (rl : Limiter)
    → (is_over now (rl.ip_resets ip) ≡ true) ⊎ (rl.ip_resets ip ≡ none)
    → IsUntil (now + rl.window) events
    → passed ip (Event.request now ip ∷ events) rl ≡ suc (min (requests ip events) (rl.max_req - 1))
passed-window ip now events rl start u =
    let (yes_first, w) = allow-first ip now rl start in
    ground (
      arith,
      yes_first,
      text_eq_iff ip ip,
      same-max now ip rl,
      passed_lem ip events 1 (now + rl.window) (allow now ip rl).1 w u,
    )

after_colon-append :
    (port rest : Text) → after_colon port ≡ none → after_colon (port ++ b':' ∷ rest) ≡ some rest
after_colon-append [] rest h = ground arith
after_colon-append (c ∷ port) rest h = ground (arith, after_colon-append port rest)

after_colon-snoc :
    (s : Text) (c : ℕ)
    → after_colon s ≡ none
    → (c == b':') ≡ false
    → after_colon (s ++ c ∷ []) ≡ none
after_colon-snoc [] c h k = ground arith
after_colon-snoc (d ∷ s) c h k = ground (arith, after_colon-snoc s c)

after_colon-reverse : (s : Text) → after_colon s ≡ none → after_colon (reverse s) ≡ none
after_colon-reverse [] h = refl
after_colon-reverse (c ∷ s) h =
    let later : after_colon s ≡ none = ground arith in
    let not_colon : (c == b':') ≡ false = ground arith in
    rw (reverse-cons c s) (after_colon-snoc (reverse s) c (after_colon-reverse s later) not_colon)

-- Without an X-Forwarded-For header, the limiter's key for a remote address is what stands before
-- its last colon.
pub client_ip-port :
    (host port : Text) → after_colon port ≡ none → client_ip [] (host ++ b':' ∷ port) ≡ host
unfolding client_ip
client_ip-port host port h =
    let backwards : reverse (host ++ b':' ∷ port) ≡ reverse port ++ b':' ∷ reverse host = rw (
      reverse-append host (b':' ∷ port),
      reverse-cons b':' port,
      append_assoc (reverse port) (b':' ∷ []) (reverse host),
    ) in
    let found = after_colon-append (reverse port) (reverse host) (after_colon-reverse port h) in
    ground (arith, backwards, found, reverse-reverse host)
