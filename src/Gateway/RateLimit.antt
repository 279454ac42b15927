-- ===== src/Gateway/RateLimit.antt =====
-- internal/gateway/middleware/rate_limit.go: requests counted by address, in windows that start
-- at an address's first request. A method takes the time that time.Now() shows to it.
pub mod Cleanup
pub mod Window
use mathlib.Core.List.{reverse}
use blueprint_audio_backend.Common.Strings.{before_char}
use blueprint_audio_backend.Common.{
  ℕ, suc, ◌+◌, Bool, true, false, Option, none, some, List, [], ◌∷◌, ◌==◌, ltb, leb, is_some,
  if◌then◌else◌, Text, text_eq, is_empty,
}

-- a Go map whose keys are addresses
abbrev pub Table : Type 0 → Type 0
Table V = Text → Option V

abbrev pub put : {V : Type 0} → Text → V → Table V → Table V
put k v m j = if text_eq j k then some v else m j

pub record Limiter : Type 0 where
  pub ip_requests : Table ℕ
  pub ip_resets : Table ℕ
  pub max_req : ℕ
  pub window : ℕ

-- m[key], 0 where it is missing
abbrev pub count_of : Option ℕ → ℕ
count_of none = 0
count_of (some n) = n

-- now.After(resetTime)
abbrev pub is_over : ℕ → Option ℕ → Bool
is_over now none = false
is_over now (some reset) = ltb reset now

-- the answer where the address starts a window
abbrev pub start_window : ℕ → Text → Limiter → Bool × Limiter
start_window now ip rl = (
  true,
  record rl {
    ip_requests = put ip 1 rl.ip_requests;
    ip_resets = put ip (now + rl.window) rl.ip_resets;
  },
)

-- the answer within a window
abbrev pub count_request : Text → Limiter → Bool × Limiter
count_request ip rl =
    let n = suc (count_of (rl.ip_requests ip)) in
    (leb n rl.max_req, record rl { ip_requests = put ip n rl.ip_requests })

unfoldable pub allow : ℕ → Text → Limiter → Bool × Limiter
allow now ip rl = elim (rl.ip_resets ip) [
  | none ↦ start_window now ip rl
  | some reset ↦ if ltb reset now then start_window now ip rl else count_request ip rl
]

-- The loop deletes the addresses whose window is over.
unfoldable pub cleanup : ℕ → Limiter → Limiter
cleanup now rl = record rl {
  ip_requests = λ ip. if is_over now (rl.ip_resets ip) then none else rl.ip_requests ip;
  ip_resets = λ ip. if is_over now (rl.ip_resets ip) then none else rl.ip_resets ip;
}

-- what happens to a limiter: a request, or a round of the goroutine that newRateLimiter starts
pub data Event : Type 0 where
  request : ℕ → Text → Event
  sweep : ℕ → Event

-- the answers to the requests, in their order
unfoldable pub answers : List Event → Limiter → List Bool
answers [] rl = []
answers (Event.request now ip ∷ events) rl =
    (allow now ip rl).0 ∷ answers events (allow now ip rl).1
answers (Event.sweep now ∷ events) rl = answers events (cleanup now rl)

-- strings.Split(s, ",")[0]
abbrev pub before_comma : Text → Text
before_comma = before_char b','

-- what follows the first colon, and nothing where there is none
abbrev pub after_colon : Text → Option Text
after_colon [] = none
after_colon (c ∷ s) = if c == b':' then some s else after_colon s

-- ip[:strings.LastIndex(ip, ":")]: the last colon is the first one backwards
abbrev pub strip_port : Text → Text
strip_port ip = elim (after_colon (reverse ip)) [ none ↦ ip | some rest ↦ reverse rest ]

-- RateLimitMiddleware's key for a request: its X-Forwarded-For header, and its RemoteAddr
unfoldable pub client_ip : Text → Text → Text
client_ip forwarded_for remote_addr =
    strip_port (if is_empty forwarded_for then remote_addr else before_comma forwarded_for)
