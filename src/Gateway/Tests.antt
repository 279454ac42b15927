-- ===== src/Gateway/Tests.antt =====
-- A limiter of two requests in ten units of time, and the gateway's results at it.
use blueprint_audio_backend.Common.{
  suc, ◌-◌, true, false, Option, none, some, List, [], ◌∷◌, ◌≡◌, ◌↔◌, refl, arith, inr, Text, text,
  In,
}
use blueprint_audio_backend.Common.Strings.{text_eq}
use blueprint_audio_backend.Gateway.RateLimit.{Limiter, Event, allow, cleanup, answers}
use blueprint_audio_backend.Gateway.RateLimit.Cleanup.{without_sweeps, answers-cleanup}
use blueprint_audio_backend.Gateway.RateLimit.Window.{passed, requests, min, passed-window}
use blueprint_audio_backend.Gateway.Access.{
  Claims, Request, Outcome, Accepted, require_user_role, require_user_role_served,
}

abbrev fresh : Limiter
fresh = record { ip_requests = λ _. none; ip_resets = λ _. none; max_req = 2; window = 10 }

abbrev home : Text
home = text "::1"

-- three requests of one address in its window, one of another, a round of cleanup, and a request
-- in the next window
abbrev traffic : List Event
traffic =
    Event.request 1 home
    ∷ Event.request 2 home
    ∷ Event.request 3 (text "::2")
    ∷ Event.request 4 home
    ∷ Event.sweep 12
    ∷ Event.request 13 home
    ∷ []

answers-traffic : answers traffic fresh ≡ true ∷ true ∷ true ∷ false ∷ true ∷ []
unfolding answers allow cleanup text_eq
answers-traffic = refl

answers-cleanup_example : answers traffic fresh ≡ answers (without_sweeps traffic) fresh
answers-cleanup_example = answers-cleanup traffic 0 fresh (ground arith)

abbrev burst : List Event
burst =
    Event.request 2 home ∷ Event.sweep 3 ∷ Event.request 3 (text "::2") ∷ Event.request 4 home ∷ []

passed-window_example :
    passed home (Event.request 1 home ∷ burst) fresh ≡ suc (min (requests home burst) (2 - 1))
passed-window_example = passed-window home 1 burst fresh (inr refl) (ground arith)

-- an address of the sixth version without a port loses its last group

abbrev producer : Claims
producer = record { user_id = 7; role = text "producer"; system_role = text "super_admin" }

-- the check that takes every token for the producer's
abbrev trusting : Text → Option Claims
trusting token = some producer

abbrev with_header : Request
with_header = record { authorization = text "Bearer abc"; token = [] }

require_user_role_served_example :
    (require_user_role trusting (text "artist" ∷ text "producer" ∷ []) with_header
      ≡ Outcome.serve (some producer))
    ↔ (Accepted trusting with_header producer
        × In (text "producer") (text "artist" ∷ text "producer" ∷ []))
require_user_role_served_example =
    require_user_role_served trusting (text "artist" ∷ text "producer" ∷ []) with_header producer
