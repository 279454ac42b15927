-- ===== src/Notification/Tests.antt =====
-- A hub with two clients, one of them slow.
use blueprint_audio_backend.Common.{
  ℕ, true, false, some, List, [], ◌∷◌, ◌≡◌, refl, arith, ◌&&◌, not, member,
}
use blueprint_audio_backend.Notification.Hub.{
  Channel, Hub, Event, drop_client, offer, each_client, handle, run_hub,
}
use blueprint_audio_backend.Notification.Hub.Safety.{registered, run_hub_safe}

-- each channel holds one message
abbrev narrow : ℕ → Channel
narrow c = record { queue = []; capacity = 1; closed = false }

abbrev user_of : ℕ → ℕ
user_of c = 7

-- client 1 reads its first message, and client 2 is dropped at the second
abbrev events : List Event
events =
    Event.register 1
    ∷ Event.register 2
    ∷ Event.broadcast 5
    ∷ Event.receive 1
    ∷ Event.unicast 7 6
    ∷ Event.unregister 2
    ∷ Event.stop
    ∷ []

abbrev new_hub : Hub
new_hub = record { clients = []; channels = narrow; running = true }

before_stop :
    (h : Hub) × (run_hub user_of
        (Event.register 1
          ∷ Event.register 2
          ∷ Event.broadcast 5
          ∷ Event.receive 1
          ∷ Event.unicast 7 6
          ∷ [])
        new_hub
      ≡ some h)
    × (h.clients ≡ 1 ∷ [])
unfolding run_hub handle each_client offer drop_client
before_stop = (_, refl, refl)

run_hub_safe_example :
    (h' : Hub) × (run_hub user_of events new_hub ≡ some h')
    × ((c : ℕ)
        → (h'.channels c).closed ≡ (member c (registered events []) && not (member c h'.clients)))
    × (h'.running ≡ false → (c : ℕ) → (h'.channels c).closed ≡ member c (registered events []))
run_hub_safe_example = run_hub_safe user_of events narrow (λ c. refl) (ground arith)
