-- ===== src/Notification/Hub/Safety.antt =====
-- The hub never panics, and closes the channel of every client that it no longer has.
use blueprint_audio_backend.Common.{
  ℕ, ◌∙◌, true, false, Option, some, List, [], ◌∷◌, ◌≡◌, refl, arith, ◌==◌, ◌&&◌, not, ltb, length,
  member, delete_where, if◌then◌else◌, Bool-cases, inl, inr,
}
use blueprint_audio_backend.Notification.Hub.{
  Channel, Hub, Event, without_client, with_message, drop_client, offer, with_received, each_client,
  handle, is_taken, run_hub,
}

member-delete :
    (j c : ℕ) (xs : List ℕ)
    → member j (delete_where (λ d. d == c) xs) ≡ (member j xs && not (j == c))
member-delete j c [] = refl
member-delete j c (x ∷ xs) = ground (arith, member-delete j c xs)

-- of the clients that have been registered, those are closed that the hub does not have
pub record Tracks (seen : List ℕ) (h : Hub) : Type 0 where
  pub closes : (c : ℕ) → (h.channels c).closed ≡ (member c seen && not (member c h.clients))
  pub known : (c : ℕ) → member c h.clients ≡ true → member c seen ≡ true

-- a step that does not panic and does not stop the hub
abbrev Goes : List ℕ → Hub → Option Hub → Type 0
Goes seen h o = (h' : Hub) × (o ≡ some h') × Tracks seen h' × (h'.running ≡ h.running)

without_client-Tracks :
    (seen : List ℕ) (c : ℕ) (h : Hub)
    → Tracks seen h
    → member c h.clients ≡ true
    → Tracks seen (without_client c h)
without_client-Tracks seen c h t m = record {
  closes = λ j. ground (arith, t.closes j, t.known c m, member-delete j c h.clients);
  known = λ j k. ground (arith, t.known j, member-delete j c h.clients);
}

drop_client-Tracks :
    (seen : List ℕ) (c : ℕ) (h : Hub)
    → Tracks seen h
    → member c h.clients ≡ true
    → Goes seen h (drop_client c h)
unfolding drop_client
drop_client-Tracks seen c h t m =
    let open_channel : (h.channels c).closed ≡ false = ground (arith, t.closes c, m) in
    (without_client c h, rw open_channel refl, without_client-Tracks seen c h t m, refl)

offer-Tracks :
    (seen : List ℕ) (message c : ℕ) (h : Hub)
    → Tracks seen h
    → member c h.clients ≡ true
    → Goes seen h (offer message c h)
unfolding offer
offer-Tracks seen message c h t m =
    let open_channel : (h.channels c).closed ≡ false = ground (arith, t.closes c, m) in
    let full = drop_client-Tracks seen c h t m in
    elim (Bool-cases (ltb (length (h.channels c).queue) (h.channels c).capacity)) [
      | inl room ↦ (
        with_message message c h,
        rw (open_channel, room) refl,
        record { closes = λ j. ground (arith, t.closes j); known = t.known },
        refl,
      )
      | inr none_left ↦ (full.0, rw (open_channel, none_left) full.1, full.2, full.3)
    ]

each_client-Tracks :
    (seen : List ℕ) (f : ℕ → Hub → Option Hub) (cs : List ℕ) (h : Hub)
    → ((c : ℕ) (h : Hub) → Tracks seen h → member c h.clients ≡ true → Goes seen h (f c h))
    → Tracks seen h
    → Goes seen h (each_client f cs h)
unfolding each_client
each_client-Tracks seen f [] h hf t = (h, refl, t, refl)
each_client-Tracks seen f (c ∷ cs) h hf t = elim (Bool-cases (member c h.clients)) [
  | inl here ↦
      let (h1, e1, t1, r1) = hf c h t here in
      let (h2, e2, t2, r2) = each_client-Tracks seen f cs h1 hf t1 in
      (h2, rw (here, e1) e2, t2, r2 ∙ r1)
  | inr gone ↦
      let (h2, e2, t2, r2) = each_client-Tracks seen f cs h hf t in (h2, rw gone e2, t2, r2)
]

-- the clients that are registered until the hub is stopped, and those of `seen`
abbrev pub registered : List Event → List ℕ → List ℕ
registered [] seen = seen
registered (Event.register c ∷ events) seen = registered events (c ∷ seen)
registered (Event.stop ∷ events) seen = seen
registered (_ ∷ events) seen = registered events seen

-- until the hub is stopped, no client is registered a second time
abbrev pub IsFresh : List Event → List ℕ → Type 0
IsFresh [] seen = Unit
IsFresh (Event.register c ∷ events) seen = (member c seen ≡ false) × IsFresh events (c ∷ seen)
IsFresh (Event.stop ∷ events) seen = Unit
IsFresh (_ ∷ events) seen = IsFresh events seen

each_client-drop :
    (seen cs : List ℕ) (h : Hub)
    → Tracks seen h
    → (h' : Hub) × (each_client drop_client cs h ≡ some h')
      × Tracks seen h'
      × ((j : ℕ) → member j h'.clients ≡ (member j h.clients && not (member j cs)))
unfolding each_client drop_client
each_client-drop seen [] h t = (h, refl, t, λ j. ground arith)
each_client-drop seen (c ∷ cs) h t = elim (Bool-cases (member c h.clients)) [
  | inl here ↦
      let open_channel : (h.channels c).closed ≡ false = ground (arith, t.closes c, here) in
      let (h2, e2, t2, gone) =
        each_client-drop seen cs (without_client c h) (without_client-Tracks seen c h t here) in
      (h2, rw (here, open_channel) e2, t2, λ j. ground (arith, gone j, member-delete j c h.clients))
  | inr missing ↦
      let (h2, e2, t2, gone) = each_client-drop seen cs h t in
      (h2, rw missing e2, t2, λ j. ground (arith, gone j))
]

-- an outcome of a run: no panic, and all channels closed once the hub has stopped
abbrev Ends : List ℕ → Option Hub → Type 0
Ends seen o =
    (h' : Hub) × (o ≡ some h')
    × Tracks seen h'
    × (h'.running ≡ false → (c : ℕ) → member c h'.clients ≡ false)

with_received-Tracks :
    (seen : List ℕ) (c : ℕ) (h : Hub) → Tracks seen h → Tracks seen (with_received c h)
with_received-Tracks seen c h t = record {
  closes = λ j. ground (arith, t.closes j);
  known = t.known;
}

module _ (user_of : ℕ → ℕ) where
  run_hub-skip :
      (e : Event) (events : List Event) (h : Hub)
      → is_taken e h ≡ false
      → run_hub user_of (e ∷ events) h ≡ run_hub user_of events h
  unfolding run_hub
  run_hub-skip e events h off = ground (arith, off)

  run_hub-take :
      (e : Event) (events : List Event) (h : Hub) {h' : Hub}
      → is_taken e h ≡ true
      → handle user_of e h ≡ some h'
      → run_hub user_of (e ∷ events) h ≡ run_hub user_of events h'
  unfolding run_hub
  run_hub-take e events h on step = ground (arith, on, step)

  Ends-along : {seen : List ℕ} {o o' : Option Hub} → o ≡ o' → Ends seen o' → Ends seen o
  Ends-along e (h, e', t, gone) = (h, e ∙ e', t, gone)

  stopped-Ends :
      (events : List Event) (seen : List ℕ) (h : Hub)
      → h.running ≡ false
      → Tracks seen h
      → ((c : ℕ) → member c h.clients ≡ false)
      → Ends seen (run_hub user_of events h)
  unfolding run_hub handle
  stopped-Ends [] seen h off t gone = (h, refl, t, λ _. gone)
  stopped-Ends (Event.receive c ∷ events) seen h off t gone =
      stopped-Ends events seen (with_received c h) off (with_received-Tracks seen c h t) gone
  stopped-Ends (Event.register c ∷ events) seen h off t gone =
      Ends-along (run_hub-skip (Event.register c) events h off)
        (stopped-Ends events seen h off t gone)
  stopped-Ends (Event.unregister c ∷ events) seen h off t gone =
      Ends-along (run_hub-skip (Event.unregister c) events h off)
        (stopped-Ends events seen h off t gone)
  stopped-Ends (Event.broadcast m ∷ events) seen h off t gone =
      Ends-along (run_hub-skip (Event.broadcast m) events h off)
        (stopped-Ends events seen h off t gone)
  stopped-Ends (Event.unicast user m ∷ events) seen h off t gone =
      Ends-along (run_hub-skip (Event.unicast user m) events h off)
        (stopped-Ends events seen h off t gone)
  stopped-Ends (Event.stop ∷ events) seen h off t gone =
      Ends-along (run_hub-skip Event.stop events h off) (stopped-Ends events seen h off t gone)

  unicast-Tracks :
      (seen : List ℕ) (user m c : ℕ) (h : Hub)
      → Tracks seen h
      → member c h.clients ≡ true
      → Goes seen h ((if user_of c == user then offer m c else λ h. some h) h)
  unicast-Tracks seen user m c h t here = elim (Bool-cases (user_of c == user)) [
    | inl own ↦ rw own (offer-Tracks seen m c h t here)
    | inr other ↦ rw other (h, refl, t, refl)
  ]

  running-Ends :
      (events : List Event) (seen : List ℕ) (h : Hub)
      → h.running ≡ true
      → Tracks seen h
      → IsFresh events seen
      → Ends (registered events seen) (run_hub user_of events h)
  unfolding run_hub handle
  running-Ends [] seen h on t fresh = (h, refl, t, λ off. absurd (ground (arith, on, off)))
  running-Ends (Event.receive c ∷ events) seen h on t fresh =
      running-Ends events seen (with_received c h) on (with_received-Tracks seen c h t) fresh
  running-Ends (Event.register c ∷ events) seen h on t fresh =
      let new : member c h.clients ≡ false = ground (arith, t.known c, fresh.0) in
      Ends-along (run_hub-take (Event.register c) events h on refl) (
        running-Ends events (c ∷ seen)
          (record h { clients = if member c h.clients then h.clients else c ∷ h.clients }) on
          (record {
            closes = λ j. ground (arith, t.closes j, new, fresh.0);
            known = λ j k. ground (arith, t.known j, new);
          })
          fresh.1)
  running-Ends (Event.unregister c ∷ events) seen h on t fresh =
      elim (Bool-cases (member c h.clients)) [
        | inl here ↦
            let (h1, e1, t1, r1) = drop_client-Tracks seen c h t here in
            Ends-along (run_hub-take (Event.unregister c) events h on (ground (arith, here, e1)))
              (running-Ends events seen h1 (r1 ∙ on) t1 fresh)
        | inr missing ↦
            Ends-along (run_hub-take (Event.unregister c) events h on (ground (arith, missing)))
              (running-Ends events seen h on t fresh)
      ]
  running-Ends (Event.broadcast m ∷ events) seen h on t fresh =
      let (h1, e1, t1, r1) =
        each_client-Tracks seen (offer m) h.clients h (offer-Tracks seen m) t in
      Ends-along (run_hub-take (Event.broadcast m) events h on e1)
        (running-Ends events seen h1 (r1 ∙ on) t1 fresh)
  running-Ends (Event.unicast user m ∷ events) seen h on t fresh =
      let (h1, e1, t1, r1) =
        each_client-Tracks seen (λ c. if user_of c == user then offer m c else λ h. some h)
          h.clients h (unicast-Tracks seen user m) t in
      Ends-along (run_hub-take (Event.unicast user m) events h on e1)
        (running-Ends events seen h1 (r1 ∙ on) t1 fresh)
  running-Ends (Event.stop ∷ events) seen h on t fresh =
      let (h1, e1, t1, gone) = each_client-drop seen h.clients h t in
      Ends-along (run_hub-take Event.stop events h on (ground (arith, e1))) (
        stopped-Ends events seen (record h1 { running = false }) refl
          (record { closes = t1.closes; known = t1.known }) (λ c. ground (arith, gone c)))

  -- Where a new hub's clients bring open channels, and none is registered a second time, no sequence of events
  -- makes it panic: no channel is closed twice and no message is sent on a closed one. The closed
  -- channels are those of the clients that have been registered and are not any more, and once the
  -- hub has stopped, those of all clients that were registered before.
  pub run_hub_safe :
      (events : List Event) (channels : ℕ → Channel)
      → ((c : ℕ) → (channels c).closed ≡ false)
      → IsFresh events []
      → (h' : Hub) × (run_hub user_of events
            (record { clients = []; channels = channels; running = true })
          ≡ some h')
        × ((c : ℕ)
            → (h'.channels c).closed
              ≡ (member c (registered events []) && not (member c h'.clients)))
        × (h'.running ≡ false → (c : ℕ) → (h'.channels c).closed ≡ member c (registered events []))
  run_hub_safe events channels open_all fresh =
      let (h', e, t, gone) =
        running-Ends events [] (record { clients = []; channels = channels; running = true }) refl
          (record {
            closes = λ c. ground (arith, open_all c);
            known = λ c k. absurd (ground (arith, k));
          })
          fresh in
      (h', e, t.closes, λ off c. ground (arith, t.closes c, gone off c))
