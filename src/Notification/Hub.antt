-- ===== src/Notification/Hub.antt =====
-- internal/modules/notification/infrastructure/websocket/hub.go: the loop of Run as steps of one
-- state. A client is the number that its pointer is; what no step returns, `none`, is a panic: a
-- channel that is closed twice, or a message sent on a closed one.
pub mod Safety
use blueprint_audio_backend.Common.{
  ℕ, Bool, true, false, Option, none, some, List, [], ◌∷◌, ◌++◌, ◌==◌, ◌&&◌, ltb, length, member,
  delete_where, if◌then◌else◌,
}

-- a client's send channel: the messages that it holds, of those that it may hold
pub record Channel : Type 0 where
  pub queue : List ℕ
  pub capacity : ℕ
  pub closed : Bool

-- `running` until Run has returned
pub record Hub : Type 0 where
  pub clients : List ℕ
  pub channels : ℕ → Channel
  pub running : Bool

abbrev pub set_channel : ℕ → Channel → Hub → Hub
set_channel c ch h = record h { channels = λ d. if d == c then ch else h.channels d }

abbrev pub without_client : ℕ → Hub → Hub
without_client c h =
    set_channel c (record (h.channels c) { closed = true })
      (record h { clients = delete_where (λ d. d == c) h.clients })

abbrev pub with_message : ℕ → ℕ → Hub → Hub
with_message message c h =
    let ch = h.channels c in set_channel c (record ch { queue = ch.queue ++ message ∷ [] }) h

-- close(client.send); delete(h.clients, client)
unfoldable pub drop_client : ℕ → Hub → Option Hub
drop_client c h = if (h.channels c).closed then none else some (without_client c h)

-- select { case client.send <- message: default: … }
unfoldable pub offer : ℕ → ℕ → Hub → Option Hub
offer message c h =
    let ch = h.channels c in
    if ch.closed
    then none
    else if ltb (length ch.queue) ch.capacity
    then some (with_message message c h)
    else drop_client c h

-- `for client := range h.clients`, over the clients in some order: one that has been deleted
-- before its turn is passed over
unfoldable pub each_client : (ℕ → Hub → Option Hub) → List ℕ → Hub → Option Hub
each_client f [] h = some h
each_client f (c ∷ cs) h =
    if member c h.clients
    then (elim (f c h) [ none ↦ none | some h' ↦ each_client f cs h' ])
    else each_client f cs h

-- the cases of the select, and a client's writer that takes a message from its channel
pub data Event : Type 0 where
  register : ℕ → Event
  unregister : ℕ → Event
  broadcast : ℕ → Event
  unicast : ℕ → ℕ → Event
  stop : Event
  receive : ℕ → Event

abbrev pub tail : List ℕ → List ℕ
tail [] = []
tail (m ∷ ms) = ms

abbrev pub with_received : ℕ → Hub → Hub
with_received c h = let ch = h.channels c in set_channel c (record ch { queue = tail ch.queue }) h

-- After Run has returned nobody takes from the hub's channels.
abbrev pub is_taken : Event → Hub → Bool
is_taken (Event.receive c) h = true
is_taken _ h = h.running

-- `user_of` is a client's userID
module _ (user_of : ℕ → ℕ) where
  -- a round of the loop
  unfoldable pub handle : Event → Hub → Option Hub
  handle (Event.register c) h =
      some (record h { clients = if member c h.clients then h.clients else c ∷ h.clients })
  handle (Event.unregister c) h = if member c h.clients then drop_client c h else some h
  handle (Event.broadcast message) h = each_client (offer message) h.clients h
  handle (Event.unicast user message) h =
      each_client (λ c. if user_of c == user then offer message c else λ h. some h) h.clients h
  handle Event.stop h = elim (each_client drop_client h.clients h) [
    | none ↦ none
    | some h' ↦ some (record h' { running = false })
  ]
  handle (Event.receive c) h = some (with_received c h)

  unfoldable pub run_hub : List Event → Hub → Option Hub
  run_hub [] h = some h
  run_hub (e ∷ events) h =
      if is_taken e h
      then (elim (handle e h) [ none ↦ none | some h' ↦ run_hub events h' ])
      else run_hub events h
