-- ===== src/Sidecar/TunnelClient/Events/Goodbye.antt =====
-- How `disconnect` of tunnel-client.ts ends.
use wrangle_webhooks.Base.{
  ◌==◌, is_empty, or_text, ℕ, ◌≡◌, true, false, some, [], ◌∷◌, ◌++◌, arith, or_else, Text, text_eq,
  refl,
}
use wrangle_webhooks.Sidecar.{disconnected, connected}
use wrangle_webhooks.Sidecar.TunnelClient.{
  start_serving, ready_open, Phase, ended, serves, TunnelClient, fail_ready, clear_ping, loop_turn,
  stop_serving, served, unsettled, fulfilled, awaits_hello, Incoming, mark_ready, start_ping,
  take_hello, Leaving, deregistering, awaits_close,
}
use wrangle_webhooks.Sidecar.TunnelClient.Events.{
  is_tunnel_hello, tunnel_ping, tunnel_pong, left, closes, deleted, Context, loop_closed, give_up,
  finish_disconnect, send_delete, let_go, leave_socket, disconnect, leaving_closed, on_deleted,
  on_event, run, receives, greet, on_greeting, on_message,
}

-- The connection serves an open socket, or waits for its hello.
abbrev pub IsOn : ℕ → Phase → TunnelClient → Type 0
IsOn h phase s =
    (s.phase ≡ phase)
    × (s.socket ≡ some h)
    × (s.states h ≡ ready_open)
    × (s.is_disconnected ≡ false)

same_is : (h : ℕ) → (h == h) ≡ true
same_is h = ground arith

module _ (c : Context) where
  -- A connection that serves a socket and is told to disconnect ends, once the socket has closed and
  -- the request to delete the subscriber was answered: that request was sent, with the connection
  -- token where there is one, and the loop asks for no other socket.
  pub disconnect_ends :
      (h : ℕ) (s : TunnelClient)
      → IsOn h (serves h) s
      → is_empty s.subscriber_id ≡ false
      → ((run c (left ∷ closes h ∷ deleted ∷ []) s).phase ≡ ended)
        × ((run c (left ∷ closes h ∷ deleted ∷ []) s).connection_state ≡ disconnected)
        × ((run c (left ∷ closes h ∷ deleted ∷ []) s).aborted ≡ true)
        × ((run c (left ∷ closes h ∷ deleted ∷ []) s).deletions
            ≡ s.deletions ++ (or_text s.connection_token c.secret ∷ []))
        × ((run c (left ∷ closes h ∷ deleted ∷ []) s).offered ≡ s.offered)
  unfolding run on_event disconnect leave_socket let_go clear_ping loop_closed served stop_serving
      loop_turn leaving_closed send_delete on_deleted finish_disconnect give_up fail_ready
  disconnect_ends h s (phase, socket, live, on) named =
      rw (on, socket, live, phase, same_is h, named, same_is h) (refl, refl, refl, refl, refl)

  -- The connection was left while it waited for a hello.
  abbrev IsLeaving : ℕ → TunnelClient → Type 0
  IsLeaving h s =
      (s.phase ≡ awaits_hello h)
      × (s.leaving ≡ awaits_close h)
      × (s.is_disconnected ≡ true)
      × (s.ready ≡ unsettled)

  -- It was greeted all the same, and waits as told.
  abbrev IsGreeted : Phase → Leaving → TunnelClient → Type 0
  IsGreeted phase leaving s =
      (s.phase ≡ phase)
      × (s.leaving ≡ leaving)
      × (s.is_disconnected ≡ true)
      × (s.ready ≡ fulfilled)
      × (s.connection_state ≡ connected)
      × (is_empty s.subscriber_id ≡ false)

  left-IsLeaving :
      (h : ℕ) (s : TunnelClient)
      → IsOn h (awaits_hello h) s
      → s.ready ≡ unsettled
      → IsLeaving h (on_event c left s)
  unfolding on_event disconnect leave_socket let_go clear_ping
  left-IsLeaving h s (phase, socket, live, on) early =
      rw (on, socket, live) (phase, refl, refl, early)

  receives-IsGreeted :
      (h now : ℕ) (text : Text) (message : Incoming) (s : TunnelClient)
      → IsLeaving h s
      → text_eq text tunnel_pong ≡ false
      → text_eq text tunnel_ping ≡ false
      → c.parse text ≡ some (some message)
      → is_tunnel_hello (some message.parsed) ≡ true
      → is_empty (or_else message.parsed.subscriber_id []) ≡ false
      → IsGreeted (serves h) (awaits_close h) (on_event c (receives h now text) s)
  unfolding on_event on_message on_greeting greet take_hello start_serving start_ping mark_ready
  receives-IsGreeted h now text message s (phase, leaving, off, early) no_pong no_ping parsed hello
        named =
      rw (phase, same_is h, no_pong, no_ping, parsed, hello, early)
        (refl, leaving, off, refl, refl, named)

  closes-IsGreeted :
      (h : ℕ) (s : TunnelClient)
      → IsGreeted (serves h) (awaits_close h) s
      → IsGreeted ended deregistering (on_event c (closes h) s)
  unfolding on_event loop_closed served stop_serving clear_ping loop_turn leaving_closed send_delete
  closes-IsGreeted h s (phase, leaving, off, ready, live, named) = ground arith

  deleted_late :
      (s : TunnelClient)
      → IsGreeted ended deregistering s
      → ((on_event c deleted s).is_disconnected ≡ true)
        × ((on_event c deleted s).phase ≡ ended)
        × ((on_event c deleted s).connection_state ≡ connected)
        × ((on_event c deleted s).ready ≡ fulfilled)
  unfolding on_event on_deleted finish_disconnect give_up fail_ready
  deleted_late s (phase, leaving, off, ready, live, named) =
      rw (leaving, phase, ready) (off, refl, live, refl)

  -- A hello that comes while the socket of a disconnected connection is still closing is taken, and
  -- so the connection says that it is connected when all is over, and its `ready` is fulfilled,
  -- although it was disconnected before it was ready.
  pub hello_after_disconnect :
      (h now : ℕ) (text : Text) (message : Incoming) (s : TunnelClient)
      → IsOn h (awaits_hello h) s
      → s.ready ≡ unsettled
      → text_eq text tunnel_pong ≡ false
      → text_eq text tunnel_ping ≡ false
      → c.parse text ≡ some (some message)
      → is_tunnel_hello (some message.parsed) ≡ true
      → is_empty (or_else message.parsed.subscriber_id []) ≡ false
      → ((run c (left ∷ receives h now text ∷ closes h ∷ deleted ∷ []) s).is_disconnected ≡ true)
        × ((run c (left ∷ receives h now text ∷ closes h ∷ deleted ∷ []) s).phase ≡ ended)
        × ((run c (left ∷ receives h now text ∷ closes h ∷ deleted ∷ []) s).connection_state
            ≡ connected)
        × ((run c (left ∷ receives h now text ∷ closes h ∷ deleted ∷ []) s).ready ≡ fulfilled)
  unfolding run
  hello_after_disconnect h now text message s on early no_pong no_ping parsed hello named =
      let first = on_event c left s in
      let second = on_event c (receives h now text) first in
      let third = on_event c (closes h) second in
      let leaves = left-IsLeaving h s on early in
      let greeted =
        receives-IsGreeted h now text message first leaves no_pong no_ping parsed hello named in
      deleted_late third (closes-IsGreeted h second greeted)
