-- ===== src/Sidecar/TunnelClient/Events/Sound.antt =====
-- What holds of a `TunnelConnection` of tunnel-client.ts in every state that it reaches, and that
-- its methods keep it.
use wrangle_webhooks.Sidecar.TunnelClient.Events.{
  tunnel_ping, tunnel_pong, is_tunnel_request, is_tunnel_hello, Context, on_fetched, handle_message,
  on_greeting, on_tick, greet, answer_request,
}
use wrangle_webhooks.Base.{
  Text, ℕ, ◌≤◌, ◌≡◌, refl, Bool, true, false, Option, none, some, arith, codes, if◌then◌else◌,
  text_eq,
}
use wrangle_webhooks.Sidecar.{
  ConnectionStateReason, connecting, connected, unauthorized, network_error, disconnected,
  classify_connection_failure, next_connection_failure, connection_retry_max_delay_ms, keep_sticky,
}
use wrangle_webhooks.Sidecar.TunnelClient.{
  start_serving, Ready, unsettled, Phase, serves, TunnelClient, fail_ready, clear_ping,
  note_failure, open_socket, loop_turn, attempt_failed, woke, stop_serving, served, Incoming,
  mark_ready, start_ping, take_hello, forward_local, send, send_if_open, terminate, Leaving,
  staying, idle,
}

abbrev pub serves_some : Phase → Bool
serves_some (serves h) = true
serves_some _ = false

abbrev pub is_settled : Ready → Bool
is_settled unsettled = false
is_settled _ = true

abbrev pub is_live : ConnectionStateReason → Bool
is_live connected = true
is_live _ = false

abbrev pub is_idle : Phase → Bool
is_idle idle = true
is_idle _ = false

abbrev pub has_left : Leaving → Bool
has_left staying = false
has_left _ = true

-- The delay is between one and thirty seconds. The connection is serving, and its state is the live
-- one, only while the loop serves a socket; the state may stay that after a disconnect. A
-- connection that was aborted was disconnected, and one that was disconnected has no socket. By the
-- time that a socket is served, `ready` is settled.
abbrev pub IsSound : TunnelClient → Type 0
IsSound s =
    (1000 ≤ s.delay)
    × (s.delay ≤ connection_retry_max_delay_ms)
    × (s.serving ≡ true → serves_some s.phase ≡ true)
    × (is_live s.connection_state ≡ true → s.is_disconnected ≡ false → serves_some s.phase ≡ true)
    × (s.aborted ≡ true → s.is_disconnected ≡ true)
    × (s.is_disconnected ≡ true → s.socket ≡ none)
    × (has_left s.leaving ≡ true → s.is_disconnected ≡ true)
    × (is_idle s.phase ≡ false → s.loop_started ≡ true)
    × (serves_some s.phase ≡ true → is_settled s.ready ≡ true)

-- What of that does not look at the loop, and holds while it goes on.
abbrev pub IsAtRest : TunnelClient → Type 0
IsAtRest s =
    (1000 ≤ s.delay)
    × (s.delay ≤ connection_retry_max_delay_ms)
    × (s.serving ≡ false)
    × (is_live s.connection_state ≡ true → s.is_disconnected ≡ true)
    × (s.aborted ≡ true → s.is_disconnected ≡ true)
    × (s.is_disconnected ≡ true → s.socket ≡ none)
    × (has_left s.leaving ≡ true → s.is_disconnected ≡ true)
    × (s.loop_started ≡ true)

pub if-IsSound :
    (b : Bool) (s t : TunnelClient) → IsSound s → IsSound t → IsSound (if b then s else t)
if-IsSound true s t h k = h
if-IsSound false s t h k = k

pub loop_turn-IsSound : (s : TunnelClient) → IsAtRest s → IsSound (loop_turn s)
unfolding loop_turn open_socket
loop_turn-IsSound s h = ground arith

class_not_live :
    (error : Text) (status : Option ℕ) → is_live (classify_connection_failure error status) ≡ false
unfolding classify_connection_failure
class_not_live error none = ground arith
class_not_live error (some status) = ground arith

sticky_not_live :
    (next : ConnectionStateReason)
    → is_live next ≡ false
    → is_live (keep_sticky unauthorized next) ≡ false
sticky_not_live connecting h = refl
sticky_not_live connected h = h
sticky_not_live unauthorized h = refl
sticky_not_live network_error h = refl
sticky_not_live disconnected h = refl

failure_not_live :
    (current : ConnectionStateReason) (error : Text) (status : Option ℕ)
    → is_live (next_connection_failure current error status) ≡ false
unfolding next_connection_failure
failure_not_live connecting error status = class_not_live error status
failure_not_live connected error status = class_not_live error status
failure_not_live unauthorized error status = sticky_not_live _ (class_not_live error status)
failure_not_live network_error error status = class_not_live error status
failure_not_live disconnected error status = refl

pub attempt_failed-IsSound :
    (error : Text) (s : TunnelClient) → IsAtRest s → IsSound (attempt_failed error s)
unfolding attempt_failed note_failure fail_ready
attempt_failed-IsSound error s h = ground (arith, failure_not_live s.connection_state error none)

pub woke-IsSound : (s : TunnelClient) → IsAtRest s → IsSound (woke s)
unfolding woke
woke-IsSound s h = loop_turn-IsSound _ (ground arith)

pub stop_serving-IsAtRest :
    (h : ℕ) (s : TunnelClient)
    → IsSound s
    → serves_some s.phase ≡ true
    → IsAtRest (stop_serving h s)
unfolding stop_serving clear_ping
stop_serving-IsAtRest h s k r = ground arith

pub served-IsSound :
    (h : ℕ) (s : TunnelClient) → IsSound s → serves_some s.phase ≡ true → IsSound (served h s)
unfolding served
served-IsSound h s k r = loop_turn-IsSound _ (ground (arith, stop_serving-IsAtRest h s k r))

-- A loop that waits for no event of a served socket is at rest.
abbrev pub waits : Phase → Bool
waits idle = false
waits (serves h) = false
waits _ = true

pub resting : (s : TunnelClient) → IsSound s → waits s.phase ≡ true → IsAtRest s
resting s h k = ground arith

pub refused-IsSound :
    (h status : ℕ) (s : TunnelClient)
    → IsSound s
    → IsSound (terminate h (note_failure (codes "undefined") (some status) s))
unfolding terminate note_failure
refused-IsSound h status s k =
    ground (arith, failure_not_live s.connection_state (codes "undefined") (some status))

hello-IsSound :
    (h now : ℕ) (id : Text) (message : Incoming) (s : TunnelClient)
    → IsSound s
    → waits s.phase ≡ true
    → IsSound (take_hello h now id message s)
unfolding take_hello start_serving start_ping mark_ready
hello-IsSound h now id message s k r = ground arith

greet-IsSound :
    (h now : ℕ) (message : Option (Option Incoming)) (s : TunnelClient)
    → IsSound s
    → waits s.phase ≡ true
    → IsSound (greet h now message s)
unfolding greet
greet-IsSound h now none s k r =
    attempt_failed-IsSound (codes "invalid tunnel hello") s (resting s k r)
greet-IsSound h now (some none) s k r = k
greet-IsSound h now (some (some message)) s k r =
    if-IsSound (is_tunnel_hello (some message.parsed)) _ s (hello-IsSound h now _ message s k r) k

pub on_greeting-IsSound :
    (c : Context) (h now : ℕ) (text : Text) (s : TunnelClient)
    → IsSound s
    → waits s.phase ≡ true
    → IsSound (on_greeting c h now text s)
unfolding on_greeting
on_greeting-IsSound c h now text s k r =
    if-IsSound (text_eq text tunnel_pong) _ _ k
      (if-IsSound (text_eq text tunnel_ping) s _ k (greet-IsSound h now (c.parse text) s k r))

answer_request-IsSound :
    (c : Context) (h : ℕ) (message : Option (Option Incoming)) (s : TunnelClient)
    → IsSound s
    → IsSound (answer_request c h message s)
unfolding answer_request forward_local
answer_request-IsSound c h none s k = k
answer_request-IsSound c h (some none) s k = k
answer_request-IsSound c h (some (some message)) s k =
    if-IsSound (is_tunnel_request (some message.parsed)) _ s k k

pub handle_message-IsSound :
    (c : Context) (h now : ℕ) (text : Text) (s : TunnelClient)
    → IsSound s
    → IsSound (handle_message c h now text s)
unfolding handle_message
handle_message-IsSound c h now text s k =
    if-IsSound (text_eq text tunnel_pong) _ _ k
      (if-IsSound (text_eq text tunnel_ping) s _ k (answer_request-IsSound c h (c.parse text) s k))

pub on_fetched-IsSound :
    (h : ℕ) (id : Text) (ok : Bool) (s : TunnelClient) → IsSound s → IsSound (on_fetched h id ok s)
unfolding on_fetched send_if_open send
on_fetched-IsSound h id ok s k = ground arith

pub on_tick-IsSound : (now : ℕ) (s : TunnelClient) → IsSound s → IsSound (on_tick now s)
unfolding on_tick terminate send
on_tick-IsSound now s k = ground arith
