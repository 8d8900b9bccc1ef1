-- ===== src/Sidecar/TunnelClient/Events/Tests.antt =====
-- The theorems on the tunnel client at concrete events.
use wrangle_webhooks.Base.{
  List, [], arith, codes, if◌then◌else◌, includes, none, or_text, refl, some, text_eq, to_lower,
  true, ◌++◌, ◌∷◌, ◌≡◌,
}
use wrangle_webhooks.Tunnel.{is_tunnel_hello}
use wrangle_webhooks.Sidecar.{
  classify_connection_failure, connected, disconnected, mentions_denial, next_connection_failure,
  unauthorized,
}
use wrangle_webhooks.Sidecar.TunnelClient.{
  start_serving, Incoming, Phase, TunnelClient, attempt_failed, awaits_hello, begin, ended,
  fulfilled, is_connected, loop_turn, mark_ready, note_failure, open_socket, ready_closed,
  ready_open, serves, start_ping, take_hello, terminate, woke,
}
use wrangle_webhooks.Sidecar.TunnelClient.Events.{
  Context, Event, began, closes, deleted, errs, fresh_client, greet, left, on_error, on_event,
  on_greeting, on_message, on_open, opened, receives, refused, run, slept, ticked,
}
use wrangle_webhooks.Sidecar.TunnelClient.Events.Sound.{IsSound}
use wrangle_webhooks.Sidecar.TunnelClient.Events.Always.{reached-IsSound}
use wrangle_webhooks.Sidecar.TunnelClient.Events.Left.{Continues, run-Continues}
use wrangle_webhooks.Sidecar.TunnelClient.Events.Alive.{rounds, ticks_at, ticks_keep_alive}
use wrangle_webhooks.Sidecar.TunnelClient.Events.Goodbye.{disconnect_ends, hello_after_disconnect}

abbrev hello : Incoming
hello = record {
  parsed = record {
    kind = some (codes "hello");
    id = none;
    subscriber_id = some (codes "sub_1");
    status = 0;
    headers = [];
    body = [];
    message = [];
    code = [];
  };
  forward_token = codes "ft_1";
  connection_token = some (codes "ct_1");
  method = [];
  path = [];
  search = [];
}

abbrev context : Context
context = record {
  secret = codes "op";
  join = λ path search. path ++ search;
  parse = λ text. if text_eq text (codes "{hello}") then some (some hello) else none;
}

-- A connection in one of the phases with its socket open.
abbrev client_in : Phase → TunnelClient
client_in phase = record fresh_client {
  loop_started = true;
  socket = some 0;
  states = λ h. ready_open;
  phase = phase;
  offered = [] ∷ [];
}

abbrev serving_client : TunnelClient
serving_client = record (client_in (serves 0)) {
  subscriber_id = codes "sub_1";
  connection_token = codes "ct_1";
  connection_state = connected;
  serving = true;
  ready = fulfilled;
  ping_timer = some 0;
  last_pong_at = 10;
}

abbrev greeting : List Event
greeting = began ∷ opened 0 ∷ receives 0 10 (codes "{hello}") ∷ []

reached-IsSound_example : IsSound (run context greeting fresh_client)
reached-IsSound_example = reached-IsSound context greeting

run-Continues_example :
    Continues
      (run context greeting fresh_client)
      (run context (left ∷ closes 0 ∷ slept ∷ []) (run context greeting fresh_client))
run-Continues_example =
    run-Continues context (left ∷ closes 0 ∷ slept ∷ []) (run context greeting fresh_client)

ticks_keep_alive_example :
    ((run context (ticks_at (30010 ∷ 60010 ∷ [])) serving_client).outbox
      ≡ serving_client.outbox ++ rounds 0 0 2)
    × ((run context
            (ticked 90010 ∷ [])
            (run context (ticks_at (30010 ∷ 60010 ∷ [])) serving_client)).states
          0
        ≡ ready_closed)
ticks_keep_alive_example =
    ticks_keep_alive context (30010 ∷ 60010 ∷ []) 90010 0 serving_client refl refl
      (omega arith, (omega arith, tt)) (omega arith)

disconnect_ends_example :
    ((run context (left ∷ closes 0 ∷ deleted ∷ []) serving_client).phase ≡ ended)
    × ((run context (left ∷ closes 0 ∷ deleted ∷ []) serving_client).connection_state
        ≡ disconnected)
    × ((run context (left ∷ closes 0 ∷ deleted ∷ []) serving_client).aborted ≡ true)
    × ((run context (left ∷ closes 0 ∷ deleted ∷ []) serving_client).deletions
        ≡ serving_client.deletions ++ (or_text serving_client.connection_token context.secret ∷ []))
    × ((run context (left ∷ closes 0 ∷ deleted ∷ []) serving_client).offered
        ≡ serving_client.offered)
disconnect_ends_example = disconnect_ends context 0 serving_client (refl, refl, refl, refl) refl

abbrev late_hello : List Event
late_hello = left ∷ receives 0 10 (codes "{hello}") ∷ closes 0 ∷ deleted ∷ []

hello_after_disconnect_example :
    ((run context late_hello (client_in (awaits_hello 0))).is_disconnected ≡ true)
    × ((run context late_hello (client_in (awaits_hello 0))).phase ≡ ended)
    × ((run context late_hello (client_in (awaits_hello 0))).connection_state ≡ connected)
    × ((run context late_hello (client_in (awaits_hello 0))).ready ≡ fulfilled)
unfolding text_eq is_tunnel_hello
hello_after_disconnect_example =
    hello_after_disconnect context 0 10 (codes "{hello}") hello (client_in (awaits_hello 0))
      (refl, refl, refl, refl) refl refl refl refl refl refl

greeted : is_connected (run context greeting fresh_client) ≡ true
unfolding run is_connected on_event on_message on_open begin loop_turn open_socket on_greeting
    text_eq greet is_tunnel_hello take_hello start_serving start_ping mark_ready
greeted = refl

-- After a refusal the loop sleeps, doubles its delay and asks for a second socket.
abbrev refusal : List Event
refusal = began ∷ refused 0 401 ∷ errs 0 (codes "closed") ∷ slept ∷ []

refused_again :
    ((run context refusal fresh_client).connection_state ≡ unauthorized)
    × ((run context refusal fresh_client).delay ≡ 2000)
    × ((run context refusal fresh_client).offered ≡ [] ∷ [] ∷ [])
unfolding run on_event on_error terminate note_failure begin loop_turn open_socket attempt_failed
    woke next_connection_failure classify_connection_failure mentions_denial includes to_lower
refused_again = (refl, refl, refl)
