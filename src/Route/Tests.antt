-- ===== src/Route/Tests.antt =====
-- The theorems on a route's tables at concrete states.
use wrangle_webhooks.Base.{
  All, Member, Text, codes, text_eq, ◌<◌, ◌≡◌, refl, inl, true, Option, none, some, [], ◌∷◌, ◌++◌,
  arith,
}
use wrangle_webhooks.Log.Connection.{public_target}
use wrangle_webhooks.Secrets.{
  utf8, mismatch_from, timing_safe_equal_string, random_connection_token, hash_connection_token,
  connection_token_matches,
}
use wrangle_webhooks.Tunnel.{Parsed}
use wrangle_webhooks.Route.{
  SubscriberRow, OauthBinding, RouteState, lookup_subscriber_by_environment,
}
use wrangle_webhooks.Route.Expiry.{purge_expired}
use wrangle_webhooks.Route.Attach.Connect.{register}
use wrangle_webhooks.Route.Attach.{
  Fresh, AttachOptions, subscriber_is_live, conflicts, create, find_existing, attach_with,
  reclaim_or_create,
}
use wrangle_webhooks.Route.Lifecycle.{verify_connection_token, deregister, run_alarm}
use wrangle_webhooks.Route.Inv.{IsConsistent}
use wrangle_webhooks.Route.Inv.Reach.{
  empty_route, Runtime, registering, deregistering, Reachable, initial, after,
}
use wrangle_webhooks.Route.Alarm.{IsArmed}
use wrangle_webhooks.Route.Alarm.Chain.{run_alarm-IsArmed}
use wrangle_webhooks.Route.Purge.Current.{purge_expired-current}
use wrangle_webhooks.Route.Purge.Kept.{purge_expired-keeps}
use wrangle_webhooks.Route.Removal.{IsGone, deregister-IsGone}
use wrangle_webhooks.Route.Ownership.{IsHeldIn, reclaim_or_create-IsHeld, returned_token_verifies}
use wrangle_webhooks.Route.Refusal.{IsUntouched, refused-IsUntouched}
mod Events

abbrev app : Text
app = codes "app"

-- A digest for the tests.
abbrev pub sha256 : Text → Text
sha256 text = codes "h" ++ text

-- Every message is the answer to the request r.
abbrev pub parse_json : Text → Option (Option Parsed)
parse_json text = some (
    some (record {
      kind = some (codes "response");
      id = some (codes "r");
      subscriber_id = none;
      status = 200;
      headers = [];
      body = [];
      message = [];
      code = [];
    }))

abbrev runtime : Runtime
runtime = record {
  sha256 = sha256;
  parse_json = parse_json;
  build = λ d payload. [];
  sends = λ handle. true;
  unwrap = λ state. none;
}

abbrev pub fresh : Fresh
fresh = record {
  connection_hex = codes "c1";
  subscriber_hex = codes "s1";
  forward_hex = codes "f1";
  handle = 1;
}

abbrev pub wanted : AttachOptions
wanted = record {
  environment_id = some (codes "alice");
  transport = public_target;
  target_base_url = codes "https://example.com/";
  connection_token = none;
  client_ip = none;
  accept_webhooks = true;
}

abbrev registered_state : RouteState
registered_state = (register sha256 fresh 5 app wanted empty_route).0

abbrev final_state : RouteState
final_state = deregister 9 (codes "sub_s1") registered_state

run : Reachable runtime final_state
run =
    after (after initial (registering fresh 5 app wanted empty_route))
      (deregistering 9 (codes "sub_s1") registered_state)

-- A public subscriber of alice's environment.
abbrev held_row : SubscriberRow
held_row = record {
  id = codes "sub_s1";
  transport = public_target;
  target_base_url = codes "https://example.com/";
  forward_token = codes "ft_f1";
  connection_token_hash = codes "hct_c0";
  environment_id = some (codes "alice");
  accept_webhooks = true;
  created_at = 1;
  last_heartbeat_at = 1;
  expires_at = 300001;
}

abbrev pub held_state : RouteState
held_state = record empty_route { rows = held_row ∷ [] }

held-IsConsistent : IsConsistent held_state
held-IsConsistent = record { ids = (refl, tt); environments = (refl, tt); subscribers = tt }

reclaim_or_create-IsHeld_example :
    IsHeldIn sha256 5 wanted
      (reclaim_or_create sha256 fresh 5 wanted held_state).0
      (reclaim_or_create sha256 fresh 5 wanted held_state).1
reclaim_or_create-IsHeld_example =
    reclaim_or_create-IsHeld sha256 fresh 5 wanted held_state held-IsConsistent

returned_token_verifies_example :
    verify_connection_token sha256
      (codes "sub_s1")
      (codes "ct_c1")
      (reclaim_or_create sha256 fresh 5 wanted empty_route).0
    ≡ true
unfolding reclaim_or_create attach_with find_existing lookup_subscriber_by_environment create
    conflicts random_connection_token
returned_token_verifies_example =
    returned_token_verifies sha256 fresh 5 wanted empty_route (codes "sub_s1") (codes "ft_f1")
      (codes "ct_c1") refl (record { ids = tt; environments = tt; subscribers = tt }) refl

purge_expired-current_example :
    All (λ (r : SubscriberRow). 300001 < r.expires_at) (purge_expired 300001 held_state).rows
    × All (λ (b : OauthBinding). 300001 < b.expires_at) (purge_expired 300001 held_state).bindings
purge_expired-current_example = purge_expired-current 300001 held_state

purge_expired-keeps_example : Member held_row (purge_expired 5 held_state).rows
purge_expired-keeps_example =
    purge_expired-keeps 5 held_row held_state held-IsConsistent (inl refl) refl (omega arith)

run_alarm-IsArmed_example :
    IsArmed 7 (run_alarm 7 held_state).rows (run_alarm 7 held_state).alarm
    × IsArmed 7
        (deregister 7 (codes "sub_s1") held_state).rows
        (deregister 7 (codes "sub_s1") held_state).alarm
run_alarm-IsArmed_example = run_alarm-IsArmed 7 (codes "sub_s1") held_state

deregister-IsGone_example : IsGone (codes "sub_s1") (deregister 9 (codes "sub_s1") held_state)
deregister-IsGone_example = deregister-IsGone 9 (codes "sub_s1") held_state held-IsConsistent
