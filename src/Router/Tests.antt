-- ===== src/Router/Tests.antt =====
-- The theorems on the router at concrete requests.
use wrangle_webhooks.Management.Access.{IsOperator}
use wrangle_webhooks.Ingress.Handler.{World}
use wrangle_webhooks.Ingress.Handler.Branches.{Outside}
use wrangle_webhooks.Management.{Env, read_management_secret}
use wrangle_webhooks.Route.Inv.Reach.{empty_route}
use wrangle_webhooks.Router.Secrets.{settings_need_secret}
use wrangle_webhooks.Management.Effects.OperatorOnly.{HasSameSettings}
use wrangle_webhooks.Dashboard.Session.{
  find_cookie, cookie_value, read_dashboard_session, require_dashboard_auth,
}
use wrangle_webhooks.Tunnel.{decode_tunnel_subprotocol_secret}
use wrangle_webhooks.Dashboard.{typed}
use wrangle_webhooks.Base.{
  some, codes, refl, starts_with, has_unit, split, trim, true, none, [], ◌∷◌,
}
use wrangle_webhooks.Router.{Request, management_request, fetch}

abbrev env : Env
env = record {
  secret = codes "op";
  hmac = λ secret message. codes "m";
  sha256 = λ text. text;
  decode_secret = λ text. none;
  parse_url = λ text. none;
  hex = λ id. codes "00";
  fresh = record {
    connection_hex = codes "c1";
    subscriber_hex = codes "s1";
    forward_hex = codes "f1";
    handle = 1;
  };
  now = 5;
}

abbrev outside : Outside
outside = record {
  parse_params = λ text. [];
  decode_text = λ bytes. bytes;
  build = λ subscriber payload. [];
  sends = λ handle. true;
  unwrap = λ text. none;
  hex = λ text. codes "00";
  outcome = λ started. record { status = 200; error = none };
}

abbrev world : World
world = record {
  index = record {
    routes = record { route_id = []; updated_at = 2 } ∷ [];
    connection_events = [];
    inbound_events = [];
    callback_paths = record { route_id = []; remaining_path = codes "/cb"; created_at = 1 } ∷ [];
    fanout = record { settings = []; rules = [] };
  };
  routes = λ name. empty_route;
  recorded = [];
  started = [];
}

-- A form that would remove the callback path, with neither a secret nor a session.
abbrev removal : Request
removal = record {
  pathname = codes "/dashboard/oauth-callback-paths/delete";
  search = [];
  host = codes "router.example";
  protocol = codes "https:";
  method = codes "POST";
  query = [];
  header_pairs = [];
  authorization = none;
  protocols = none;
  upgrade = none;
  cookie = none;
  content_type = none;
  content_length = none;
  connecting_ip = none;
  connection_token = none;
  form = some ((codes "path", typed (codes "/cb")) ∷ []);
  body = none;
  stream = none;
}

no-IsOperator : ¬ (IsOperator env (management_request removal))
unfolding read_management_secret starts_with decode_tunnel_subprotocol_secret
no-IsOperator (given, e, same) = cc

settings_need_secret_example :
    HasSameSettings world.index (fetch outside env (codes "pw") (codes "id") removal world).0.index
unfolding require_dashboard_auth read_dashboard_session find_cookie split cookie_value has_unit trim
settings_need_secret_example =
    settings_need_secret outside env (codes "pw") (codes "id") removal world no-IsOperator refl
