-- ===== src/Router.antt =====
-- worker.ts: which part of the router answers a request, and the router as a whole.
use wrangle_webhooks.Base.{if◌then◌else◌, Text, codes, text_eq, starts_with, ℕ, ◌||◌, Option, List}
use wrangle_webhooks.Tunnel.{Headers}
use wrangle_webhooks.Oauth.{Params}
use wrangle_webhooks.Ingress.Handler.{World, PublicRequest, PublicResponse}
use wrangle_webhooks.Ingress.Handler.Branches.{Outside, handle_public_ingress}
use wrangle_webhooks.Management.{Json, ManagementRequest, Env, Answer}
use wrangle_webhooks.Management.Dispatch.{handle_management}
use wrangle_webhooks.Dashboard.{Form, DashboardRequest, Page}
use wrangle_webhooks.Dashboard.Http.{handle_dashboard}
pub mod Reachable
pub mod Settings
pub mod Secrets
mod Tests

pub data Part : Type 0 where
  dashboard management ingress : Part

-- The tests of `fetch`, on the path.
unfoldable pub part_for : Text → Part
part_for pathname =
    if text_eq pathname (codes "/dashboard")
      || (text_eq pathname (codes "/dashboard.json") || starts_with pathname (codes "/dashboard/"))
    then dashboard
    else if text_eq pathname (codes "/_router") || starts_with pathname (codes "/_router/")
    then management
    else ingress

-- A request as the runtime gives it: what any part reads of it.
pub record Request : Type 0 where
  pub pathname : Text
  pub search : Text
  pub host : Text
  pub protocol : Text
  pub method : Text
  pub query : Params
  pub header_pairs : Headers
  pub authorization : Option Text
  pub protocols : Option Text
  pub upgrade : Option Text
  pub cookie : Option Text
  pub content_type : Option Text
  pub content_length : Option Text
  pub connecting_ip : Option Text
  pub connection_token : Option Text
  pub form : Option Form
  pub body : Option Json
  pub stream : Option (List (List ℕ))

abbrev pub dashboard_request : Request → DashboardRequest
dashboard_request r = record {
  pathname = r.pathname;
  method = r.method;
  content_type = r.content_type;
  cookie = r.cookie;
  secure = text_eq r.protocol (codes "https:");
  form = r.form;
  body = r.body;
}

abbrev pub management_request : Request → ManagementRequest
management_request r = record {
  pathname = r.pathname;
  method = r.method;
  query = r.query;
  authorization = r.authorization;
  protocols = r.protocols;
  upgrade = r.upgrade;
  content_type = r.content_type;
  connecting_ip = r.connecting_ip;
  connection_token = r.connection_token;
  body = r.body;
}

abbrev pub public_request : Request → PublicRequest
public_request r = record {
  pathname = r.pathname;
  search = r.search;
  host = r.host;
  protocol = r.protocol;
  method = r.method;
  header_pairs = r.header_pairs;
  content_type = r.content_type;
  content_length = r.content_length;
  connecting_ip = r.connecting_ip;
  stream = r.stream;
}

-- An answer of one of the parts.
pub data Response : Type 0 where
  of_dashboard : Page → Response
  of_management : Answer → Response
  of_ingress : PublicResponse → Response

module _ (o : Outside) (env : Env) (password id : Text) where
  unfoldable pub dispatch : Part → Request → World → World × Response
  dispatch dashboard request w =
      let (next, page) = handle_dashboard env password (dashboard_request request) w in
      (next, of_dashboard page)
  dispatch management request w =
      let (next, answer) = handle_management env (management_request request) w in
      (next, of_management answer)
  dispatch ingress request w =
      let (next, response) = handle_public_ingress o env.now (public_request request) id w in
      (next, of_ingress response)

  -- The dashboard's password is empty where it is not configured, and `id` is the id that the
  -- ingress gives a request.
  unfoldable pub fetch : Request → World → World × Response
  fetch request w = dispatch (part_for request.pathname) request w
