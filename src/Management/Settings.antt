-- ===== src/Management/Settings.antt =====
-- management-http.ts: the operator's settings, OAuth callback paths and the webhook fan-out.
use wrangle_webhooks.Base.{
  if◌then◌else◌, is_some, or_else, is_empty, Text, codes, text_eq, Bool, not, ◌&&◌, ◌||◌, Option,
  none, some, [],
}
use wrangle_webhooks.Path.RouteId.{is_allowed_route_id}
use wrangle_webhooks.Path.Remaining.{validate_oauth_callback_path}
use wrangle_webhooks.Oauth.{Params, get, truthy, or_other}
use wrangle_webhooks.Index.{
  IndexState, add_oauth_callback_path, remove_oauth_callback_path, add_webhook_fanout_rule,
  remove_webhook_fanout_rule, set_webhook_fanout_deny_all, get_webhook_fanout_settings,
  list_oauth_callback_paths,
}
use wrangle_webhooks.Ingress.Handler.{World}
use wrangle_webhooks.Management.{
  text_property, boolean_property, ManagementRequest, Env, Answer, failure, no_content, path_list,
  path_stored, settings, rule_list, rule_stored, unauthorized_management_response, invalid_route,
  invalid_json, method_not_allowed, require_management_auth,
}
use wrangle_webhooks.Fanout.Storage.{
  WriteError, stored, refused, invalid_route_id, invalid_webhook_filter_path,
  invalid_webhook_fanout_mode, invalid_environment_id, webhook_fanout_rule_limit_reached,
}

-- `request.method === "DELETE" && !request.headers.get("content-type")`
abbrev pub is_bare_delete : ManagementRequest → Bool
is_bare_delete request =
    text_eq request.method (codes "DELETE") && not (truthy request.content_type)

unfoldable pub read_oauth_callback_path_body : ManagementRequest → Option Text
read_oauth_callback_path_body request =
    if is_bare_delete request
    then none
    else elim request.body [ none ↦ none | some payload ↦ text_property (codes "path") payload ]

abbrev pub set_index : IndexState → World → World
set_index index w = record w { index = index }

unfoldable pub put_oauth_callback_path : Env → ManagementRequest → Text → World → World × Answer
put_oauth_callback_path env request route w = elim (read_oauth_callback_path_body request) [
  | none ↦ (w, invalid_json)
  | some path ↦
      let (next, row) = add_oauth_callback_path route path env.now w.index in
      if not (is_some (validate_oauth_callback_path path))
      then (w, failure 400 (codes "invalid_oauth_callback_path"))
      else (
        set_index next w,
        elim row [
          | none ↦ failure 400 (codes "invalid_oauth_callback_path")
          | some stored_row ↦ path_stored stored_row
        ],
      )
]

unfoldable pub remove_oauth_callback : ManagementRequest → Text → World → World × Answer
remove_oauth_callback request route w =
    let path =
      or_else (or_other (read_oauth_callback_path_body request) (get (codes "path") request.query))
        [] in
    let (next, removed) = remove_oauth_callback_path route path w.index in
    if is_empty path || not (is_some (validate_oauth_callback_path path))
    then (w, failure 400 (codes "invalid_oauth_callback_path"))
    else (
      set_index next w,
      if removed then no_content else failure 404 (codes "oauth_callback_path_not_found"),
    )

unfoldable pub handle_oauth_callback_paths : Env → ManagementRequest → Text → World → World × Answer
handle_oauth_callback_paths env request route w =
    if not (require_management_auth env request)
    then (w, unauthorized_management_response)
    else if not (is_allowed_route_id route)
    then (w, invalid_route)
    else if text_eq request.method (codes "GET")
    then (w, path_list route (list_oauth_callback_paths route w.index))
    else if text_eq request.method (codes "PUT")
    then put_oauth_callback_path env request route w
    else if text_eq request.method (codes "DELETE")
    then remove_oauth_callback request route w
    else (w, method_not_allowed)

unfoldable pub read_deny_all_webhooks_body : ManagementRequest → Option Bool
read_deny_all_webhooks_body request = elim request.body [
  | none ↦ none
  | some payload ↦ boolean_property (codes "denyAllWebhooks") payload
]

unfoldable pub put_deny_all : Env → ManagementRequest → Text → World → World × Answer
put_deny_all env request route w = elim (read_deny_all_webhooks_body request) [
  | none ↦ (w, invalid_json)
  | some deny_all ↦
      let (next, written) = set_webhook_fanout_deny_all route deny_all env.now w.index in
      (set_index next w, elim written [ none ↦ invalid_route | some found ↦ settings found ])
]

unfoldable pub handle_webhook_fanout_settings :
    Env → ManagementRequest → Text → World → World × Answer
handle_webhook_fanout_settings env request route w =
    if not (require_management_auth env request)
    then (w, unauthorized_management_response)
    else if not (is_allowed_route_id route)
    then (w, invalid_route)
    else if text_eq request.method (codes "GET")
    then (w, settings (get_webhook_fanout_settings route w.index))
    else if text_eq request.method (codes "PUT")
    then put_deny_all env request route w
    else (w, method_not_allowed)

pub record RuleBody : Type 0 where
  pub mode : Text
  pub path : Text
  pub environment_id : Option Text

unfoldable pub rule_of : Option Text → Option Text → Option Text → Option RuleBody
rule_of none path environment = none
rule_of (some mode) none environment = none
rule_of (some mode) (some path) environment =
    some (record { mode = mode; path = path; environment_id = environment })

unfoldable pub read_webhook_fanout_rule_body : ManagementRequest → Option RuleBody
read_webhook_fanout_rule_body request = if is_bare_delete request then none else elim request.body [
  | none ↦ none
  | some payload ↦
      rule_of (text_property (codes "mode") payload) (text_property (codes "path") payload)
        (text_property (codes "environmentId") payload)
]

unfoldable pub read_webhook_fanout_rule_query : Params → Option RuleBody
read_webhook_fanout_rule_query query =
    let mode = get (codes "mode") query in
    let path = get (codes "path") query in
    if not (truthy mode) || not (truthy path)
    then none
    else rule_of mode path (get (codes "environmentId") query)

unfoldable pub write_error_code : WriteError → Text
write_error_code invalid_route_id = codes "invalid_route_id"
write_error_code invalid_webhook_filter_path = codes "invalid_webhook_filter_path"
write_error_code invalid_webhook_fanout_mode = codes "invalid_webhook_fanout_mode"
write_error_code invalid_environment_id = codes "invalid_environment_id"
write_error_code webhook_fanout_rule_limit_reached = codes "webhook_fanout_rule_limit"

unfoldable pub put_rule : Env → ManagementRequest → Text → World → World × Answer
put_rule env request route w = elim (read_webhook_fanout_rule_body request) [
  | none ↦ (w, invalid_json)
  | some body ↦
      let (next, result) =
        add_webhook_fanout_rule route body.mode body.path body.environment_id env.now w.index in
      (
        set_index next w,
        elim result [
          | stored rule ↦ rule_stored rule
          | refused error ↦ failure 400 (write_error_code error)
        ],
      )
]

unfoldable pub remove_rule : ManagementRequest → Text → World → World × Answer
remove_rule request route w =
    elim (or_other (read_webhook_fanout_rule_body request)
      (read_webhook_fanout_rule_query request.query)) [
        | none ↦ (w, invalid_json)
        | some body ↦
            let (next, removed) =
              remove_webhook_fanout_rule route body.mode body.path body.environment_id w.index in
            (
              set_index next w,
              if removed then no_content else failure 404 (codes "webhook_fanout_rule_not_found"),
            )
      ]

unfoldable pub handle_webhook_fanout_rules : Env → ManagementRequest → Text → World → World × Answer
handle_webhook_fanout_rules env request route w =
    if not (require_management_auth env request)
    then (w, unauthorized_management_response)
    else if not (is_allowed_route_id route)
    then (w, invalid_route)
    else if text_eq request.method (codes "GET")
    then (w, rule_list route (get_webhook_fanout_settings route w.index).rules)
    else if text_eq request.method (codes "PUT")
    then put_rule env request route w
    else if text_eq request.method (codes "DELETE")
    then remove_rule request route w
    else (w, method_not_allowed)
