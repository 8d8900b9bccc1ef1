-- ===== src/Oauth/Paths.antt =====
-- oauth-callback-path-storage.ts: the allowlist of OAuth callback paths in the router index.
use wrangle_webhooks.Base.{
  ◌==◌, if◌then◌else◌, filter, Text, text_eq, ℕ, Bool, true, false, not, ◌&&◌, Option, none, some,
  List, [], map,
}
use wrangle_webhooks.Base.Sql.{count_where, delete_where, upsert, order_by, text_lt, before_or_same}
use wrangle_webhooks.Path.RouteId.{is_allowed_route_id}
use wrangle_webhooks.Path.Remaining.{normalize_oauth_callback_path, validate_oauth_callback_path}
pub mod Listed

pub record OauthCallbackPathRow : Type 0 where
  pub route_id : Text
  pub remaining_path : Text
  pub created_at : ℕ

-- `route_id = ? AND remaining_path = ?`, the primary key.
abbrev pub has_path_key : Text → Text → OauthCallbackPathRow → Bool
has_path_key route_id path r = text_eq r.route_id route_id && text_eq r.remaining_path path

-- What follows the checks of the upsert.
abbrev pub put_callback_path :
    Text → Text → ℕ → List OauthCallbackPathRow → List OauthCallbackPathRow
put_callback_path route_id path now sql =
    upsert (has_path_key route_id path) (λ r. record r { created_at = now })
      (record { route_id = route_id; remaining_path = path; created_at = now }) sql

unfoldable pub upsert_oauth_callback_path :
    List OauthCallbackPathRow
    → Text
    → Text
    → ℕ
    → List OauthCallbackPathRow × Option OauthCallbackPathRow
upsert_oauth_callback_path sql route_id remaining_path now =
    if not (is_allowed_route_id route_id)
    then (sql, none)
    else elim (validate_oauth_callback_path remaining_path) [
      | none ↦ (sql, none)
      | some path ↦ (
        put_callback_path route_id path now sql,
        some (record { route_id = route_id; remaining_path = path; created_at = now }),
      )
    ]

unfoldable pub delete_oauth_callback_path :
    List OauthCallbackPathRow → Text → Text → List OauthCallbackPathRow × Bool
delete_oauth_callback_path sql route_id remaining_path =
    let path = normalize_oauth_callback_path remaining_path in
    if not (is_allowed_route_id route_id)
    then (sql, false)
    else if count_where (has_path_key route_id path) sql == 0
    then (sql, false)
    else (delete_where (has_path_key route_id path) sql, true)

-- `ORDER BY remaining_path ASC`
abbrev pub by_path : OauthCallbackPathRow → OauthCallbackPathRow → Bool
by_path a b = not (text_lt b.remaining_path a.remaining_path)

unfoldable pub list_oauth_callback_paths_for_route : List OauthCallbackPathRow → Text → List Text
list_oauth_callback_paths_for_route sql route_id =
    if not (is_allowed_route_id route_id)
    then []
    else map (λ (r : OauthCallbackPathRow). r.remaining_path)
        (order_by by_path (filter (λ (r : OauthCallbackPathRow). text_eq r.route_id route_id) sql))

-- `ORDER BY route_id ASC, remaining_path ASC`
unfoldable pub list_all_oauth_callback_paths : List OauthCallbackPathRow → List OauthCallbackPathRow
list_all_oauth_callback_paths sql =
    order_by
      (λ (a b : OauthCallbackPathRow).
        before_or_same (text_lt a.route_id b.route_id) (text_eq a.route_id b.route_id)
          (by_path a b))
      sql
