-- ===== src/Oauth.antt =====
-- oauth-state.ts: how a public request is classified, and the signed OAuth states. The parser of
-- `URLSearchParams` is a parameter.
use wrangle_webhooks.Base.{
  if◌then◌else◌, or_else, is_empty, drop, Text, codes, text_eq, starts_with, includes, trim,
  to_lower, upper, to_upper, ℕ, ◌*◌, Bool, false, not, ◌&&◌, ◌||◌, Option, none, some, List, [],
  ◌∷◌,
}
use wrangle_webhooks.Path.Remaining.{
  is_allowlisted_oauth_callback_path, looks_like_oauth_callback_path,
}
pub mod Classify
pub mod Signed
pub mod Paths
mod Tests

abbrev pub oauth_state_prefix : Text
oauth_state_prefix = codes "dr1."

-- 15 minutes, in milliseconds.
abbrev pub oauth_state_ttl_ms : ℕ
oauth_state_ttl_ms = 15 * 60 * 1000

abbrev pub oauth_state_max_length : ℕ
oauth_state_max_length = 2048

-- The pairs of a query or form, in order.
abbrev pub Params : Type 0
Params = List (Text × Text)

pub data DeliveryClass : Type 0 where
  oauth fanout oauth_callback_incomplete : DeliveryClass
  oauth_callback_not_registered oauth_method_not_allowed : DeliveryClass

-- `params.get(name)`: the first value.
unfoldable pub get : Text → Params → Option Text
get name [] = none
get name ((k, v) ∷ params) = if text_eq k name then some v else get name params

-- `Boolean(value)` of a text or null.
abbrev pub truthy : Option Text → Bool
truthy none = false
truthy (some s) = not (is_empty s)

-- `a ?? b`
abbrev pub or_other {ℓ} : {A : Type ℓ} → Option A → Option A → Option A
or_other none b = b
or_other (some a) b = some a

unfoldable pub is_oauth_callback_method : Text → Bool
is_oauth_callback_method method =
    let upper = to_upper (trim method) in
    text_eq upper (codes "GET") || text_eq upper (codes "POST")

-- `search.startsWith("?") ? search.slice(1) : search`
unfoldable pub without_mark : Text → Text
without_mark search = if starts_with search (codes "?") then drop 1 search else search

pub record ResultParams : Type 0 where
  pub state : Option Text
  pub code : Option Text
  pub error : Option Text

pub record DeliveryOptions : Type 0 where
  pub remaining_path : Text
  pub search : Text
  pub form : Option Params
  pub method : Option Text
  pub allowed_callback_paths : List Text

-- `form?.get(name) ?? null`
unfoldable pub form_get : Text → Option Params → Option Text
form_get name none = none
form_get name (some form) = get name form

-- The tests of `classifyDelivery`, on the parameters that were read.
unfoldable pub classify : DeliveryOptions → ResultParams → DeliveryClass
classify options found =
    let has_result = truthy found.code || truthy found.error in
    let allowlisted =
      is_allowlisted_oauth_callback_path options.remaining_path options.allowed_callback_paths in
    let reserved =
      looks_like_oauth_callback_path options.remaining_path
      || starts_with (or_else found.state []) oauth_state_prefix in
    if allowlisted
    then if not has_result
      then oauth_callback_incomplete
      else if truthy options.method && not (is_oauth_callback_method (or_else options.method []))
      then oauth_method_not_allowed
      else oauth
    else if reserved
    then oauth_callback_not_registered
    else fanout

module _ (parse_params : Text → Params) where
  unfoldable pub oauth_callback_result_params : Text → Option Params → ResultParams
  oauth_callback_result_params search form =
      let query = parse_params (without_mark search) in
      record {
        state = or_other (get (codes "state") query) (form_get (codes "state") form);
        code = or_other (get (codes "code") query) (form_get (codes "code") form);
        error = or_other (get (codes "error") query) (form_get (codes "error") form);
      }

  unfoldable pub has_oauth_code_or_error : Text → Option Params → Bool
  has_oauth_code_or_error search form =
      let found = oauth_callback_result_params search form in
      truthy found.code || truthy found.error

  unfoldable pub classify_delivery : DeliveryOptions → DeliveryClass
  classify_delivery options =
      classify options (oauth_callback_result_params options.search options.form)

  unfoldable pub read_oauth_state : Text → Option Params → Option Text
  read_oauth_state search form =
      let state = (oauth_callback_result_params search form).state in
      if truthy state then state else none

  -- The second argument is the body, decoded.
  unfoldable pub parse_form_body : Option Text → Text → Option Params
  parse_form_body none body = none
  parse_form_body (some content_type) body =
      if includes (to_lower content_type) (codes "application/x-www-form-urlencoded")
      then some (parse_params body)
      else none
