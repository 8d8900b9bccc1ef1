-- ===== src/Path/RouteId.antt =====
-- route-id.ts: which route and environment identifiers are accepted, and the names of the Durable
-- Objects that own the routes.
use wrangle_webhooks.Base.{
  ltb, leb, ◌==◌, if◌then◌else◌, length, is_empty, all, Text, codes, text_eq, is_digit, is_letter,
  text_mem, ℕ, Bool, not, ◌&&◌, ◌||◌, List, [], ◌∷◌,
}
pub mod Names

abbrev pub environment_id_max_length : ℕ
environment_id_max_length = 128

abbrev default_route_object_name : Text
default_route_object_name = codes "dev-router:default"

abbrev router_index_object_name : Text
router_index_object_name = codes "dev-router:index"

abbrev reserved_route_ids : List Text
reserved_route_ids = codes "_router" ∷ codes "dashboard" ∷ []

-- The class `[A-Za-z0-9._~-]`.
unfoldable pub route_unit : ℕ → Bool
unfolding is_letter is_digit
route_unit c = is_letter c || (is_digit c || (c == b'.' || (c == b'_' || (c == b'~' || c == b'-'))))

-- The class `[A-Za-z0-9._~:@+-]`.
unfoldable pub environment_unit : ℕ → Bool
unfolding route_unit
environment_unit c = route_unit c || (c == b':' || (c == b'@' || c == b'+'))

unfoldable pub is_valid_route_id : Text → Bool
unfolding text_mem route_unit
is_valid_route_id route_id =
    ltb 0 (length route_id)
    && (not (text_mem route_id reserved_route_ids)
        && (not (is_empty route_id) && all route_unit route_id))

unfoldable pub is_allowed_route_id : Text → Bool
unfolding text_eq is_valid_route_id
is_allowed_route_id route_id = text_eq route_id [] || is_valid_route_id route_id

unfoldable pub is_allowed_environment_id : Text → Bool
unfolding environment_unit
is_allowed_environment_id value =
    ltb 0 (length value)
    && (leb (length value) environment_id_max_length
        && (not (is_empty value) && all environment_unit value))

unfoldable pub durable_object_name_for_index : Text
durable_object_name_for_index = router_index_object_name

unfoldable pub durable_object_name_for_route : Text → Text
unfolding text_eq
durable_object_name_for_route route_id =
    if text_eq route_id [] then default_route_object_name else route_id
