-- ===== src/Path/RouteId/Names.antt =====
-- Durable Object names tell routes apart.
use wrangle_webhooks.Base.{Text, codes, ◌≡◌, refl, ◌⊎◌, true, false, [], arith}
use wrangle_webhooks.Base.TextLaws.{text_eq_iff}
use wrangle_webhooks.Path.RouteId.{
  is_valid_route_id, is_allowed_route_id, durable_object_name_for_route,
}

not_default : is_valid_route_id (codes "dev-router:default") ≡ false
unfolding is_valid_route_id
not_default = refl

not_index : is_valid_route_id (codes "dev-router:index") ≡ false
unfolding is_valid_route_id
not_index = refl

pub allowed_cases :
    (r : Text) → is_allowed_route_id r ≡ true → (r ≡ []) ⊎ (is_valid_route_id r ≡ true)
unfolding is_allowed_route_id
allowed_cases r h = ground (arith, text_eq_iff r [])

-- No two allowed route ids share a Durable Object, the root catch-all included.
pub durable_object_name_for_route_injective :
    (r s : Text)
    → is_allowed_route_id r ≡ true
    → is_allowed_route_id s ≡ true
    → durable_object_name_for_route r ≡ durable_object_name_for_route s
    → r ≡ s
unfolding durable_object_name_for_route
durable_object_name_for_route_injective r s hr hs e =
    ground (
      arith,
      allowed_cases r hr,
      allowed_cases s hs,
      text_eq_iff r [],
      text_eq_iff s [],
      not_default,
    )
