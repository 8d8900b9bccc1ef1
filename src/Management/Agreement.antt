-- ===== src/Management/Agreement.antt =====
-- Where the paths that a sidecar asks for lead in management-http.ts.
use wrangle_webhooks.Base.{
  if◌then◌else◌, Text, split, ◌≡◌, true, false, not, none, some, List, [], ◌∷◌, map, Option, all,
  is_empty,
}
use wrangle_webhooks.Path.RouteId.{route_unit}
use wrangle_webhooks.Management.Dispatch.{
  part_of, match_parts, Rule, allows_method, place_of, decode_all, Destination, nowhere, malformed,
  reaches, Endpoint, Place, destination,
}

-- What a rule makes of its captures, or else of the later rules.
abbrev by_rule : Rule → Text → Option (List Text) → Destination → Destination
by_rule rule method captures later = elim captures [
  | none ↦ later
  | some captured ↦
      if not (allows_method method rule.method) then later else elim (decode_all captured) [
        | none ↦ malformed
        | some found ↦ reaches rule.endpoint (place_of rule.named found)
      ]
]

-- `destination_from` on the segments of a path.
abbrev from_segments : List Rule → Text → List Text → Destination
from_segments [] method segments = nowhere
from_segments (rule ∷ rest) method segments =
    by_rule rule method (match_parts (map part_of (split b'/' rule.pattern)) segments)
      (from_segments rest method segments)

-- A request to the path, if it could be made, reaches the endpoint at the place.
abbrev pub Reaches : Option Text → Text → Endpoint → Place → Type 0
Reaches path method endpoint place =
    (p : Text) × (path ≡ some p) × (destination method p ≡ reaches endpoint place)

-- A subscriber id of the units of a route id, as the router makes them.
abbrev pub IsNamed : Text → Type 0
IsNamed id = (all route_unit id ≡ true) × (is_empty id ≡ false)
