-- ===== src/Path/Links/Plain.antt =====
-- The paths of ingress-urls.ts and tunnel-protocol.ts for ids that need no escape.
use mathlib.Core.List.{append_assoc}
use wrangle_webhooks.Base.TextLaws.{split_at}
use wrangle_webhooks.Base.{
  ◌==◌, all, Text, codes, text_eq, has_unit, split, is_digit, is_letter, ℕ, ◌≡◌, refl, ap, ◌∙◌,
  true, false, Option, none, some, List, [], ◌∷◌, ◌++◌, arith,
}
use wrangle_webhooks.Secrets.{is_pair}
use wrangle_webhooks.Path.Uri.{decode_uri_component, decode_plain}
use wrangle_webhooks.Path.RouteId.{route_unit, is_valid_route_id, is_allowed_route_id}
use wrangle_webhooks.Path.Links.{is_uri_unit, encode_unit, both, encode_uri_component, below_route}

route_unit-uri :
    (c : ℕ)
    → route_unit c ≡ true
    → (is_uri_unit c ≡ true) × ((c == b'/') ≡ false) × ((c == b'%') ≡ false)
unfolding route_unit is_uri_unit is_letter is_digit has_unit
route_unit-uri c h = (ground arith, ground arith, ground arith)

unpaired : (c b : ℕ) → route_unit c ≡ true → is_pair c b ≡ false
unfolding route_unit is_letter is_digit is_pair
unpaired c b h = ground arith

-- A text of the units of a route id is encoded and decoded as it is.
pub encode_plain : (s : Text) → all route_unit s ≡ true → encode_uri_component s ≡ some s
unfolding encode_uri_component encode_unit
encode_plain [] h = refl
encode_plain (c ∷ []) h = let (unit, _, _) = route_unit-uri c (ground arith) in rw unit refl
encode_plain (c ∷ b ∷ s) h =
    let (unit, _, _) = route_unit-uri c (ground arith) in
    rw (unpaired c b (ground arith), unit, encode_plain (b ∷ s) (ground arith)) refl

pub plain_units :
    (s : Text) → all route_unit s ≡ true → (has_unit b'/' s ≡ false) × (has_unit b'%' s ≡ false)
unfolding has_unit
plain_units [] h = (refl, refl)
plain_units (c ∷ s) h =
    let (_, slash, escape) = route_unit-uri c (ground arith) in
    let (slashes, escapes) = plain_units s (ground arith) in
    (ground (arith, slash, slashes), ground (arith, escape, escapes))

both_assoc : (o p q : Option Text) → both (both o p) q ≡ both o (both p q)
both_assoc none p q = refl
both_assoc (some s) none q = refl
both_assoc (some s) (some t) none = refl
both_assoc (some s) (some t) (some u) = ap (λ v. some v) (append_assoc s t u)

-- What is put behind a path below the route goes below the route.
pub below-both :
    (route t u : Text) → both (below_route route t) (some u) ≡ below_route route (t ++ u)
unfolding below_route text_eq
below-both [] t u = refl
below-both (c ∷ route) t u =
    both_assoc (some (codes "/_router/routes/")) (both (encode_uri_component (c ∷ route)) (some t))
      (some u)
    ∙ ap (λ o. both (some (codes "/_router/routes/")) o)
        (both_assoc (encode_uri_component (c ∷ route)) (some t) (some u))

abbrev pub segments_of : Text → List Text
segments_of [] = [] ∷ codes "_router" ∷ []
segments_of (c ∷ route) = [] ∷ codes "_router" ∷ codes "routes" ∷ (c ∷ route) ∷ []

-- The segments of a path below a route.
pub below-split :
    (route t : Text)
    → all route_unit route ≡ true
    → (p : Text) × (below_route route (b'/' ∷ t) ≡ some p)
      × (split b'/' p ≡ segments_of route ++ split b'/' t)
unfolding below_route split text_eq
below-split [] t h = (codes "/_router/" ++ t, refl, refl)
below-split (c ∷ route) t h =
    let (slash, _) = plain_units (c ∷ route) h in
    (
      codes "/_router/routes/" ++ ((c ∷ route) ++ (b'/' ∷ t)),
      rw (encode_plain (c ∷ route) h) refl,
      ap (λ ss. [] ∷ codes "_router" ∷ codes "routes" ∷ ss) (split_at b'/' (c ∷ route) t slash),
    )

pub decoded : (s : Text) → all route_unit s ≡ true → decode_uri_component s ≡ some s
decoded s h = decode_plain s (plain_units s h).1

pub allowed_units : (route : Text) → is_allowed_route_id route ≡ true → all route_unit route ≡ true
unfolding is_allowed_route_id is_valid_route_id text_eq
allowed_units [] h = refl
allowed_units (c ∷ route) h = ground arith
