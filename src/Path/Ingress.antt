-- ===== src/Path/Ingress.antt =====
-- ingress-urls.ts: traversal segments in public paths, and the path that remains behind a route
-- prefix. What builds `URL` objects is not modelled.
use wrangle_webhooks.Base.{
  ◌==◌, if◌then◌else◌, length, drop, any, Text, codes, text_eq, starts_with, split, or_text, ℕ,
  zero, suc, ◌≡◌, refl, Bool, true, false, not, ◌&&◌, ◌||◌, [], ◌∷◌, ◌++◌, map,
}
use wrangle_webhooks.Path.Uri.{decode_once}

-- `replace(/\\/g, "/")`
forward_slashes : Text → Text
forward_slashes s = map (λ c. if c == b'\\' then b'/' else c) s

is_line_terminator : ℕ → Bool
is_line_terminator c = c == 10 || (c == 13 || (c == 0x2028 || c == 0x2029))

-- `replace(/;.*$/, "")`: the dot of the pattern stops at a line terminator.
without_params : Text → Text
unfolding is_line_terminator
without_params [] = []
without_params (c ∷ s) =
    if c == b';' && not (any is_line_terminator s) then [] else c ∷ without_params s

unfoldable pub path_segments_include_dot_dot : Text → Bool
unfolding forward_slashes without_params split text_eq
path_segments_include_dot_dot pathname =
    any (λ segment. text_eq (without_params segment) (codes ".."))
      (split b'/' (forward_slashes pathname))

-- The loop: rounds left and the path as decoded so far.
unfoldable pub dot_dot_from : ℕ → Text → Bool
unfolding path_segments_include_dot_dot decode_once text_eq
dot_dot_from zero current = path_segments_include_dot_dot current
dot_dot_from (suc rounds) current =
    let decoded = decode_once current in
    let again = dot_dot_from rounds decoded in
    if path_segments_include_dot_dot current
    then true
    else if text_eq decoded current
    then path_segments_include_dot_dot current
    else again

unfoldable pub public_path_has_dot_dot_segment : Text → Bool
unfolding dot_dot_from
public_path_has_dot_dot_segment pathname = dot_dot_from 4 pathname

unfoldable pub remaining_path_from_public_url : Text → Text → Text
unfolding text_eq starts_with or_text
remaining_path_from_public_url pathname route_id =
    if text_eq route_id []
    then or_text pathname (codes "/")
    else let prefix = b'/' ∷ route_id in
      if text_eq pathname prefix
      then []
      else if starts_with pathname (prefix ++ codes "/")
      then drop (length prefix) pathname
      else pathname

dot_dots :
    (public_path_has_dot_dot_segment (codes "/a/%252e%252e/b") ≡ true)
    × (public_path_has_dot_dot_segment (codes "/a/..;x=1/b") ≡ true)
    × (public_path_has_dot_dot_segment (codes "/a/..b") ≡ false)
unfolding public_path_has_dot_dot_segment
dot_dots = (refl, refl, refl)
