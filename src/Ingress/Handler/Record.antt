-- ===== src/Ingress/Handler/Record.antt =====
-- Every public request that is no probe is recorded once, as it was answered.
use wrangle_webhooks.Base.{
  if◌then◌else◌, Bool-cases, is_empty, Text, codes, before, ℕ, ◌≡◌, refl, subst, ◌∙◌, ◌⊎◌, inl, inr,
  Bool, true, false, ◌||◌, Option, none, some, List, [], ◌∷◌, ◌++◌,
}
use wrangle_webhooks.Path.Scanner.{is_scanner_probe_path}
use wrangle_webhooks.Path.Ingress.{public_path_has_dot_dot_segment}
use wrangle_webhooks.Log.Inbound.{InboundLogEventInput}
use wrangle_webhooks.Oauth.{
  DeliveryClass, oauth, fanout, oauth_callback_incomplete, oauth_callback_not_registered,
  oauth_method_not_allowed,
}
use wrangle_webhooks.Tunnel.{tunnel_max_body_bytes}
use wrangle_webhooks.Ingress.Body.{CappedBody, read, too_large, read_capped_ingress_body}
use wrangle_webhooks.Ingress.Handler.Branches.{
  Outside, reject, proxy_branch, fanout_branch, deliver_as, with_body, not_found, with_route,
  handle_public_ingress,
}
use wrangle_webhooks.Ingress.Handler.{
  World, PublicRequest, PublicResponse, ResolvedRoute, set_route, active_of, try_route,
  or_root_route, resolve_public_route, record_public_inbound_log,
}
use wrangle_webhooks.Route.Delivery.{IngressPayload}

-- What a request adds to the calls of the log: one event, with its id and method and with the
-- status and the error that it is answered with.
abbrev pub IsRecorded :
    List InboundLogEventInput → PublicRequest → Text → World × PublicResponse → Type 0
IsRecorded before request id (w, response) =
    (event : InboundLogEventInput) × (w.recorded ≡ before ++ (event ∷ []))
    × (event.id ≡ id)
    × (event.method ≡ request.method)
    × (event.status ≡ response.status)
    × (event.error ≡ response.error)

active-recorded :
    (now : ℕ) (route : Text) (w : World) → (active_of now route w).0.recorded ≡ w.recorded
unfolding active_of set_route
active-recorded now route w = refl

try-recorded :
    (now : ℕ) (route pathname : Text) (w : World)
    → (try_route now route pathname w).0.recorded ≡ w.recorded
unfolding try_route active_of set_route
try-recorded now route pathname w = elim (Bool-cases (is_empty (active_of now route w).1)) [
  | inl e ↦ rw e refl
  | inr e ↦ rw e refl
]

or_root-recorded :
    (now : ℕ) (root : Bool) (pathname : Text) (p : World × Option ResolvedRoute)
    → (or_root_route now root pathname p).0.recorded ≡ p.0.recorded
unfolding or_root_route
or_root-recorded now root pathname (w, some found) = refl
or_root-recorded now true pathname (w, none) = try-recorded now [] pathname w
or_root-recorded now false pathname (w, none) = refl

named-recorded :
    (b : Bool) (now : ℕ) (route pathname : Text) (w : World)
    → (if b then try_route now route pathname w else (w, none)).0.recorded ≡ w.recorded
named-recorded true now route pathname w = try-recorded now route pathname w
named-recorded false now route pathname w = refl

resolve-recorded :
    (now : ℕ) (pathname : Text) (w : World)
    → (resolve_public_route now pathname w).0.recorded ≡ w.recorded
unfolding resolve_public_route
resolve-recorded now pathname w =
    or_root-recorded now _ pathname _ ∙ named-recorded _ now _ pathname w

module _ (o : Outside) (now : ℕ) (request : PublicRequest) (id : Text) where
  reject-IsRecorded :
      (target : ResolvedRoute) (kind : Text) (response : PublicResponse) (bytes : ℕ) (w : World)
      → IsRecorded w.recorded request id (reject o now request id target kind response bytes w)
  unfolding reject record_public_inbound_log
  reject-IsRecorded target kind response bytes w = (_, refl, refl, refl, refl, refl)

  proxy-IsRecorded :
      (target : ResolvedRoute) (payload : IngressPayload) (bytes : ℕ) (w : World)
      → IsRecorded w.recorded request id (proxy_branch o now request id target payload bytes w)
  unfolding proxy_branch record_public_inbound_log set_route
  proxy-IsRecorded target payload bytes w = (_, refl, refl, refl, refl, refl)

  fanout-IsRecorded :
      (target : ResolvedRoute) (payload : IngressPayload) (bytes : ℕ) (w : World)
      → IsRecorded w.recorded request id (fanout_branch o now request id target payload bytes w)
  unfolding fanout_branch record_public_inbound_log set_route
  fanout-IsRecorded target payload bytes w = (_, refl, refl, refl, refl, refl)

  deliver_as-IsRecorded :
      (delivery : DeliveryClass) (target : ResolvedRoute) (payload : IngressPayload) (bytes : ℕ)
      (w : World)
      → IsRecorded w.recorded request id
          (deliver_as o delivery now request id target payload bytes w)
  unfolding deliver_as
  deliver_as-IsRecorded oauth target payload bytes w = proxy-IsRecorded target payload bytes w
  deliver_as-IsRecorded fanout target payload bytes w = fanout-IsRecorded target payload bytes w
  deliver_as-IsRecorded oauth_callback_incomplete target payload bytes w =
      reject-IsRecorded target (codes "oauth") _ bytes w
  deliver_as-IsRecorded oauth_callback_not_registered target payload bytes w =
      reject-IsRecorded target (codes "oauth") _ bytes w
  deliver_as-IsRecorded oauth_method_not_allowed target payload bytes w =
      reject-IsRecorded target (codes "oauth") _ bytes w

  with_body-IsRecorded :
      (target : ResolvedRoute) (body : CappedBody) (w : World)
      → IsRecorded w.recorded request id (with_body o now request id target body w)
  unfolding with_body
  with_body-IsRecorded target (too_large bytes) w = reject-IsRecorded target _ _ bytes w
  with_body-IsRecorded target (read body) w = deliver_as-IsRecorded _ target _ _ w

  -- A request whose path, or whose path behind the route, is a probe or has a traversal segment.
  abbrev pub IsProbe : World × Option ResolvedRoute → Type 0
  IsProbe (w, none) = ⊥
  IsProbe (w, some target) = public_path_has_dot_dot_segment target.remaining_path ≡ true

  with_route-IsRecorded :
      (p : World × Option ResolvedRoute)
      → ((with_route o now request id p ≡ (p.0, not_found o)) × IsProbe p)
        ⊎ IsRecorded p.0.recorded request id (with_route o now request id p)
  unfolding with_route record_public_inbound_log
  with_route-IsRecorded (w, none) = inr (_, refl, refl, refl, refl, refl)
  with_route-IsRecorded (w, some target) =
      elim (Bool-cases (public_path_has_dot_dot_segment target.remaining_path)) [
        | inl e ↦ rw e (inl (refl, refl))
        | inr e ↦ rw e (
            inr (
              with_body-IsRecorded target
                (read_capped_ingress_body request.content_length request.stream
                  tunnel_max_body_bytes)
                w))
      ]

  -- A request whose path is no probe and, behind its route, has no traversal segment is recorded
  -- once, with its id and its method and with the status and the error that it is answered with,
  -- on every branch of the handler.
  pub handle_public_ingress-IsRecorded :
      (w : World)
      → (is_scanner_probe_path request.pathname || public_path_has_dot_dot_segment request.pathname)
        ≡ false
      → ¬ IsProbe (resolve_public_route now request.pathname w)
      → IsRecorded w.recorded request id (handle_public_ingress o now request id w)
  unfolding handle_public_ingress
  handle_public_ingress-IsRecorded w h k =
      let p = resolve_public_route now request.pathname w in
      rw h (elim (with_route-IsRecorded p) [
        | inl probe ↦ absurd (k probe.1)
        | inr recorded ↦
            subst (λ l. IsRecorded l request id (with_route o now request id p))
              (resolve-recorded now request.pathname w) recorded
      ])
