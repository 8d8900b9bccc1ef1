-- ===== src/Router/Settings.antt =====
-- What public-ingress.ts leaves as it is: the settings in the index.
use wrangle_webhooks.Path.Ingress.{public_path_has_dot_dot_segment}
use wrangle_webhooks.Path.Scanner.{is_scanner_probe_path}
use wrangle_webhooks.Base.{
  Text, ℕ, ◌≡◌, refl, arith, Bool-cases, or_else, ap, ◌∙◌, inl, inr, Bool, ◌||◌, Option, none, some,
  [],
}
use wrangle_webhooks.Oauth.{
  DeliveryClass, oauth, fanout, oauth_callback_incomplete, oauth_callback_not_registered,
  oauth_method_not_allowed,
}
use wrangle_webhooks.Tunnel.{tunnel_max_body_bytes}
use wrangle_webhooks.Ingress.Body.{read_capped_ingress_body, CappedBody, read, too_large}
use wrangle_webhooks.Index.{record_inbound_events, indexed_public_route_presence}
use wrangle_webhooks.Log.Inbound.{InboundLogEventInput}
use wrangle_webhooks.Route.Delivery.{IngressPayload}
use wrangle_webhooks.Management.Effects.OperatorOnly.{HasSameSettings}
use wrangle_webhooks.Ingress.Handler.{
  World, PublicRequest, ResolvedRoute, set_route, active_of, try_route, or_root_route,
  resolve_public_route, record_public_inbound_log, first_segment, valid_candidate,
}
use wrangle_webhooks.Ingress.Handler.Branches.{
  Outside, reject, proxy_branch, fanout_branch, deliver_as, with_body, with_route,
  handle_public_ingress,
}

record-settings :
    (now : ℕ) (event : InboundLogEventInput) (w : World)
    → HasSameSettings w.index (record_public_inbound_log now event w).index
unfolding record_public_inbound_log record_inbound_events
record-settings now event w = (refl, refl)

try_route-settings :
    (now : ℕ) (route pathname : Text) (w : World)
    → (try_route now route pathname w).0.index ≡ w.index
unfolding try_route active_of set_route
try_route-settings now route pathname w = ground arith

or_root_route-settings :
    (now : ℕ) (root : Bool) (pathname : Text) (r : World × Option ResolvedRoute)
    → (or_root_route now root pathname r).0.index ≡ r.0.index
unfolding or_root_route
or_root_route-settings now root pathname (w, some found) = refl
or_root_route-settings now root pathname (w, none) =
    ground (arith, try_route-settings now [] pathname w)

resolve-settings :
    (now : ℕ) (pathname : Text) (w : World)
    → (resolve_public_route now pathname w).0.index ≡ w.index
unfolding resolve_public_route
resolve-settings now pathname w =
    let candidate = first_segment pathname in
    let indexed = indexed_public_route_presence (valid_candidate candidate) w.index in
    or_root_route-settings now indexed.root pathname _
    ∙ ground (arith, try_route-settings now (or_else candidate []) pathname w)

module _ (o : Outside) where
  deliver_as-settings :
      (class : DeliveryClass) (now : ℕ) (request : PublicRequest) (id : Text)
      (target : ResolvedRoute) (payload : IngressPayload) (bytes : ℕ) (w : World)
      → HasSameSettings w.index (deliver_as o class now request id target payload bytes w).0.index
  unfolding deliver_as reject record_public_inbound_log record_inbound_events proxy_branch
      fanout_branch set_route
  deliver_as-settings oauth_callback_not_registered now request id target payload bytes w =
      (refl, refl)
  deliver_as-settings oauth_callback_incomplete now request id target payload bytes w = (refl, refl)
  deliver_as-settings oauth_method_not_allowed now request id target payload bytes w = (refl, refl)
  deliver_as-settings oauth now request id target payload bytes w = (refl, refl)
  deliver_as-settings fanout now request id target payload bytes w = (refl, refl)

  with_body-settings :
      (now : ℕ) (request : PublicRequest) (id : Text) (target : ResolvedRoute) (body : CappedBody)
      (w : World)
      → HasSameSettings w.index (with_body o now request id target body w).0.index
  unfolding with_body reject record_public_inbound_log record_inbound_events
  with_body-settings now request id target (too_large bytes) w = (refl, refl)
  with_body-settings now request id target (read body) w =
      deliver_as-settings _ now request id target _ _ w

  with_route-settings :
      (now : ℕ) (request : PublicRequest) (id : Text) (r : World × Option ResolvedRoute)
      → HasSameSettings r.0.index (with_route o now request id r).0.index
  unfolding with_route record_public_inbound_log record_inbound_events
  with_route-settings now request id (w, none) = (refl, refl)
  with_route-settings now request id (w, some target) =
      let body =
        read_capped_ingress_body request.content_length request.stream tunnel_max_body_bytes in
      ground (arith, with_body-settings now request id target body w)

  pub handle_public_ingress-settings :
      (now : ℕ) (request : PublicRequest) (id : Text) (w : World)
      → HasSameSettings w.index (handle_public_ingress o now request id w).0.index
  unfolding handle_public_ingress
  handle_public_ingress-settings now request id w =
      elim (Bool-cases (
        is_scanner_probe_path request.pathname
        || public_path_has_dot_dot_segment request.pathname)) [
          | inl e ↦ rw e (refl, refl)
          | inr e ↦
              let (p, f) =
                with_route-settings now request id (resolve_public_route now request.pathname w) in
              let same = resolve-settings now request.pathname w in
              rw e (p ∙ ap (λ s. s.callback_paths) same, f ∙ ap (λ s. s.fanout) same)
        ]
