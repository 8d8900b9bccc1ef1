-- ===== src/Management/Effects/Local.antt =====
-- A management request touches the object of the route that it names, and of no other.
use wrangle_webhooks.Management.Effects.{perform-keeps}
use wrangle_webhooks.Management.Dispatch.{
  destination, handle_management, Destination, go_to, nowhere, malformed, reaches,
}
use wrangle_webhooks.Base.{
  Text, text_eq, ◌≡◌, refl, false, arith, Bool-cases, is_empty, ◌∙◌, inl, inr,
}
use wrangle_webhooks.Path.RouteId.{durable_object_name_for_route}
use wrangle_webhooks.Route.{RouteState}
use wrangle_webhooks.Ingress.Handler.{World, set_route}
use wrangle_webhooks.Management.Settings.{
  put_oauth_callback_path, remove_oauth_callback, handle_oauth_callback_paths, put_deny_all,
  handle_webhook_fanout_settings, put_rule, remove_rule, handle_webhook_fanout_rules,
}
use wrangle_webhooks.Management.{
  ManagementRequest, Env, deliver_calls, at_route, record_rejected_join,
}

module _ (env : Env) (request : ManagementRequest) (route other : Text) where
  abbrev name : Text
  name = durable_object_name_for_route route

  -- The object of another route is as before.
  abbrev IsSpared : World → World → Type 0
  IsSpared w next = next.routes other ≡ w.routes other

  at_route-spares :
      (R : Type 0) (m : RouteState → RouteState × R) (v : World)
      → text_eq other name ≡ false
      → IsSpared v (at_route env route m v).0
  unfolding at_route deliver_calls set_route
  at_route-spares R m v h = rw h refl

  paths-spare : (w : World) → IsSpared w (handle_oauth_callback_paths env request route w).0
  unfolding handle_oauth_callback_paths put_oauth_callback_path remove_oauth_callback
  paths-spare w = ground arith

  settings-spare : (w : World) → IsSpared w (handle_webhook_fanout_settings env request route w).0
  unfolding handle_webhook_fanout_settings put_deny_all
  settings-spare w = ground arith

  rules-spare : (w : World) → IsSpared w (handle_webhook_fanout_rules env request route w).0
  unfolding handle_webhook_fanout_rules put_rule remove_rule
  rules-spare w = ground arith

-- The destination is on another route, or there is none.
abbrev pub IsElsewhere : Destination → Text → Type 0
IsElsewhere (reaches endpoint place) other =
    text_eq other (durable_object_name_for_route place.route) ≡ false
IsElsewhere _ other = Unit

go_to-spares :
    (env : Env) (request : ManagementRequest) (d : Destination) (other : Text) (w : World)
    → IsElsewhere d other
    → (go_to env request d w).0.routes other ≡ w.routes other
unfolding go_to record_rejected_join
go_to-spares env request nowhere other w h = refl
go_to-spares env request malformed other w h = refl
go_to-spares env request (reaches endpoint place) other w h =
    perform-keeps env request place.route (λ v. v.routes other ≡ w.routes other)
      (λ R m v k. at_route-spares env request place.route other R m v h ∙ k) (λ v k. k) (λ v k. k)
      (λ v k. k) endpoint place.id w refl
      (
        paths-spare env request place.route other w,
        settings-spare env request place.route other w,
        rules-spare env request place.route other w,
      )

-- A management request leaves every route's object as it was, but for that of the route that its
-- path names.
pub handle_management-IsLocal :
    (env : Env) (request : ManagementRequest) (other : Text) (w : World)
    → IsElsewhere (destination request.method request.pathname) other
    → (handle_management env request w).0.routes other ≡ w.routes other
unfolding handle_management
handle_management-IsLocal env request other w h = elim (Bool-cases (is_empty env.secret)) [
  | inl k ↦ rw k refl
  | inr k ↦ rw k (go_to-spares env request (destination request.method request.pathname) other w h)
]
