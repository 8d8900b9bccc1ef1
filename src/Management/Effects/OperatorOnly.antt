-- ===== src/Management/Effects/OperatorOnly.antt =====
-- The settings in the index, and which management requests of management-http.ts change them.
use wrangle_webhooks.Management.Effects.{perform-keeps}
use wrangle_webhooks.Management.Settings.{
  handle_webhook_fanout_settings, handle_oauth_callback_paths, handle_webhook_fanout_rules,
}
use wrangle_webhooks.Management.Access.{IsOperator, not_operator}
use wrangle_webhooks.Management.Dispatch.{
  destination, handle_management, go_to, Destination, nowhere, malformed, reaches,
}
use wrangle_webhooks.Base.{
  Bool-cases, Text, ℕ, ◌≡◌, refl, ◌∙◌, inl, inr, List, [], ◌∷◌, is_empty, false,
}
use wrangle_webhooks.Path.RouteId.{is_allowed_route_id}
use wrangle_webhooks.Index.{
  IndexState, put_route, delete_route, record_events, apply_call, apply_calls,
}
use wrangle_webhooks.Route.{
  RouteState, IndexCall, record_connection_events, add_route, remove_route,
}
use wrangle_webhooks.Ingress.Handler.{World, set_route}
use wrangle_webhooks.Management.{
  ManagementRequest, Env, deliver_calls, at_route, require_management_auth, record_rejected_join,
}

-- The allowlist of callback paths and the fan-out tables are as before.
abbrev pub HasSameSettings : IndexState → IndexState → Type 0
HasSameSettings s next = (next.callback_paths ≡ s.callback_paths) × (next.fanout ≡ s.fanout)

call-settings :
    (now : ℕ) (hex : ℕ → Text) (call : IndexCall) (s : IndexState)
    → HasSameSettings s (apply_call now hex call s)
unfolding apply_call record_events put_route delete_route
call-settings now hex (record_connection_events []) s = (refl, refl)
call-settings now hex (record_connection_events (_ ∷ _)) s = (refl, refl)
call-settings now hex (add_route route) s = elim (Bool-cases (is_allowed_route_id route)) [
  | inl e ↦ rw e (refl, refl)
  | inr e ↦ rw e (refl, refl)
]
call-settings now hex (remove_route route) s = (refl, refl)

calls-settings :
    (now : ℕ) (hex : ℕ → Text) (calls : List IndexCall) (s : IndexState)
    → HasSameSettings s (apply_calls now hex calls s)
unfolding apply_calls
calls-settings now hex [] s = (refl, refl)
calls-settings now hex (call ∷ calls) s =
    let (p, f) = call-settings now hex call s in
    let (q, g) = calls-settings now hex calls (apply_call now hex call s) in (q ∙ p, g ∙ f)

module _ (env : Env) (request : ManagementRequest) where
  at_route-settings :
      (route : Text) (R : Type 0) (m : RouteState → RouteState × R) (v : World)
      → HasSameSettings v.index (at_route env route m v).0.index
  unfolding at_route deliver_calls set_route
  at_route-settings route R m v = calls-settings env.now env.hex _ v.index

  settings_unchanged :
      (d : Destination) (w : World)
      → require_management_auth env request ≡ false
      → HasSameSettings w.index (go_to env request d w).0.index
  unfolding go_to record_rejected_join record_events put_route delete_route apply_call
      handle_oauth_callback_paths handle_webhook_fanout_settings handle_webhook_fanout_rules
  settings_unchanged nowhere w h = (refl, refl)
  settings_unchanged malformed w h = (refl, refl)
  settings_unchanged (reaches endpoint place) w h =
      perform-keeps env request place.route (λ v. HasSameSettings w.index v.index)
        (λ R m v k. let (p, f) = at_route-settings place.route R m v in (p ∙ k.0, f ∙ k.1))
        (λ v k.
          let (p, f) = call-settings env.now env.hex (add_route place.route) v.index in
          (p ∙ k.0, f ∙ k.1))
        (λ v k. k) (λ v k. k) endpoint place.id w (refl, refl)
        (rw h (refl, refl), rw h (refl, refl), rw h (refl, refl))

-- A request that does not bring the operator's secret, by whatever path and method, changes no
-- allowlisted callback path, no deny-all flag and no rule of the webhook fan-out: the secret of a
-- route or a connection token is not enough.
pub settings_need_operator :
    (env : Env) (request : ManagementRequest) (w : World)
    → ¬ (IsOperator env request)
    → HasSameSettings w.index (handle_management env request w).0.index
unfolding handle_management
settings_need_operator env request w h = elim (Bool-cases (is_empty env.secret)) [
  | inl k ↦ rw k (refl, refl)
  | inr k ↦ rw k (
      settings_unchanged env request (destination request.method request.pathname) w
        (not_operator env request h))
]
