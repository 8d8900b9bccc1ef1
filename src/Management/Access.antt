-- ===== src/Management/Access.antt =====
-- Who may do what: a request without the right credential is turned away by `handleManagement`.
use wrangle_webhooks.Management.Settings.{
  handle_webhook_fanout_rules, handle_webhook_fanout_settings, handle_oauth_callback_paths,
}
use wrangle_webhooks.Index.{record_events}
use wrangle_webhooks.Management.Dispatch.{
  Endpoint, tunnel, callback_paths, fanout_settings, fanout_rules, mint, subscribers, heartbeat,
  oauth_states, subscriber, Place, reaches, destination, perform, go_to, handle_management,
}
use wrangle_webhooks.Base.{
  Bool-cases, Option-cases, is_some, Text, ◌≤◌, ◌≡◌, refl, ◌⊎◌, inl, inr, true, false, Option, none,
  some, arith, is_empty,
}
use wrangle_webhooks.Path.RouteId.{durable_object_name_for_route, is_allowed_route_id}
use wrangle_webhooks.Secrets.{
  utf8, timing_safe_equal_string, derive_route_secret, match_join_credential, JoinRole,
  operator_role, route_role,
}
use wrangle_webhooks.Secrets.Join.{IsSecret, match_join_credential_iff}
use wrangle_webhooks.Secrets.TimingSafe.{timing_safe_equal_iff}
use wrangle_webhooks.Route.Lifecycle.{verify_connection_token}
use wrangle_webhooks.Ingress.Handler.{World}
use wrangle_webhooks.Management.Subscribers.{mint_route_credential}
use wrangle_webhooks.Management.{
  ManagementRequest, Env, Answer, failure, exception, read_management_secret,
  require_management_auth, record_rejected_join, authorize_join, is_operator, authorize_subscriber,
  unless_denied,
}

-- The request brings this secret, in UTF-8.
abbrev pub Presents : Env → ManagementRequest → Text → Type 0
Presents env request secret =
    (given : Text) × (read_management_secret env request ≡ some given) × (utf8 given ≡ utf8 secret)

-- The request brings a connection token of the subscriber.
abbrev pub OwnsToken : Env → ManagementRequest → Place → World → Type 0
OwnsToken env request place w =
    (given : Text) × (read_management_secret env request ≡ some given)
    × (verify_connection_token env.sha256 place.id given
          (w.routes (durable_object_name_for_route place.route))
        ≡ true)

abbrev pub IsOperator : Env → ManagementRequest → Type 0
IsOperator env request = Presents env request env.secret

abbrev pub MayJoin : Env → ManagementRequest → Place → Type 0
MayJoin env request place =
    IsOperator env request
    ⊎ Presents env request (derive_route_secret env.hmac env.secret place.route)

-- What each endpoint asks for: settings and credentials are the operator's, the secret of a route
-- lets in a new subscriber, and a subscriber's own operations take its connection token.
abbrev pub Entitled : Env → ManagementRequest → Endpoint → Place → World → Type 0
Entitled env request tunnel place w = MayJoin env request place
Entitled env request subscribers place w = MayJoin env request place
Entitled env request heartbeat place w = IsOperator env request ⊎ OwnsToken env request place w
Entitled env request oauth_states place w = IsOperator env request ⊎ OwnsToken env request place w
Entitled env request subscriber place w = IsOperator env request ⊎ OwnsToken env request place w
Entitled env request callback_paths place w = IsOperator env request
Entitled env request fanout_settings place w = IsOperator env request
Entitled env request fanout_rules place w = IsOperator env request
Entitled env request mint place w = IsOperator env request

-- An error status, or an exception.
abbrev pub IsRefusal : Answer → Type 0
IsRefusal (failure status code) = 400 ≤ status
IsRefusal exception = Unit
IsRefusal _ = ⊥

-- All but the connection log is as before.
abbrev pub IsUntouched : World → World → Type 0
IsUntouched w next =
    (next.routes ≡ w.routes)
    × (next.index.routes ≡ w.index.routes)
    × (next.index.callback_paths ≡ w.index.callback_paths)
    × (next.index.fanout ≡ w.index.fanout)
    × (next.index.inbound_events ≡ w.index.inbound_events)
    × (next.recorded ≡ w.recorded)
    × (next.started ≡ w.started)

abbrev pub IsTurnedAway : World → World × Answer → Type 0
IsTurnedAway w (next, answer) = IsRefusal answer × IsUntouched w next

abbrev same : (w : World) → IsUntouched w w
same w = (refl, refl, refl, refl, refl, refl, refl)

is_operator_role : (o : Option JoinRole) → is_operator o ≡ true → o ≡ some operator_role
is_operator_role none h = cc
is_operator_role (some operator_role) h = refl
is_operator_role (some route_role) h = cc

module _ (env : Env) (request : ManagementRequest) where
  pub not_operator : ¬ (IsOperator env request) → require_management_auth env request ≡ false
  unfolding require_management_auth
  not_operator h = elim (Option-cases (read_management_secret env request)) [
    | inl e ↦ rw (e, require_management_auth) refl
    | inr (given, e) ↦ elim (Bool-cases (timing_safe_equal_string given env.secret)) [
      | inl k ↦ absurd (h (given, e, (timing_safe_equal_iff given env.secret).0 k))
      | inr k ↦ rw (e, require_management_auth) k
    ]
  ]

  no_role :
      (place : Place) (given : Text)
      → ¬ (MayJoin env request place)
      → read_management_secret env request ≡ some given
      → is_some (match_join_credential env.hmac (some given) env.secret place.route) ≡ false
  no_role place given h e =
      elim (Bool-cases
        (is_some (match_join_credential env.hmac (some given) env.secret place.route))) [
          | inr k ↦ k
          | inl k ↦
              absurd
                (denied ((match_join_credential_iff env.hmac env.secret given place.route).1.0 k))
        ]
    where
      denied :
          IsSecret env.hmac env.secret given env.secret
            ⊎ IsSecret env.hmac env.secret given
                (derive_route_secret env.hmac env.secret place.route)
          → ⊥
      denied (inl s) = h (inl (given, e, s.1))
      denied (inr s) = h (inr (given, e, s.1))

  is_none : {A : Type 0} (o : Option A) → is_some o ≡ false → o ≡ none
  is_none none h = refl
  is_none (some a) h = cc

  no_join :
      (place : Place)
      → ¬ (MayJoin env request place)
      → match_join_credential env.hmac (read_management_secret env request) env.secret place.route
        ≡ none
  unfolding match_join_credential
  no_join place h = elim (Option-cases (read_management_secret env request)) [
    | inl e ↦ rw e refl
    | inr (given, e) ↦ rw e (is_none _ (no_role place given h e))
  ]

  -- A join that is denied is logged, and nothing else.
  turned_from_join :
      (place : Place) (w : World) (handle : World → World × Answer)
      → ¬ (MayJoin env request place)
      → IsTurnedAway w (
          unless_denied
            (authorize_join env request place.route w).1
            (authorize_join env request place.route w).0
            handle)
  unfolding authorize_join record_rejected_join record_events unless_denied
  turned_from_join place w handle h = rw (no_join place h, authorize_join) (omega arith, same w)

  not_owner :
      (place : Place) (w : World) (given : Text)
      → ¬ (OwnsToken env request place w)
      → read_management_secret env request ≡ some given
      → verify_connection_token env.sha256 place.id given
          (w.routes (durable_object_name_for_route place.route))
        ≡ false
  not_owner place w given h e =
      elim (Bool-cases (
        verify_connection_token env.sha256 place.id given
          (w.routes (durable_object_name_for_route place.route)))) [
            | inl k ↦ absurd (h (given, e, k))
            | inr k ↦ k
          ]

  operator_only :
      (given route : Text)
      → ¬ (IsOperator env request)
      → read_management_secret env request ≡ some given
      → is_operator (match_join_credential env.hmac (some given) env.secret route) ≡ false
  operator_only given route h e =
      elim (Bool-cases
        (is_operator (match_join_credential env.hmac (some given) env.secret route))) [
          | inr k ↦ k
          | inl k ↦ absurd (
              h (
                given,
                e,
                ((match_join_credential_iff env.hmac env.secret given route).0.0
                    (is_operator_role _ k)).1,
              ))
        ]

  turned_from_subscriber :
      (place : Place) (w : World) (handle : World → World × Answer)
      → ¬ (IsOperator env request ⊎ OwnsToken env request place w)
      → IsTurnedAway w
          (unless_denied (authorize_subscriber env request place.route place.id w) w handle)
  unfolding authorize_subscriber unless_denied
  turned_from_subscriber place w handle h =
      elim (Option-cases (read_management_secret env request)) [
        | inl e ↦ rw (e, authorize_subscriber) (omega arith, same w)
        | inr (given, e) ↦
            let plain = operator_only given place.route (λ o. h (inl o)) e in
            let foreign = not_owner place w given (λ o. h (inr o)) e in
            elim (Bool-cases (is_empty given)) [
              | inl k ↦ rw (e, k, authorize_subscriber) (omega arith, same w)
              | inr k ↦ elim (Bool-cases (is_allowed_route_id place.route)) [
                | inl a ↦ rw (e, k, plain, a, foreign, authorize_subscriber) (omega arith, same w)
                | inr a ↦ rw (e, k, plain, a, authorize_subscriber) (omega arith, same w)
              ]
            ]
      ]

  turned_from_endpoint :
      (endpoint : Endpoint) (place : Place) (w : World)
      → ¬ (Entitled env request endpoint place w)
      → IsTurnedAway w (perform env request endpoint place w)
  unfolding perform handle_oauth_callback_paths handle_webhook_fanout_settings
      handle_webhook_fanout_rules mint_route_credential
  turned_from_endpoint tunnel place w h = turned_from_join place w _ h
  turned_from_endpoint subscribers place w h = turned_from_join place w _ h
  turned_from_endpoint heartbeat place w h = turned_from_subscriber place w _ h
  turned_from_endpoint oauth_states place w h = turned_from_subscriber place w _ h
  turned_from_endpoint subscriber place w h = turned_from_subscriber place w _ h
  turned_from_endpoint callback_paths place w h = rw (not_operator h) (omega arith, same w)
  turned_from_endpoint fanout_settings place w h = rw (not_operator h) (omega arith, same w)
  turned_from_endpoint fanout_rules place w h = rw (not_operator h) (omega arith, same w)
  turned_from_endpoint mint place w h = rw (not_operator h) (omega arith, same w)

  -- A request that reaches an endpoint without the credential that the endpoint asks for is answered
  -- with an error, and changes nothing but the connection log: the settings and the credentials of
  -- routes take the operator's secret, a new subscriber that or the secret of its route, and a
  -- subscriber's heartbeat, OAuth states and removal that or its own connection token.
  pub handle_management-IsTurnedAway :
      (endpoint : Endpoint) (place : Place) (w : World)
      → destination request.method request.pathname ≡ reaches endpoint place
      → ¬ (Entitled env request endpoint place w)
      → IsTurnedAway w (handle_management env request w)
  unfolding handle_management go_to
  handle_management-IsTurnedAway endpoint place w e h = elim (Bool-cases (is_empty env.secret)) [
    | inl k ↦ rw k (omega arith, same w)
    | inr k ↦ rw (k, e, go_to) (turned_from_endpoint endpoint place w h)
  ]
