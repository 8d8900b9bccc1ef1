-- ===== src/Management/Found.antt =====
-- A registration through `handleManagement` is found by the public ingress.
use wrangle_webhooks.Base.{Text, ℕ, ◌≡◌}
use wrangle_webhooks.Index.{put_route}
use wrangle_webhooks.Route.Attach.{AttachOptions, Attached, attached}
use wrangle_webhooks.Route.Attach.Connect.{register}
use wrangle_webhooks.Ingress.Handler.{World}
use wrangle_webhooks.Management.{ManagementRequest, Env, Answer, subscribed, at_route}

abbrev listed : Env → Text → World → World
listed env route w = record w { index = put_route route env.now w.index }

module _ (env : Env) (request : ManagementRequest) (route id forward token : Text)
    (expires : ℕ) where
  abbrev attempt : AttachOptions → World → World × Attached
  attempt o w = at_route env route (register env.sha256 env.fresh env.now route o) w

  -- The registration that is behind an answer.
  abbrev IsBehind : World → World × Answer → Type 0
  IsBehind w result =
      (o : AttachOptions) × (result.0 ≡ listed env route (attempt o w).0)
      × ((attempt o w).1 ≡ attached id forward token)

  abbrev answer : Answer
  answer = subscribed id route expires forward token
