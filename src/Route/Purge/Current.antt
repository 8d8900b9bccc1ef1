-- ===== src/Route/Purge/Current.antt =====
-- What `purgeExpired` of durable-object.ts leaves in the tables is current.

use wrangle_webhooks.Base.{leb, All, ℕ, ◌<◌, ◌≡◌, false, List, [], ◌∷◌, arith}
use wrangle_webhooks.Route.{SubscriberRow, OauthBinding, PendingTunnel, RouteState}
use wrangle_webhooks.Route.Expiry.{is_expired, purge_rows, purge_bindings, purge_expired}
use wrangle_webhooks.Route.Purge.{purge_rows-current}
use wrangle_webhooks.Route.Purge.Sweeps.{delete_where-All, sweeps-Holds}

any_pending : (ps : List PendingTunnel) → All (λ p. Unit {0}) ps
any_pending [] = tt
any_pending (p ∷ ps) = (tt, any_pending ps)

later_rows :
    (now : ℕ) (rows : List SubscriberRow)
    → All (λ r. is_expired now r ≡ false) rows
    → All (λ r. now < r.expires_at) rows
later_rows now [] h = tt
later_rows now (r ∷ rows) h = (ground (arith, h.0), later_rows now rows h.1)

later_bindings :
    (now : ℕ) (bindings : List OauthBinding)
    → All (λ b. leb b.expires_at now ≡ false) bindings
    → All (λ b. now < b.expires_at) bindings
later_bindings now [] h = tt
later_bindings now (b ∷ bindings) h = (ground (arith, h.0), later_bindings now bindings h.1)

-- After a purge no subscriber and no OAuth binding in the tables has expired.
pub purge_expired-current :
    (now : ℕ) (s : RouteState)
    → All (λ (r : SubscriberRow). now < r.expires_at) (purge_expired now s).rows
      × All (λ (b : OauthBinding). now < b.expires_at) (purge_expired now s).bindings
unfolding purge_expired purge_bindings
purge_expired-current now s =
    let a = purge_rows now s in
    let b = purge_bindings now a in
    let (r, q, _) =
      sweeps-Holds (λ (r : SubscriberRow). is_expired now r ≡ false)
        (λ (b : OauthBinding). leb b.expires_at now ≡ false) (λ p. Unit {0}) now b
        (
          purge_rows-current now s,
          delete_where-All (λ b. leb b.expires_at now) a.bindings,
          any_pending b.pending,
        ) in
    (later_rows now _ r, later_bindings now _ q)
