-- ===== src/Route/Present.antt =====
-- A registered subscriber is active until its term ends.
use wrangle_webhooks.Route.Inv.Keeps.{purge-IsConsistent}
use wrangle_webhooks.Route.Inv.Ops.{set_route-IsConsistent}
use wrangle_webhooks.Route.Inv.Reach.{register-IsConsistent}
use wrangle_webhooks.Route.Ownership.{IsHeldIn, reclaim_or_create-IsHeld}
use wrangle_webhooks.Base.{
  Bool-cases, is_empty, filter, find, Member, ℕ, ◌<◌, ◌≡◌, refl, ap, ◌∙◌, inl, inr, Bool, true,
  false, some, List, [], ◌∷◌, map, arith, Text, ◌+◌, sym, subst,
}
use wrangle_webhooks.Base.Sql.{Member-order_by, Member-filter}
use wrangle_webhooks.Log.Connection.{is_tunnel, public_target}
use wrangle_webhooks.Route.{
  SubscriberRow, RouteState, schedule_cleanup, subscriber_ttl_ms, has_id, lookup_subscriber,
  set_route_id,
}
use wrangle_webhooks.Route.Expiry.{purge_expired}
use wrangle_webhooks.Route.Attach.{
  Attached, attached, environment_taken, threw, Fresh, AttachOptions, reclaim_or_create,
}
use wrangle_webhooks.Route.Attach.Connect.{finish_register, non_empty, register}
use wrangle_webhooks.Route.Lifecycle.{to_subscriber, by_creation, is_active, get_active_subscribers}
use wrangle_webhooks.Route.Inv.{IsConsistent}
use wrangle_webhooks.Route.Alarm.Chain.{flush_tables, sync_tables}
use wrangle_webhooks.Route.Purge.Kept.{purge_expired-keeps}

find-Member :
    (p : SubscriberRow → Bool) (rows : List SubscriberRow) (x : SubscriberRow)
    → find p rows ≡ some x
    → Member x rows
find-Member p [] x h = cc
find-Member p (r ∷ rows) x h = elim (Bool-cases (p r)) [
  | inl e ↦ inl (ground arith)
  | inr e ↦ inr (find-Member p rows x (ground arith))
]

not_empty :
    (x : SubscriberRow) (rows : List SubscriberRow)
    → Member x rows
    → is_empty (map to_subscriber rows) ≡ false
not_empty x [] m = absurd m
not_empty x (r ∷ rows) m = refl

-- A public row whose term has not ended makes its route active.
pub row_is_active :
    (t : ℕ) (row : SubscriberRow) (s : RouteState)
    → IsConsistent s
    → Member row s.rows
    → is_tunnel row.transport ≡ false
    → t < row.expires_at
    → is_empty (get_active_subscribers t s).1 ≡ false
unfolding get_active_subscribers
row_is_active t row s v m public later =
    let purged = purge_expired t s in
    let kept = purge_expired-keeps t row s v m public later in
    let active : is_active purged row ≡ true = rw public refl in
    not_empty row (filter (is_active purged) (by_creation purged.rows)) (
      Member-filter (is_active purged) row (by_creation purged.rows)
        (Member-order_by _ row purged.rows kept) active)

finish_rows :
    (now : ℕ) (s : RouteState) (a : Attached)
    → ((finish_register now (s, a)).0.rows ≡ s.rows) × ((finish_register now (s, a)).1 ≡ a)
unfolding finish_register schedule_cleanup
finish_rows now s environment_taken = ((flush_tables s).0, refl)
finish_rows now s threw = (refl, refl)
finish_rows now s (attached id forward token) = ((sync_tables (schedule_cleanup now s)).0, refl)

module _ (sha256 : Text → Text) (fresh : Fresh) (now : ℕ) (route : Text) (o : AttachOptions) where
  -- The row of a subscriber that was registered.
  registered_row :
      (s : RouteState) (id forward token : Text)
      → IsConsistent s
      → (register sha256 fresh now route o s).1 ≡ attached id forward token
      → (row : SubscriberRow) × Member row (register sha256 fresh now route o s).0.rows
        × (row.transport ≡ public_target)
        × (row.expires_at ≡ now + subscriber_ttl_ms)
  unfolding register lookup_subscriber
  registered_row s id forward token v e =
      let ready = set_route_id route (purge_expired now s) in
      let options : AttachOptions = record o {
        environment_id = non_empty o.environment_id;
        transport = public_target;
      } in
      let result = reclaim_or_create sha256 fresh now options ready in
      let held =
        reclaim_or_create-IsHeld sha256 fresh now options ready
          (set_route-IsConsistent route (purge_expired now s) (purge-IsConsistent now s v)) in
      let (rows, same) = finish_rows now result.0 result.1 in
      let held_in : IsHeldIn sha256 now options result.0 (attached id forward token) =
        subst (IsHeldIn sha256 now options result.0) (sym same ∙ e) held in
      let (row, found, holder) = held_in in
      (
        row,
        rw rows (find-Member (has_id id) result.0.rows row found),
        holder.same_transport,
        holder.full_term,
      )

  -- A registration that is let in makes the route active for a full term.
  pub registered_is_active :
      (s t : RouteState) (later : ℕ) (id forward token : Text)
      → IsConsistent s
      → (register sha256 fresh now route o s).1 ≡ attached id forward token
      → later < now + subscriber_ttl_ms
      → t.rows ≡ (register sha256 fresh now route o s).0.rows
      → t.bindings ≡ (register sha256 fresh now route o s).0.bindings
      → is_empty (get_active_subscribers later t).1 ≡ false
  registered_is_active s t later id forward token v e early rows bindings =
      let (row, m, public, term) = registered_row s id forward token v e in
      let consistent = register-IsConsistent sha256 fresh now route o s v in
      row_is_active later row t (rw (rows, bindings) consistent) (rw rows m) (ap is_tunnel public)
        (omega arith)
