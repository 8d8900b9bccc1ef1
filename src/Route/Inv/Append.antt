-- ===== src/Route/Inv/Append.antt =====
-- A row that conflicts with none may be added to consistent tables.
use wrangle_webhooks.Base.TextLaws.{text_eq_iff}
use wrangle_webhooks.Base.{
  any, Text, text_eq, ◌≡◌, refl, Bool, false, ◌||◌, Option, none, some, List, [], ◌∷◌, ◌++◌, arith,
}
use wrangle_webhooks.Route.{SubscriberRow, OauthBinding, has_id, in_environment}
use wrangle_webhooks.Route.Attach.{conflicts}
use wrangle_webhooks.Route.Inv.{
  HasDistinctIds, shares_environment, HasDistinctEnvironments, HasSubscribers, Consistent,
}

any-append_last :
    (q : SubscriberRow → Bool) (rows : List SubscriberRow) (r : SubscriberRow)
    → any q (rows ++ (r ∷ [])) ≡ (any q rows || q r)
any-append_last q [] r = ground arith
any-append_last q (x ∷ rows) r = ground (arith, any-append_last q rows r)

any_id_symm :
    (x r : SubscriberRow) (rows : List SubscriberRow)
    → any (has_id r.id) (x ∷ rows) ≡ false
    → (text_eq r.id x.id ≡ false) × (any (has_id r.id) rows ≡ false)
any_id_symm x r rows h = ground (arith, text_eq_iff r.id x.id, text_eq_iff x.id r.id)

append-ids :
    (rows : List SubscriberRow) (r : SubscriberRow)
    → HasDistinctIds rows
    → any (has_id r.id) rows ≡ false
    → HasDistinctIds (rows ++ (r ∷ []))
append-ids [] r h n = (refl, tt)
append-ids (x ∷ rows) r h n =
    let (other, rest) = any_id_symm x r rows n in
    (ground (arith, any-append_last (has_id x.id) rows r, h.0), append-ids rows r h.1 rest)

shares-append_last :
    (e : Option Text) (rows : List SubscriberRow) (r : SubscriberRow)
    → shares_environment e rows ≡ false
    → shares_environment e (r ∷ []) ≡ false
    → shares_environment e (rows ++ (r ∷ [])) ≡ false
shares-append_last none rows r h k = refl
shares-append_last (some e) rows r h k = ground (arith, any-append_last (in_environment e) rows r)

shares_symm_of :
    (a b : Option Text) (x r : SubscriberRow) (rows : List SubscriberRow)
    → x.environment_id ≡ a
    → r.environment_id ≡ b
    → shares_environment b (x ∷ rows) ≡ false
    → (shares_environment a (r ∷ []) ≡ false) × (shares_environment b rows ≡ false)
shares_symm_of none none x r rows ea eb h = (refl, refl)
shares_symm_of (some a) none x r rows ea eb h = (rw eb refl, refl)
shares_symm_of none (some b) x r rows ea eb h = (refl, ground arith)
shares_symm_of (some a) (some b) x r rows ea eb h = ground (arith, text_eq_iff a b, text_eq_iff b a)

shares_symm :
    (x r : SubscriberRow) (rows : List SubscriberRow)
    → shares_environment r.environment_id (x ∷ rows) ≡ false
    → (shares_environment x.environment_id (r ∷ []) ≡ false)
      × (shares_environment r.environment_id rows ≡ false)
shares_symm x r rows h = shares_symm_of x.environment_id r.environment_id x r rows refl refl h

append-environments :
    (rows : List SubscriberRow) (r : SubscriberRow)
    → HasDistinctEnvironments rows
    → shares_environment r.environment_id rows ≡ false
    → HasDistinctEnvironments (rows ++ (r ∷ []))
append-environments [] r h n = (n, tt)
append-environments (x ∷ rows) r h n =
    let (other, rest) = shares_symm x r rows n in
    (shares-append_last x.environment_id rows r h.0 other, append-environments rows r h.1 rest)

append-subscribers :
    (rows : List SubscriberRow) (r : SubscriberRow) (bindings : List OauthBinding)
    → HasSubscribers rows bindings
    → HasSubscribers (rows ++ (r ∷ [])) bindings
append-subscribers rows r [] h = tt
append-subscribers rows r (b ∷ bindings) h = (
  ground (arith, any-append_last (has_id b.subscriber_id) rows r, h.0),
  append-subscribers rows r bindings h.1,
)

conflict_free :
    (r : SubscriberRow) (rows : List SubscriberRow)
    → conflicts r rows ≡ false
    → (any (has_id r.id) rows ≡ false) × (shares_environment r.environment_id rows ≡ false)
unfolding conflicts
conflict_free r rows h = ground arith

pub append-Consistent :
    (r : SubscriberRow) {rows : List SubscriberRow} {bindings : List OauthBinding}
    → conflicts r rows ≡ false
    → Consistent rows bindings
    → Consistent (rows ++ (r ∷ [])) bindings
append-Consistent r {rows} {bindings} h c =
    let (new, alone) = conflict_free r rows h in
    record {
      ids = append-ids rows r c.ids new;
      environments = append-environments rows r c.environments alone;
      subscribers = append-subscribers rows r bindings c.subscribers;
    }
