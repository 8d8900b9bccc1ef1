-- ===== src/Route/Resolve.antt =====
-- Which subscriber an OAuth callback goes to: `resolveOAuthSubscriber` of durable-object.ts.
use wrangle_webhooks.Base.{
  ltb, Bool-cases, Option-cases, or_else, find, Member, find-cons, Text, text_eq, ℕ, ◌<◌, ◌≡◌, refl,
  sym, ap, ◌∙◌, ◌⊎◌, inl, inr, Bool, true, ◌&&◌, Option, none, some, List, [], ◌∷◌, arith, subst,
}
use wrangle_webhooks.Base.TextLaws.{text_eq_iff}
use wrangle_webhooks.Oauth.{truthy}
use wrangle_webhooks.Oauth.Signed.{SignedOauthState}
use wrangle_webhooks.Route.{OauthBinding, RouteState, route_or_root}
use wrangle_webhooks.Route.Delivery.{
  DeliverySubscriber, is_text, by_id, only, binding_for, signed_subscriber,
  resolve_oauth_subscriber,
}

find_sound :
    {A : Type 0} (p : A → Bool) (xs : List A) (x : A)
    → find p xs ≡ some x
    → Member x xs × (p x ≡ true)
find_sound p [] x h = cc
find_sound p (y ∷ ys) x h = elim (find-cons p y x ys h) [
  | inl here ↦ (inl here.1, ap p (sym here.1) ∙ here.0)
  | inr later ↦ let (m, k) = find_sound p ys x later.1 in (inr m, k)
]

-- Why a subscriber was chosen: a signed state names it and is of this route, or a binding of the
-- state that has not expired names it, or it is the only one.
module _ (unwrap : Text → Option SignedOauthState) (now : ℕ) (state : Option Text)
    (subscribers : List DeliverySubscriber) (s : RouteState) where
  abbrev given : Text
  given = or_else state []

  abbrev pub IsChosen : DeliverySubscriber → Type 0
  IsChosen d =
      ((signed : SignedOauthState) × (unwrap given ≡ some signed)
        × (is_text signed.sub d.id ≡ true)
        × (((s.route_id ≡ none) ⊎ (is_text signed.route (route_or_root s) ≡ true))))
      ⊎ (((b : OauthBinding) × Member b s.bindings
            × (b.state ≡ given)
            × (now < b.expires_at)
            × (d.id ≡ b.subscriber_id))
          ⊎ (subscribers ≡ d ∷ []))

  signed-IsChosen :
      (signed : SignedOauthState) (d : DeliverySubscriber)
      → unwrap given ≡ some signed
      → signed_subscriber signed subscribers s ≡ some d
      → Member d subscribers × IsChosen d
  unfolding signed_subscriber
  signed-IsChosen signed d u h = elim (Bool-cases (is_text signed.route (route_or_root s))) [
    | inl e ↦
        let (m, k) =
          find_sound (λ (x : DeliverySubscriber). is_text signed.sub x.id) subscribers d (same e) in
        (m, inl (signed, u, k, inr e))
    | inr e ↦ elim (Option-cases s.route_id) [
      | inl n ↦
          let (m, k) =
            find_sound (λ (x : DeliverySubscriber). is_text signed.sub x.id) subscribers d
              (nowhere n) in
          (m, inl (signed, u, k, inl n))
      | inr (r, n) ↦ let k = rw (e, n) at h in cc
    ]
  ]
    where
      named : Type 0
      named = find (λ (x : DeliverySubscriber). is_text signed.sub x.id) subscribers ≡ some d

      same : is_text signed.route (route_or_root s) ≡ true → named
      same e = ground arith

      nowhere : s.route_id ≡ none → named
      nowhere n = rw n at h

  only-IsChosen :
      (d : DeliverySubscriber) → only subscribers ≡ some d → Member d subscribers × IsChosen d
  only-IsChosen d h = go subscribers refl
    where
      go : (ds : List DeliverySubscriber) → subscribers ≡ ds → Member d subscribers × IsChosen d
      go [] e = cc (rw e at h)
      go (x ∷ []) e =
          let same = ap (λ o. or_else o x) (rw e at h) in
          let alone = e ∙ ap (λ t. t ∷ []) same in
          (subst (λ l. Member d l) (sym alone) (inl refl), inr (inr alone))
      go (x ∷ y ∷ rest) e = cc (rw e at h)

  bound-IsChosen :
      (b : OauthBinding) (d : DeliverySubscriber)
      → binding_for now given s ≡ some b
      → by_id b.subscriber_id subscribers ≡ some d
      → Member d subscribers × IsChosen d
  bound-IsChosen b d h k =
      let (m, q) =
        find_sound (λ (x : DeliverySubscriber). text_eq x.id b.subscriber_id) subscribers d k in
      let (n, r) =
        find_sound (λ (x : OauthBinding). text_eq x.state given && ltb now x.expires_at) s.bindings
          b h in
      (
        m,
        inr (
            inl (
              b,
              n,
              ground (arith, text_eq_iff b.state given),
              ground arith,
              (text_eq_iff d.id b.subscriber_id).0 q,
            )),
      )

  -- The subscriber that a callback goes to is one of those that can be delivered to, and a signed
  -- state of this route names it, or a current binding of the state names it, or it is the only one:
  -- with several subscribers there is no guess.
  pub resolve_oauth_subscriber-IsChosen :
      (d : DeliverySubscriber)
      → resolve_oauth_subscriber unwrap now state subscribers s ≡ some d
      → Member d subscribers × IsChosen d
  unfolding resolve_oauth_subscriber
  resolve_oauth_subscriber-IsChosen d h = elim (Bool-cases (truthy state)) [
    | inr e ↦ only-IsChosen d (rw e at h)
    | inl e ↦ elim (Option-cases (unwrap given)) [
      | inr (signed, u) ↦ signed-IsChosen signed d u (rw (e, u) at h)
      | inl u ↦ elim (Option-cases (binding_for now given s)) [
        | inr (b, k) ↦ bound-IsChosen b d k (rw (e, u, k) at h)
        | inl k ↦ only-IsChosen d (rw (e, u, k) at h)
      ]
    ]
  ]
