-- ===== src/Fanout/Selection.antt =====
-- Which subscribers a webhook reaches.
use wrangle_webhooks.Base.TextLaws.{text_eq_iff}
use wrangle_webhooks.Base.{
  Any, Text, ◌≡◌, ◌↔◌, ◌⊎◌, true, none, some, List, filter, any, text_eq, refl, inl, inr, Bool,
  false, Option, [], ◌∷◌, arith, is_empty, if◌then◌else◌, Bool-cases, Member, sym, ap, ◌∙◌, ◌≢◌,
  not, ◌&&◌, ◌++◌, split,
}
use wrangle_webhooks.Path.Remaining.{WebhookFanoutRuleMode, allow, deny}
use wrangle_webhooks.Fanout.{
  WebhookFanoutRule, WebhookFanoutSubscriber, remaining_path_matches_webhook_prefix, applies_to,
  is_allow, is_deny, subscriber_accepts_webhook_path, WebhookFanoutSettings, matches_rule,
  select_webhook_fanout_subscribers,
}

-- The rule is for every subscriber of the route, or for this one's environment.
abbrev pub Applies : WebhookFanoutSubscriber → WebhookFanoutRule → Type 0
Applies s r =
    (r.environment_id ≡ none)
    ⊎ ((e : Text) × (r.environment_id ≡ some e) × (s.environment_id ≡ some e))

abbrev Matches : Text → WebhookFanoutRule → Type 0
Matches path r = remaining_path_matches_webhook_prefix path r.remaining_path ≡ true

-- A rule of this mode applies to the subscriber.
abbrev pub HasRule :
    WebhookFanoutRuleMode → WebhookFanoutSubscriber → List WebhookFanoutRule → Type 0
HasRule m s rules = Any (λ r. (r.mode ≡ m) × Applies s r) rules

-- A rule of this mode applies to the subscriber and matches the path.
abbrev pub HasMatch :
    WebhookFanoutRuleMode → WebhookFanoutSubscriber → Text → List WebhookFanoutRule → Type 0
HasMatch m s path rules =
    Any
      (λ r.
        (r.mode ≡ m)
        × Applies s r
        × (remaining_path_matches_webhook_prefix path r.remaining_path ≡ true))
      rules

scope_iff :
    (own scope : Option Text)
    → (elim scope [ none ↦ true | some e ↦ elim own [ none ↦ false | some o ↦ text_eq e o ] ]
        ≡ true)
      ↔ ((scope ≡ none) ⊎ ((e : Text) × (scope ≡ some e) × (own ≡ some e)))
scope_iff own none = (λ _. inl refl, λ _. refl)
scope_iff none (some e) = (λ h. cc, λ h. elim h [ inl x ↦ cc | inr (f, x, y) ↦ cc ])
scope_iff (some o) (some e) = (
  λ h. inr (e, refl, cc ((text_eq_iff e o).0 h)),
  λ h. elim h [ inl x ↦ cc | inr (f, x, y) ↦ (text_eq_iff e o).1 (cc) ],
)

Applies-iff :
    (s : WebhookFanoutSubscriber) (r : WebhookFanoutRule) → (applies_to s r ≡ true) ↔ Applies s r
unfolding applies_to
Applies-iff s r = scope_iff s.environment_id r.environment_id

-- Filtering twice and testing, as one search.
any-filter_iff {ℓ} :
    {A : Type ℓ} (p q t : A → Bool) (P Q T : A → Type 0) (xs : List A)
    → ((x : A) → (p x ≡ true) ↔ P x)
    → ((x : A) → (q x ≡ true) ↔ Q x)
    → ((x : A) → (t x ≡ true) ↔ T x)
    → (any t (filter q (filter p xs)) ≡ true) ↔ Any (λ x. Q x × P x × T x) xs
any-filter_iff p q t P Q T [] hp hq ht = ground arith
any-filter_iff p q t P Q T (x ∷ xs) hp hq ht =
    ground (arith, hp x, hq x, ht x, any-filter_iff p q t P Q T xs hp hq ht)

filter_empty_iff {ℓ} :
    {A : Type ℓ} (p q : A → Bool) (P Q : A → Type 0) (xs : List A)
    → ((x : A) → (p x ≡ true) ↔ P x)
    → ((x : A) → (q x ≡ true) ↔ Q x)
    → (is_empty (filter q (filter p xs)) ≡ false) ↔ Any (λ x. Q x × P x) xs
filter_empty_iff p q P Q [] hp hq = ground arith
filter_empty_iff p q P Q (x ∷ xs) hp hq =
    ground (arith, hp x, hq x, filter_empty_iff p q P Q xs hp hq)

is_allow_iff : (r : WebhookFanoutRule) → (is_allow r ≡ true) ↔ (r.mode ≡ allow)
is_allow_iff r = ground arith

is_deny_iff : (r : WebhookFanoutRule) → (is_deny r ≡ true) ↔ (r.mode ≡ deny)
is_deny_iff r = ground arith

-- The rule of the filter, in terms of the rules that apply: the subscriber takes webhooks, an
-- allow rule that matches if there is any allow rule, and no deny rule that matches.
pub record Accepts (s : WebhookFanoutSubscriber) (path : Text) (rules : List WebhookFanoutRule)
    : Type 0 where
  pub takes : s.accept_webhooks ≡ true
  pub allowed : ¬ HasRule allow s rules ⊎ HasMatch allow s path rules
  pub not_denied : ¬ HasMatch deny s path rules

verdict :
    (takes none_allow some_match denied : Bool) {R M D : Type 0}
    → (none_allow ≡ false) ↔ R
    → (some_match ≡ true) ↔ M
    → (denied ≡ true) ↔ D
    → ((if not takes
          then false
          else if not none_allow && not some_match
          then false
          else if denied
          then false
          else true)
        ≡ true)
      ↔ ((takes ≡ true) × (¬ R ⊎ M) × ¬ D)
verdict false n m d r t u = (λ h. cc, λ h. cc)
verdict true true m true r t u = (λ h. cc, λ h. absurd (h.2 (u.0 refl)))
verdict true true m false r t u = (λ _. (refl, inl (λ x. cc (r.1 x)), λ x. cc (u.1 x)), λ _. refl)
verdict true false false d r t u =
    (λ h. cc, λ h. elim h.1 [ inl x ↦ absurd (x (r.0 refl)) | inr x ↦ cc (t.1 x) ])
verdict true false true true r t u = (λ h. cc, λ h. absurd (h.2 (u.0 refl)))
verdict true false true false r t u = (λ _. (refl, inr (t.0 refl), λ x. cc (u.1 x)), λ _. refl)

subscriber-Accepts_iff :
    (s : WebhookFanoutSubscriber) (path : Text) (rules : List WebhookFanoutRule)
    → (subscriber_accepts_webhook_path s path rules ≡ true) ↔ Accepts s path rules
unfolding subscriber_accepts_webhook_path
subscriber-Accepts_iff s path rules =
    let (to, from) =
      verdict s.accept_webhooks (is_empty (filter is_allow (filter (applies_to s) rules)))
        (any (matches_rule path) (filter is_allow (filter (applies_to s) rules)))
        (any (matches_rule path) (filter is_deny (filter (applies_to s) rules)))
        {R = HasRule allow s rules} {M = HasMatch allow s path rules}
        {D = HasMatch deny s path rules}
        (filter_empty_iff (applies_to s) is_allow (Applies s) (λ r. r.mode ≡ allow) rules
          (Applies-iff s) is_allow_iff)
        (any-filter_iff (applies_to s) is_allow (matches_rule path) (Applies s)
          (λ r. r.mode ≡ allow) (λ r. matches_rule path r ≡ true) rules (Applies-iff s) is_allow_iff
          (λ r. (λ h. h, λ h. h)))
        (any-filter_iff (applies_to s) is_deny (matches_rule path) (Applies s) (λ r. r.mode ≡ deny)
          (λ r. matches_rule path r ≡ true) rules (Applies-iff s) is_deny_iff
          (λ r. (λ h. h, λ h. h))) in
    (
      λ h. record { takes = (to h).0; allowed = (to h).1; not_denied = (to h).2 },
      λ a. from (a.takes, a.allowed, a.not_denied),
    )

Member-filter_iff :
    {A : Type 0} (p : A → Bool) (x : A) (xs : List A)
    → Member x (filter p xs) ↔ (Member x xs × (p x ≡ true))
Member-filter_iff p x [] = (λ m. absurd m, λ m. absurd m.0)
Member-filter_iff p x (y ∷ ys) =
    let (to, from) = Member-filter_iff p x ys in
    elim (Bool-cases (p y)) [
      | inl e ↦ rw e (
        λ m. elim m [
          | inl same ↦ (inl same, ap p (sym same) ∙ e)
          | inr rest ↦ let (n, h) = to rest in (inr n, h)
        ],
        λ (m, h). elim m [ inl same ↦ inl same | inr rest ↦ inr (from (rest, h)) ],
      )
      | inr e ↦ rw e (
        λ m. let (n, h) = to m in (inr n, h),
        λ (m, h). elim m [ inl same ↦ cc (ap p same) | inr rest ↦ from (rest, h) ],
      )
    ]

-- A subscriber is selected exactly when it is one of the route's, the route does not deny all
-- webhooks, and the filter accepts the path for it: it takes webhooks, no allow rule applies to it
-- or one that applies matches, and no deny rule that applies to it matches.
pub select_iff :
    {T : Type 0} (view : T → WebhookFanoutSubscriber) (x : T) (subscribers : List T) (path : Text)
    (settings : WebhookFanoutSettings)
    → Member x (select_webhook_fanout_subscribers view subscribers path settings) ↔ (
        Member x subscribers
        × (settings.deny_all_webhooks ≡ false)
        × Accepts (view x) path settings.rules)
unfolding select_webhook_fanout_subscribers
select_iff {T} view x subscribers path settings =
    let test = λ (t : T). subscriber_accepts_webhook_path (view t) path settings.rules in
    let (to, from) = Member-filter_iff test x subscribers in
    let (split, join) = subscriber-Accepts_iff (view x) path settings.rules in
    elim (Bool-cases settings.deny_all_webhooks) [
      | inl e ↦ rw e (λ m. absurd m, λ h. cc h.1)
      | inr e ↦ rw e (λ m. let (k, h) = to m in (k, refl, split h), λ h. from (h.0, join h.2))
    ]

filter-insert :
    {A : Type 0} (p : A → Bool) (r : A) (xs ys : List A)
    → p r ≡ false
    → filter p (xs ++ (r ∷ ys)) ≡ filter p (xs ++ ys)
filter-insert p r [] ys h = rw h
filter-insert p r (x ∷ xs) ys h = ground (arith, filter-insert p r xs ys h)

other_scope :
    (s : WebhookFanoutSubscriber) (r : WebhookFanoutRule) (e : Text)
    → r.environment_id ≡ some e
    → s.environment_id ≢ some e
    → applies_to s r ≡ false
unfolding applies_to
other_scope s r e h n = ground (arith, Applies-iff s r)

-- A rule that is scoped to one environment changes nothing for the subscribers of the others,
-- wherever it stands among the rules.
pub other_environment_unaffected :
    (s : WebhookFanoutSubscriber) (path : Text) (r : WebhookFanoutRule) (e : Text)
    (xs ys : List WebhookFanoutRule)
    → r.environment_id ≡ some e
    → s.environment_id ≢ some e
    → subscriber_accepts_webhook_path s path (xs ++ (r ∷ ys))
      ≡ subscriber_accepts_webhook_path s path (xs ++ ys)
unfolding subscriber_accepts_webhook_path
other_environment_unaffected s path r e xs ys h n =
    rw (filter-insert (applies_to s) r xs ys (other_scope s r e h n)) refl
