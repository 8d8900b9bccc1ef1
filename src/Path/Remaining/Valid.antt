-- ===== src/Path/Remaining/Valid.antt =====
-- What the validators let through.
use wrangle_webhooks.Base.{
  ◌==◌, length, any, Text, codes, has_unit, before, ℕ, ◌≤◌, ◌≡◌, refl, ◌≢◌, false, ◌||◌, some, [],
  ◌∷◌, arith,
}
use wrangle_webhooks.Base.TextLaws.{text_eq_iff, has_unit-before}
use wrangle_webhooks.Path.Ingress.{public_path_has_dot_dot_segment}
use wrangle_webhooks.Path.Scanner.{is_scanner_probe_path}
use wrangle_webhooks.Path.Remaining.{
  normalize_path, normalize_webhook_filter_path, normalize_oauth_callback_path, is_refused,
  validate_webhook_filter_path, validate_oauth_callback_path,
}
use wrangle_webhooks.Path.Remaining.Normal.{
  has_unit-normalize_path, normalize_path_no_query, normalize_path_no_hash, IsNormal,
  normalize_path-IsNormal,
}

-- A path that can be stored: rooted, without query, fragment, glob or line break, at most 256
-- units long, and with no slash at its end unless it is the root.
pub record IsStorable (q : Text) : Type 0 where
  pub normal : IsNormal q
  pub bounded : length q ≤ 256
  pub no_query : has_unit b'?' q ≡ false
  pub no_hash : has_unit b'#' q ≡ false
  pub no_glob : has_unit b'*' q ≡ false
  pub no_return : has_unit 13 q ≡ false
  pub no_feed : has_unit 10 q ≡ false

-- What the early returns have established.
record IsAccepted (p : Text) : Type 0 where
  glob : has_unit b'*' p ≡ false
  return : has_unit 13 p ≡ false
  feed : has_unit 10 p ≡ false
  dot_dot : public_path_has_dot_dot_segment p ≡ false
  probe : is_scanner_probe_path p ≡ false

break_has_unit :
    (p : Text)
    → any (λ c. c == 13 || (c == 10 || c == 0)) p ≡ false
    → (has_unit 13 p ≡ false) × (has_unit 10 p ≡ false)
unfolding has_unit
break_has_unit [] h = (refl, refl)
break_has_unit (a ∷ p) h = ground (arith, break_has_unit p)

not_refused : (m : ℕ) (p : Text) → is_refused m p ≡ false → IsAccepted p
unfolding is_refused
not_refused m p h = ground (arith, break_has_unit p)

accepted-IsStorable :
    (p : Text) → IsAccepted p → length (normalize_path p) ≤ 256 → IsStorable (normalize_path p)
accepted-IsStorable p a l = record {
  normal = normalize_path-IsNormal p;
  bounded = l;
  no_query = normalize_path_no_query p;
  no_hash = normalize_path_no_hash p;
  no_glob = has_unit-normalize_path b'*' p (omega arith) (keep b'*' a.glob);
  no_return = has_unit-normalize_path 13 p (omega arith) (keep 13 a.return);
  no_feed = has_unit-normalize_path 10 p (omega arith) (keep 10 a.feed);
}
  where
    keep : (c : ℕ) → has_unit c p ≡ false → has_unit c (before b'#' (before b'?' p)) ≡ false
    keep c h = has_unit-before c b'#' _ (has_unit-before c b'?' p h)

filter_inversion :
    (p q : Text)
    → validate_webhook_filter_path p ≡ some q
    → IsAccepted p × (q ≡ normalize_path p) × (q ≢ codes "/") × (length q ≤ 256)
unfolding validate_webhook_filter_path normalize_webhook_filter_path
filter_inversion p q h =
    ground (arith, not_refused 256 p, text_eq_iff (normalize_path p) (codes "/"))

callback_inversion :
    (p q : Text)
    → validate_oauth_callback_path p ≡ some q
    → IsAccepted p × (q ≡ normalize_path p) × (length q ≤ 256)
unfolding validate_oauth_callback_path normalize_oauth_callback_path
callback_inversion p q h = ground (arith, not_refused 256 p)

-- A webhook prefix that the validator returns is a storable path other than the root, it is the
-- normal form of what was given, and what was given holds no traversal segment under repeated
-- decoding and is no scanner probe.
pub validate_webhook_filter_path_sound :
    (p q : Text)
    → validate_webhook_filter_path p ≡ some q
    → IsStorable q
      × (q ≢ codes "/")
      × (q ≡ normalize_webhook_filter_path p)
      × (public_path_has_dot_dot_segment p ≡ false)
      × (is_scanner_probe_path p ≡ false)
unfolding normalize_webhook_filter_path
validate_webhook_filter_path_sound p q h =
    let (a, e, n, l) = filter_inversion p q h in
    (rw e (accepted-IsStorable p a (rw e at l)), n, e, a.dot_dot, a.probe)

-- An OAuth callback path that the validator returns is a storable path, it is the normal form of what
-- was given, and what was given holds no traversal segment under repeated decoding and is no scanner
-- probe.
pub validate_oauth_callback_path_sound :
    (p q : Text)
    → validate_oauth_callback_path p ≡ some q
    → IsStorable q
      × (q ≡ normalize_oauth_callback_path p)
      × (public_path_has_dot_dot_segment p ≡ false)
      × (is_scanner_probe_path p ≡ false)
unfolding normalize_oauth_callback_path
validate_oauth_callback_path_sound p q h =
    let (a, e, l) = callback_inversion p q h in
    (rw e (accepted-IsStorable p a (rw e at l)), e, a.dot_dot, a.probe)
