-- ===== src/Log/Inbound/Clean.antt =====
-- What an event of inbound-log.ts can hold, whatever the request was.
use wrangle_webhooks.Base.{
  Bool-cases, length, is_empty, take, Text, codes, starts_with, has_unit, before, or_text, ℕ, zero,
  suc, ◌≤◌, ◌≡◌, refl, inl, inr, true, false, ◌||◌, [], ◌∷◌, arith, ltb, if◌then◌else◌, trim,
  to_upper, text_mem, ◌⊎◌, not, Option, none, some, List,
}
use wrangle_webhooks.Base.TextLaws.{has_unit-before, has_unit-before_self}
use wrangle_webhooks.Log.Inbound.{
  inbound_log_path_max_length, sanitize_inbound_path, InboundLogEvent, InboundLogEventInput, kinds,
  results, errors, is_method_token, sanitize_http_method, sanitize_inbound_status,
  sanitize_inbound_error, sanitize_inbound_count, sanitize_inbound_body_bytes,
  build_inbound_log_event,
}

length-take-le : (n : ℕ) (s : Text) → length (take n s) ≤ n
length-take-le zero s = omega arith
length-take-le (suc n) [] = omega arith
length-take-le (suc n) (a ∷ s) = omega (arith, length-take-le n s)

has_unit-take : (c n : ℕ) (s : Text) → has_unit c s ≡ false → has_unit c (take n s) ≡ false
unfolding has_unit
has_unit-take c zero s h = refl
has_unit-take c (suc n) [] h = refl
has_unit-take c (suc n) (a ∷ s) h = ground (arith, has_unit-take c n s)

-- A path that may be stored: it starts with a slash, is short, and has no query, fragment or line
-- break.
pub record IsStoredPath (path : Text) : Type 0 where
  pub rooted : starts_with path (codes "/") ≡ true
  pub short : length path ≤ inbound_log_path_max_length
  pub no_query : has_unit b'?' path ≡ false
  pub no_fragment : has_unit b'#' path ≡ false
  pub no_return : has_unit 13 path ≡ false
  pub no_newline : has_unit 10 path ≡ false

cut :
    (p : Text)
    → starts_with p (codes "/") ≡ true
    → has_unit b'?' p ≡ false
    → has_unit b'#' p ≡ false
    → has_unit 13 p ≡ false
    → has_unit 10 p ≡ false
    → IsStoredPath (or_text (take inbound_log_path_max_length p) (codes "/"))
unfolding or_text starts_with
cut [] h q f r n = cc
cut (a ∷ p) h q f r n = record {
  rooted = ground (arith, h);
  short = length-take-le inbound_log_path_max_length (a ∷ p);
  no_query = has_unit-take b'?' inbound_log_path_max_length (a ∷ p) q;
  no_fragment = has_unit-take b'#' inbound_log_path_max_length (a ∷ p) f;
  no_return = has_unit-take 13 inbound_log_path_max_length (a ∷ p) r;
  no_newline = has_unit-take 10 inbound_log_path_max_length (a ∷ p) n;
}

slash-IsStoredPath : IsStoredPath (codes "/")
unfolding starts_with has_unit
slash-IsStoredPath = record {
  rooted = refl;
  short = omega arith;
  no_query = refl;
  no_fragment = refl;
  no_return = refl;
  no_newline = refl;
}

rooted_cut :
    (w : Text)
    → has_unit b'?' w ≡ false
    → has_unit b'#' w ≡ false
    → has_unit 13 w ≡ false
    → has_unit 10 w ≡ false
    → IsStoredPath (or_text (take inbound_log_path_max_length (b'/' ∷ w)) (codes "/"))
unfolding starts_with has_unit
rooted_cut w q f r n = cut (b'/' ∷ w) refl q f r n

-- The stored path of any request starts with a slash, has at most 256 units, and has no query, no
-- fragment and no line break.
pub sanitize_inbound_path-IsStoredPath : (value : Text) → IsStoredPath (sanitize_inbound_path value)
unfolding sanitize_inbound_path
sanitize_inbound_path-IsStoredPath value =
    let w = before b'#' (before b'?' value) in
    let q : has_unit b'?' w ≡ false =
      has_unit-before b'?' b'#' (before b'?' value) (has_unit-before_self b'?' value) in
    let f : has_unit b'#' w ≡ false = has_unit-before_self b'#' (before b'?' value) in
    elim (Bool-cases (is_empty w || (has_unit 13 w || has_unit 10 w))) [
      | inl e ↦ rw e slash-IsStoredPath
      | inr e ↦
          let r : has_unit 13 w ≡ false = ground arith in
          let n : has_unit 10 w ≡ false = ground arith in
          elim (Bool-cases (starts_with w (codes "/"))) [
            | inl s ↦ rw (e, s) (cut w s q f r n)
            | inr s ↦ rw (e, s) (rooted_cut w q f r n)
          ]
    ]

-- What the dashboard may rely on in an event.
pub record IsCleanEvent (e : InboundLogEvent) : Type 0 where
  pub path : IsStoredPath e.path
  pub kind : text_mem e.kind kinds ≡ true
  pub result : text_mem e.result results ≡ true
  pub method : (is_method_token e.method ≡ true)
  pub status : (e.status ≡ 0) ⊎ ((100 ≤ e.status) × (e.status ≤ 599))
  pub error : (e.error ≡ none) ⊎ ((t : Text) × (e.error ≡ some t) × (text_mem t errors ≡ true))
  pub subscribers : e.subscriber_count ≤ 10000
  pub delivered : e.delivered_subscriber_count ≤ 10000
  pub body : e.body_bytes ≤ 1000000000

one_of :
    (t d : Text) (ts : List Text)
    → text_mem d ts ≡ true
    → text_mem (if text_mem t ts then t else d) ts ≡ true
one_of t d ts h = elim (Bool-cases (text_mem t ts)) [ inl e ↦ rw (e, e) refl | inr e ↦ rw e h ]

method-IsToken : (value : Text) → is_method_token (sanitize_http_method value) ≡ true
unfolding sanitize_http_method is_method_token
method-IsToken value = elim (Bool-cases (is_method_token (to_upper (trim value)))) [
  | inl e ↦ rw e e
  | inr e ↦ rw e refl
]

status_range :
    (value : ℕ)
    → (sanitize_inbound_status value ≡ 0)
      ⊎ ((100 ≤ sanitize_inbound_status value) × (sanitize_inbound_status value ≤ 599))
unfolding sanitize_inbound_status
status_range value = elim (Bool-cases (ltb value 100 || ltb 599 value)) [
  | inl e ↦ rw e (inl refl)
  | inr e ↦ rw e (inr (ground arith, ground arith))
]

error_known :
    (o : Option Text)
    → (sanitize_inbound_error o ≡ none)
      ⊎ ((t : Text) × (sanitize_inbound_error o ≡ some t) × (text_mem t errors ≡ true))
unfolding sanitize_inbound_error
error_known none = inl refl
error_known (some value) = elim (Bool-cases (is_empty value || not (text_mem value errors))) [
  | inl e ↦ rw e (inl refl)
  | inr e ↦ rw e (inr (value, refl, ground arith))
]

-- Every event that is built is clean: a stored path, a kind, a result and an error of the lists, a
-- method of capital letters, a status from 100 to 599 or 0, and bounded counts.
pub build_inbound_log_event-IsClean :
    (now : ℕ) (input : InboundLogEventInput) → IsCleanEvent (build_inbound_log_event now input)
unfolding build_inbound_log_event sanitize_inbound_count sanitize_inbound_body_bytes text_mem
build_inbound_log_event-IsClean now input = record {
  path = sanitize_inbound_path-IsStoredPath input.remaining_path;
  kind = one_of input.kind (codes "webhook") kinds refl;
  result = one_of input.result (codes "rejected") results refl;
  method = method-IsToken input.method;
  status = status_range input.status;
  error = error_known input.error;
  subscribers = omega arith;
  delivered = omega arith;
  body = omega arith;
}
