-- ===== src/Forward/Clean.antt =====
-- No header that a caller may not set reaches a subscriber.
use wrangle_webhooks.Base.{
  Bool-cases, or_else, is_empty, All, Member, Text, codes, to_lower, text_mem, arith, false, ◌≡◌,
  refl, ◌⊎◌, inl, inr, Bool, true, [], ◌∷◌, ◌++◌,
}
use wrangle_webhooks.Base.Sql.{delete_where}
use wrangle_webhooks.Tunnel.{Headers}
use wrangle_webhooks.Forward.{
  router_header_route, router_header_subscriber, router_header_request_id, router_header_token,
  hop_by_hop_headers, spoofed_forward_headers, should_forward_header, has_name, set_header,
  filter_response_headers, ForwardOptions, set_if_given, build_forward_headers,
}

-- Neither hop-by-hop nor one of the names by which a sender could pose as a proxy or the router,
-- whatever the case of its letters.
abbrev pub IsSafe : Text → Type 0
IsSafe name =
    (text_mem (to_lower name) hop_by_hop_headers ≡ false)
    × (text_mem (to_lower name) spoofed_forward_headers ≡ false)

-- Each pair has a safe name or is one of the router's own.
abbrev pub IsOwnOrSafe : Headers → Headers → Type 0
IsOwnOrSafe own headers = All (λ (pair : Text × Text). IsSafe pair.0 ⊎ Member pair own) headers

-- The pairs that the router sets.
abbrev pub router_pairs : ForwardOptions → Headers
router_pairs o =
    (router_header_route, o.route_id)
    ∷ (router_header_subscriber, o.subscriber_id)
    ∷ (router_header_request_id, o.request_id)
    ∷ (router_header_token, o.forward_token)
    ∷ (codes "x-forwarded-host", o.public_host)
    ∷ (codes "x-forwarded-proto", o.public_proto)
    ∷ (codes "x-forwarded-for", or_else o.client_ip [])
    ∷ []

All-append_last :
    (P : Text × Text → Type 0) (headers : Headers) (pair : Text × Text)
    → All P headers
    → P pair
    → All P (headers ++ (pair ∷ []))
All-append_last P [] pair h k = (k, tt)
All-append_last P (x ∷ headers) pair h k = (h.0, All-append_last P headers pair h.1 k)

All-delete_where :
    (P : Text × Text → Type 0) (p : Text × Text → Bool) (headers : Headers)
    → All P headers
    → All P (delete_where p headers)
All-delete_where P p [] h = tt
All-delete_where P p (x ∷ headers) h = elim (Bool-cases (p x)) [
  | inl e ↦ rw e (All-delete_where P p headers h.1)
  | inr e ↦ rw e (h.0, All-delete_where P p headers h.1)
]

set_header-safe :
    (own : Headers) (name value : Text) (headers : Headers)
    → Member (name, value) own
    → IsOwnOrSafe own headers
    → IsOwnOrSafe own (set_header name value headers)
unfolding set_header
set_header-safe own name value headers m h =
    let P = λ (pair : Text × Text). IsSafe pair.0 ⊎ Member pair own in
    All-append_last P (delete_where (has_name name) headers) (name, value)
      (All-delete_where P (has_name name) headers h) (inr m)

set_if_given-safe :
    (own : Headers) (name value : Text) (headers : Headers)
    → Member (name, value) own
    → IsOwnOrSafe own headers
    → IsOwnOrSafe own (set_if_given name value headers)
set_if_given-safe own name value headers m h = elim (Bool-cases (is_empty value)) [
  | inl e ↦ rw e h
  | inr e ↦ rw e (set_header-safe own name value headers m h)
]

should_forward-IsSafe : (name : Text) → should_forward_header name ≡ true → IsSafe name
unfolding should_forward_header
should_forward-IsSafe name h = (ground arith, ground arith)

filter-safe : (own headers : Headers) → IsOwnOrSafe own (filter_response_headers headers)
unfolding filter_response_headers
filter-safe own [] = tt
filter-safe own (pair ∷ headers) = elim (Bool-cases (should_forward_header pair.0)) [
  | inl e ↦ rw e (inl (should_forward-IsSafe pair.0 e), filter-safe own headers)
  | inr e ↦ rw e (filter-safe own headers)
]

-- Each header that a subscriber is sent has a name that is neither hop-by-hop nor spoofable in any
-- case of its letters, or it is one of the pairs that the router sets itself, name and value.
pub build_forward_headers-IsOwnOrSafe :
    (o : ForwardOptions) → IsOwnOrSafe (router_pairs o) (build_forward_headers o)
unfolding build_forward_headers
build_forward_headers-IsOwnOrSafe o =
    let own = router_pairs o in
    set_if_given-safe own _ (or_else o.client_ip []) _
      (inr (inr (inr (inr (inr (inr (inl refl)))))))
      (set_header-safe own _ o.public_proto _ (inr (inr (inr (inr (inr (inl refl)))))) (
        set_header-safe own _ o.public_host _ (inr (inr (inr (inr (inl refl))))) (
          set_if_given-safe own _ o.forward_token _ (inr (inr (inr (inl refl)))) (
            set_header-safe own _ o.request_id _ (inr (inr (inl refl))) (
              set_header-safe own _ o.subscriber_id _ (inr (inl refl))
                (set_header-safe own _ o.route_id _ (inl refl) (filter-safe own o.incoming)))))))
