-- ===== src/Ingress/Body.antt =====
-- ingress-body.ts: reading a body up to a cap. The stream is the list of its chunks.
use mathlib.Core.List.{append_assoc, append-nil}
use wrangle_webhooks.Base.{
  ltb, if◌then◌else◌, Bool-cases, Option-cases, or_else, length, is_empty, length-append, Text,
  trim, ℕ, ◌+◌, ◌≤◌, ◌<◌, ◌≡◌, sym, ap, ◌∙◌, inl, inr, false, not, ◌||◌, Option, none, some, List,
  [], ◌∷◌, ◌++◌, arith, refl, subst,
}
use wrangle_webhooks.Log.Inbound.{decimal_from, is_length_header}

pub data CappedBody : Type 0 where
  read : List ℕ → CappedBody
  too_large : ℕ → CappedBody

unfoldable pub declared_ingress_content_length : Option Text → Option ℕ
declared_ingress_content_length none = none
declared_ingress_content_length (some header) =
    if is_empty header || not (is_length_header (trim header))
    then none
    else some (decimal_from 0 (trim header))

-- The loop: the chunks that are left, the bytes so far and their number.
unfoldable pub read_chunks : ℕ → List (List ℕ) → List ℕ → ℕ → CappedBody
read_chunks max_bytes [] bytes size = read bytes
read_chunks max_bytes (chunk ∷ chunks) bytes size =
    let rest = read_chunks max_bytes chunks (bytes ++ chunk) (size + length chunk) in
    if ltb max_bytes (size + length chunk) then too_large (size + length chunk) else rest

-- What follows the check of the header; a request without a stream has an empty body.
unfoldable pub read_stream : ℕ → Option (List (List ℕ)) → CappedBody
read_stream max_bytes none = read []
read_stream max_bytes (some chunks) = read_chunks max_bytes chunks [] 0

unfoldable pub read_capped_ingress_body : Option Text → Option (List (List ℕ)) → ℕ → CappedBody
read_capped_ingress_body content_length stream max_bytes =
    elim (declared_ingress_content_length content_length) [
      | none ↦ read_stream max_bytes stream
      | some declared ↦
          if ltb max_bytes declared then too_large declared else read_stream max_bytes stream
    ]

-- All bytes of the stream.
abbrev pub all_bytes : List (List ℕ) → List ℕ
all_bytes [] = []
all_bytes (chunk ∷ chunks) = chunk ++ all_bytes chunks

read_chunks_total :
    (max_bytes : ℕ) (chunks : List (List ℕ)) (bytes : List ℕ) (size : ℕ)
    → size + length (all_bytes chunks) ≤ max_bytes
    → read_chunks max_bytes chunks bytes size ≡ read (bytes ++ all_bytes chunks)
unfolding read_chunks
read_chunks_total max_bytes [] bytes size h = ap read (sym (append-nil bytes))
read_chunks_total max_bytes (chunk ∷ chunks) bytes size h =
    let both = length-append chunk (all_bytes chunks) in
    let small : ltb max_bytes (size + length chunk) ≡ false = ground (arith, both) in
    rw small (
      read_chunks_total max_bytes chunks (bytes ++ chunk) (size + length chunk)
        (omega (arith, both))
      ∙ ap read (append_assoc bytes chunk (all_bytes chunks)))

abbrev pub IsTooLarge : ℕ → CappedBody → Type 0
IsTooLarge max_bytes (read bytes) = ⊥
IsTooLarge max_bytes (too_large size) = max_bytes < size

read_chunks_over :
    (max_bytes : ℕ) (chunks : List (List ℕ)) (bytes : List ℕ) (size : ℕ)
    → size ≤ max_bytes
    → max_bytes < size + length (all_bytes chunks)
    → IsTooLarge max_bytes (read_chunks max_bytes chunks bytes size)
unfolding read_chunks
read_chunks_over max_bytes [] bytes size b h = omega arith
read_chunks_over max_bytes (chunk ∷ chunks) bytes size b h =
    let both = length-append chunk (all_bytes chunks) in
    elim (Bool-cases (ltb max_bytes (size + length chunk))) [
      | inl e ↦ rw e (ground arith)
      | inr e ↦ rw e (
          read_chunks_over max_bytes chunks (bytes ++ chunk) (size + length chunk) (ground arith)
            (omega (arith, both)))
    ]

-- A body without a declared length beyond the cap is read in full if it fits the cap, and refused
-- with a size over the cap if it does not.
pub read_capped_ingress_body_total :
    (content_length : Option Text) (chunks : List (List ℕ)) (max_bytes : ℕ)
    → or_else (declared_ingress_content_length content_length) 0 ≤ max_bytes
    → (length (all_bytes chunks) ≤ max_bytes
        → read_capped_ingress_body content_length (some chunks) max_bytes ≡ read (all_bytes chunks))
      × (max_bytes < length (all_bytes chunks)
          → IsTooLarge max_bytes (read_capped_ingress_body content_length (some chunks) max_bytes))
unfolding read_capped_ingress_body read_stream
read_capped_ingress_body_total content_length chunks max_bytes h =
    elim (Option-cases (declared_ingress_content_length content_length)) [
      | inl e ↦ subst IsTotal (sym (undeclared e)) total
      | inr (declared, e) ↦
          let small : ltb max_bytes declared ≡ false = ground arith in
          subst IsTotal (sym (declared_fits declared e small)) total
    ]
  where
    IsTotal : CappedBody → Type 0
    IsTotal r =
        (length (all_bytes chunks) ≤ max_bytes → r ≡ read (all_bytes chunks))
        × (max_bytes < length (all_bytes chunks) → IsTooLarge max_bytes r)

    total : IsTotal (read_chunks max_bytes chunks [] 0)
    total = (
      λ k. read_chunks_total max_bytes chunks [] 0 (omega arith),
      λ k. read_chunks_over max_bytes chunks [] 0 (omega arith) (omega arith),
    )

    undeclared :
        declared_ingress_content_length content_length ≡ none
        → read_capped_ingress_body content_length (some chunks) max_bytes
          ≡ read_chunks max_bytes chunks [] 0
    undeclared e = rw (e, read_capped_ingress_body) refl

    declared_fits :
        (declared : ℕ)
        → declared_ingress_content_length content_length ≡ some declared
        → ltb max_bytes declared ≡ false
        → read_capped_ingress_body content_length (some chunks) max_bytes
          ≡ read_chunks max_bytes chunks [] 0
    declared_fits declared e small = rw (e, read_capped_ingress_body, small) refl
