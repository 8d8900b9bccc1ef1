-- ===== src/Base/Sql.antt =====
-- The statements that the storage code runs, over a table as the list of its rows. `SELECT … WHERE`
-- is `filter`.
use wrangle_webhooks.Base.{
  ltb, ◌==◌, if◌then◌else◌, length, filter, any, Text, ℕ, ◌+◌, ◌≤◌, ◌≡◌, refl, Bool, true, false,
  not, ◌&&◌, ◌||◌, List, [], ◌∷◌, ◌++◌, arith, Bool-cases, Member, ap, ◌∙◌, ◌⊎◌, inl, inr, map,
}

-- `SELECT COUNT(*) … WHERE p`
abbrev pub count_where {ℓ} : {A : Type ℓ} → (A → Bool) → List A → ℕ
count_where p rows = length (filter p rows)

-- `DELETE … WHERE p`
abbrev pub delete_where {ℓ} : {A : Type ℓ} → (A → Bool) → List A → List A
delete_where p [] = []
delete_where p (r ∷ rows) = if p r then delete_where p rows else r ∷ delete_where p rows

-- `UPDATE … SET f WHERE p`
abbrev pub update_where {ℓ} : {A : Type ℓ} → (A → Bool) → (A → A) → List A → List A
update_where p f [] = []
update_where p f (r ∷ rows) = (if p r then f r else r) ∷ update_where p f rows

-- `INSERT … ON CONFLICT(key) DO UPDATE SET f`, where `p` finds the row with the key.
unfoldable pub upsert {ℓ} : {A : Type ℓ} → (A → Bool) → (A → A) → A → List A → List A
upsert p f new rows = if any p rows then update_where p f rows else rows ++ (new ∷ [])

unfoldable pub insert_by {ℓ} : {A : Type ℓ} → (A → A → Bool) → A → List A → List A
insert_by le x [] = x ∷ []
insert_by le x (y ∷ ys) = if le x y then x ∷ y ∷ ys else y ∷ insert_by le x ys

-- `ORDER BY`, by a test that one row may stand before another.
unfoldable pub order_by {ℓ} : {A : Type ℓ} → (A → A → Bool) → List A → List A
unfolding insert_by
order_by le [] = []
order_by le (x ∷ xs) = insert_by le x (order_by le xs)

-- The order of texts by code units, which is SQLite's on texts without surrogates.
unfoldable pub text_lt : Text → Text → Bool
text_lt [] [] = false
text_lt [] (_ ∷ _) = true
text_lt (_ ∷ _) [] = false
text_lt (a ∷ s) (b ∷ t) = ltb a b || (a == b && text_lt s t)

-- The order of the key (a, b), smaller first; ties keep the order of the table.
abbrev pub before_or_same : Bool → Bool → Bool → Bool
before_or_same lt eq later = lt || (eq && later)

module _ {ℓ} {A : Type ℓ} where
  pub count_where_zero : (p : A → Bool) (xs : List A) → (count_where p xs == 0) ≡ not (any p xs)
  count_where_zero p [] = refl
  count_where_zero p (x ∷ xs) = ground (arith, count_where_zero p xs)

  pub count_where-append :
      (p : A → Bool) (xs ys : List A)
      → count_where p (xs ++ ys) ≡ count_where p xs + count_where p ys
  count_where-append p [] ys = omega arith
  count_where-append p (x ∷ xs) ys = ground (arith, count_where-append p xs ys)

  pub count_where-update_where :
      (p q : A → Bool) (f : A → A) (xs : List A)
      → ((x : A) → q (f x) ≡ q x)
      → count_where q (update_where p f xs) ≡ count_where q xs
  count_where-update_where p q f [] h = refl
  count_where-update_where p q f (x ∷ xs) h =
      ground (arith, h x, count_where-update_where p q f xs h)

  pub count_where-delete_where-le :
      (p q : A → Bool) (xs : List A) → count_where q (delete_where p xs) ≤ count_where q xs
  count_where-delete_where-le p q [] = omega arith
  count_where-delete_where-le p q (x ∷ xs) = ground (arith, count_where-delete_where-le p q xs)

  -- A row that is in conflict is rewritten, and one that is not is added.
  pub count_where-upsert :
      (p q : A → Bool) (f : A → A) (new : A) (xs : List A)
      → ((x : A) → q (f x) ≡ q x)
      → count_where q (upsert p f new xs) ≡ (
          if any p xs
          then count_where q xs
          else if q new
          then count_where q xs + 1
          else count_where q xs)
  unfolding upsert
  count_where-upsert p q f new xs h =
      ground (arith, count_where-update_where p q f xs h, count_where-append q xs (new ∷ []))

module _ {A : Type 0} where
  pub Member-filter :
      (p : A → Bool) (x : A) (xs : List A) → Member x xs → p x ≡ true → Member x (filter p xs)
  Member-filter p x [] m h = m
  Member-filter p x (y ∷ ys) (inl e) h = rw (ap p e ∙ h) (inl e)
  Member-filter p x (y ∷ ys) (inr m) h = elim (Bool-cases (p y)) [
    | inl q ↦ rw q (inr (Member-filter p x ys m h))
    | inr q ↦ rw q (Member-filter p x ys m h)
  ]

  Member-insert_by :
      (le : A → A → Bool) (x y : A) (xs : List A)
      → (y ≡ x) ⊎ Member x xs
      → Member x (insert_by le y xs)
  unfolding insert_by
  Member-insert_by le x y [] m = m
  Member-insert_by le x y (z ∷ zs) m = elim (Bool-cases (le y z)) [
    | inl q ↦ rw q m
    | inr q ↦ rw q (elim m [
      | inl e ↦ inr (Member-insert_by le x y zs (inl e))
      | inr k ↦ elim k [ inl e ↦ inl e | inr n ↦ inr (Member-insert_by le x y zs (inr n)) ]
    ])
  ]

  -- Sorting loses no row.
  pub Member-order_by :
      (le : A → A → Bool) (x : A) (xs : List A) → Member x xs → Member x (order_by le xs)
  unfolding order_by
  Member-order_by le x [] m = m
  Member-order_by le x (y ∷ ys) (inl e) = Member-insert_by le x y _ (inl e)
  Member-order_by le x (y ∷ ys) (inr m) =
      Member-insert_by le x y _ (inr (Member-order_by le x ys m))

  count_where-insert_by :
      (p : A → Bool) (le : A → A → Bool) (y : A) (xs : List A)
      → count_where p (insert_by le y xs) ≡ count_where p (y ∷ xs)
  unfolding insert_by
  count_where-insert_by p le y [] = refl
  count_where-insert_by p le y (x ∷ xs) = ground (arith, count_where-insert_by p le y xs)

  -- Sorting neither loses nor adds a row.
  pub count_where-order_by :
      (p : A → Bool) (le : A → A → Bool) (xs : List A)
      → count_where p (order_by le xs) ≡ count_where p xs
  unfolding order_by
  count_where-order_by p le [] = refl
  count_where-order_by p le (x ∷ xs) =
      ground (arith, count_where-insert_by p le x (order_by le xs), count_where-order_by p le xs)

  pub Member-append_last : (x : A) (xs : List A) → Member x (xs ++ (x ∷ []))
  Member-append_last x [] = inl refl
  Member-append_last x (y ∷ ys) = inr (Member-append_last x ys)

  Member-update_where :
      (p : A → Bool) (f : A → A) (x : A) (xs : List A)
      → any p xs ≡ true
      → ((r : A) → p r ≡ true → f r ≡ x)
      → Member x (update_where p f xs)
  Member-update_where p f x [] h same = cc
  Member-update_where p f x (y ∷ ys) h same = elim (Bool-cases (p y)) [
    | inl q ↦ rw q (inl (same y q))
    | inr q ↦ rw q (inr (Member-update_where p f x ys (ground arith) same))
  ]

  -- What is upserted is in the table, where a rewritten row with the key is the new row.
  pub Member-upsert :
      (p : A → Bool) (f : A → A) (new : A) (xs : List A)
      → ((r : A) → p r ≡ true → f r ≡ new)
      → Member new (upsert p f new xs)
  unfolding upsert
  Member-upsert p f new xs same = elim (Bool-cases (any p xs)) [
    | inl q ↦ rw q (Member-update_where p f new xs q same)
    | inr q ↦ rw q (Member-append_last new xs)
  ]

pub Member-map :
    {A B : Type 0} (f : A → B) (x : A) (xs : List A) → Member x xs → Member (f x) (map f xs)
Member-map f x [] m = m
Member-map f x (y ∷ ys) (inl e) = inl (ap f e)
Member-map f x (y ∷ ys) (inr m) = inr (Member-map f x ys m)
