-- ===== src/Table.antt =====
-- The statements that the repositories send to PostgreSQL, over a table as a list of rows: UPDATE
-- with a WHERE clause, the number of affected rows, SELECT, and the row that QueryRow scans.
use flowx.Prelude.{
  ◌≤◌, ◌≡◌, refl, Bool, true, false, Option, none, some, List, [], ◌∷◌, arith, Bool-cases, inl, inr,
  count, All, if◌then◌else◌,
}

module _ {A : Type 0} where
  -- UPDATE … SET f WHERE p
  unfoldable pub update_where : (A → Bool) → (A → A) → List A → List A
  update_where p f [] = []
  update_where p f (r ∷ rs) = (if p r then f r else r) ∷ update_where p f rs

  -- SELECT … WHERE p
  unfoldable pub select_where : (A → Bool) → List A → List A
  select_where p [] = []
  select_where p (r ∷ rs) = let rest = select_where p rs in if p r then r ∷ rest else rest

  -- QueryRow: the first row that the query gives, `none` for ErrNoRows
  unfoldable pub query_row : (A → Bool) → List A → Option A
  query_row p [] = none
  query_row p (r ∷ rs) = let rest = query_row p rs in if p r then some r else rest

  -- An UPDATE that breaks its own WHERE clause leaves nothing to update.
  pub count-update_where :
      (p : A → Bool) (f : A → A) (rs : List A)
      → ((r : A) → p r ≡ true → p (f r) ≡ false)
      → count p (update_where p f rs) ≡ 0
  unfolding update_where
  count-update_where p f [] h = refl
  count-update_where p f (r ∷ rs) h = ground (arith, h r, count-update_where p f rs h)

  -- An UPDATE with no affected row changes nothing.
  pub update_where_none :
      (p : A → Bool) (f : A → A) (rs : List A) → count p rs ≡ 0 → update_where p f rs ≡ rs
  unfolding update_where
  update_where_none p f [] h = refl
  update_where_none p f (r ∷ rs) h = ground (arith, update_where_none p f rs)

  -- A predicate on rows that the SET keeps, on the rows that the WHERE picks, is kept.
  pub All-update_where {κ} :
      (P : A → Type κ) (p : A → Bool) (f : A → A) (rs : List A)
      → ((r : A) → p r ≡ true → P r → P (f r))
      → All P rs
      → All P (update_where p f rs)
  unfolding update_where
  All-update_where P p f [] keep h = tt
  All-update_where P p f (r ∷ rs) keep h = elim (Bool-cases (p r)) [
    | inl yes_p ↦ rw yes_p (keep r yes_p h.0, All-update_where P p f rs keep h.1)
    | inr no_p ↦ rw no_p (h.0, All-update_where P p f rs keep h.1)
  ]

  -- A test that no row passes passes on no row after an UPDATE that keeps it failing.
  pub count-update_where_zero :
      (q p : A → Bool) (f : A → A) (rs : List A)
      → ((r : A) → p r ≡ true → q r ≡ false → q (f r) ≡ false)
      → count q rs ≡ 0
      → count q (update_where p f rs) ≡ 0
  unfolding update_where
  count-update_where_zero q p f [] keep h = refl
  count-update_where_zero q p f (r ∷ rs) keep h =
      ground (arith, keep r, count-update_where_zero q p f rs keep)

  -- A test that only picked rows pass, and no longer after the SET, passes on no row.
  pub count-update_where_out :
      (q p : A → Bool) (f : A → A) (rs : List A)
      → ((r : A) → p r ≡ false → q r ≡ false)
      → ((r : A) → p r ≡ true → q (f r) ≡ false)
      → count q (update_where p f rs) ≡ 0
  unfolding update_where
  count-update_where_out q p f [] out set = refl
  count-update_where_out q p f (r ∷ rs) out set =
      ground (arith, out r, set r, count-update_where_out q p f rs out set)

  -- An UPDATE that keeps a test passing loses no row that passes it.
  pub count-update_where-le :
      (q p : A → Bool) (f : A → A) (rs : List A)
      → ((r : A) → p r ≡ true → q r ≡ true → q (f r) ≡ true)
      → count q rs ≤ count q (update_where p f rs)
  unfolding update_where
  count-update_where-le q p f [] keep = omega arith
  count-update_where-le q p f (r ∷ rs) keep =
      ground (arith, keep r, count-update_where-le q p f rs keep)

  -- A selected row passes the test.
  pub All-select_where : (p : A → Bool) (rs : List A) → All (λ r. p r ≡ true) (select_where p rs)
  unfolding select_where
  All-select_where p [] = tt
  All-select_where p (r ∷ rs) = elim (Bool-cases (p r)) [
    | inl e ↦ rw e (e, All-select_where p rs)
    | inr e ↦ rw e (All-select_where p rs)
  ]

  pub query_row-holds : (p : A → Bool) (rs : List A) (r : A) → query_row p rs ≡ some r → p r ≡ true
  unfolding query_row
  query_row-holds p [] r h = cc
  query_row-holds p (x ∷ rs) r h = elim (Bool-cases (p x)) [
    | inl e ↦ ground (arith, e)
    | inr e ↦ query_row-holds p rs r (rw e at h)
  ]

  -- A row that a query finds is counted by every test that it passes.
  pub query_row-count :
      (p q : A → Bool) (rs : List A) (r : A) → query_row p rs ≡ some r → q r ≡ true → 1 ≤ count q rs
  unfolding query_row
  query_row-count p q [] r h k = cc
  query_row-count p q (x ∷ rs) r h k = ground (arith, query_row-count p q rs r)
