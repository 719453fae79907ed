-- ===== src/Local/Table.antt =====
-- A table as the list of its rows: what SELECT, UPDATE and DELETE with a WHERE clause do to it.
use hse_project_2026_chronos.Base.{
  ◌≡◌, refl, Bool, true, false, not, ◌&&◌, ◌||◌, Option, none, some, List, [], ◌∷◌, ◌++◌, map, inl,
  inr, Bool-cases, if◌then◌else◌, All, arith,
}

module _ {ℓ} {A : Type ℓ} where
  -- The first row that a query gives.
  unfoldable pub find_row : (A → Bool) → List A → Option A
  find_row p [] = none
  find_row p (x ∷ xs) = if p x then some x else find_row p xs

  unfoldable pub any_row : (A → Bool) → List A → Bool
  any_row p [] = false
  any_row p (x ∷ xs) = p x || any_row p xs

  unfoldable pub all_rows : (A → Bool) → List A → Bool
  all_rows p [] = true
  all_rows p (x ∷ xs) = p x && all_rows p xs

  unfoldable pub select_where : (A → Bool) → List A → List A
  select_where p [] = []
  select_where p (x ∷ xs) = if p x then x ∷ select_where p xs else select_where p xs

  unfoldable pub update_where : (A → Bool) → (A → A) → List A → List A
  update_where p f [] = []
  update_where p f (x ∷ xs) = (if p x then f x else x) ∷ update_where p f xs

  unfoldable pub delete_where : (A → Bool) → List A → List A
  delete_where p xs = select_where (λ x. not (p x)) xs

module _ {ℓ} {A : Type ℓ} (p : A → Bool) where
  pub find_row-holds : (xs : List A) (x : A) → find_row p xs ≡ some x → p x ≡ true
  unfolding find_row
  find_row-holds [] x h = cc
  find_row-holds (y ∷ ys) x h = ground (arith, find_row-holds ys x)

  pub find_row-eq-none : (xs : List A) → any_row p xs ≡ false → find_row p xs ≡ none
  unfolding find_row any_row
  find_row-eq-none [] h = refl
  find_row-eq-none (x ∷ xs) h = ground (arith, find_row-eq-none xs)

  pub any_row-of_find : (xs : List A) (x : A) → find_row p xs ≡ some x → any_row p xs ≡ true
  unfolding find_row any_row
  any_row-of_find [] x h = cc
  any_row-of_find (y ∷ ys) x h = ground (arith, any_row-of_find ys x)

  -- An update that keeps the rows of the query in place changes the row that it finds.
  pub find_row-update_where :
      (f : A → A) (xs : List A) (x : A)
      → find_row p xs ≡ some x
      → p (f x) ≡ true
      → find_row p (update_where p f xs) ≡ some (f x)
  unfolding find_row update_where
  find_row-update_where f [] x h k = cc
  find_row-update_where f (y ∷ ys) x h k = ground (arith, find_row-update_where f ys x)

  pub find_row-append :
      (xs : List A) (x : A) → find_row p xs ≡ none → p x ≡ true → find_row p (xs ++ x ∷ []) ≡ some x
  unfolding find_row
  find_row-append [] x h k = rw k
  find_row-append (y ∷ ys) x h k = ground (arith, find_row-append ys x)

  pub any_row-delete_where : (xs : List A) → any_row p (delete_where p xs) ≡ false
  unfolding any_row delete_where select_where
  any_row-delete_where [] = refl
  any_row-delete_where (x ∷ xs) = ground (arith, any_row-delete_where xs)

  pub select_where-holds : (xs : List A) → All (λ x. p x ≡ true) (select_where p xs)
  unfolding select_where
  select_where-holds [] = tt
  select_where-holds (x ∷ xs) = ground (arith, select_where-holds xs)

module _ {ℓ} {A : Type ℓ} where
  pub all_rows-eq-false :
      (p q : A → Bool)
      → ((x : A) → p x ≡ true → q x ≡ false)
      → (xs : List A) → any_row p xs ≡ true
      → all_rows q xs ≡ false
  unfolding any_row all_rows
  all_rows-eq-false p q fails [] h = cc
  all_rows-eq-false p q fails (x ∷ xs) h = elim (Bool-cases (p x)) [
    | inl here ↦ rw (fails x here)
    | inr there ↦ ground (arith, all_rows-eq-false p q fails xs)
  ]

  -- A test that every row passes passes with any other test.
  pub all_rows_mono :
      (q r : A → Bool)
      → ((x : A) → q x ≡ true → r x ≡ true)
      → (xs : List A) → all_rows q xs ≡ true
      → all_rows r xs ≡ true
  unfolding all_rows
  all_rows_mono q r holds [] h = refl
  all_rows_mono q r holds (x ∷ xs) h = ground (arith, holds x, all_rows_mono q r holds xs)

  -- After an update that takes rows out of the query, no row is left in it.
  pub any_row-update_where_gone :
      (p : A → Bool) (f : A → A)
      → ((x : A) → p (f x) ≡ false)
      → (xs : List A) → any_row p (update_where p f xs) ≡ false
  unfolding any_row update_where
  any_row-update_where_gone p f gone [] = refl
  any_row-update_where_gone p f gone (x ∷ xs) =
      ground (arith, gone x, any_row-update_where_gone p f gone xs)

  -- The rows that an update moves from one query to another that was empty.
  pub select_where-update_where :
      (p q : A → Bool) (f : A → A)
      → ((x : A) → q (f x) ≡ true)
      → (xs : List A) → any_row q xs ≡ false
      → select_where q (update_where p f xs) ≡ map f (select_where p xs)
  unfolding any_row update_where select_where
  select_where-update_where p q f moved [] h = refl
  select_where-update_where p q f moved (x ∷ xs) h =
      ground (arith, moved x, select_where-update_where p q f moved xs)

  -- Rows outside of the query stay.
  pub find_row-update_where_other :
      (p q : A → Bool) (f : A → A)
      → ((x : A) → p x ≡ true → (q x ≡ false) × (q (f x) ≡ false))
      → (xs : List A) → find_row q (update_where p f xs) ≡ find_row q xs
  unfolding find_row update_where
  find_row-update_where_other p q f apart [] = refl
  find_row-update_where_other p q f apart (x ∷ xs) =
      ground (arith, apart x, find_row-update_where_other p q f apart xs)

  pub find_row-append_other :
      (q : A → Bool) (x : A)
      → q x ≡ false
      → (xs : List A) → find_row q (xs ++ x ∷ []) ≡ find_row q xs
  unfolding find_row
  find_row-append_other q x h [] = rw h
  find_row-append_other q x h (y ∷ ys) = ground (arith, find_row-append_other q x h ys)

  -- The row that an update moves into a query that was empty.
  pub find_row-update_where_moved :
      (p q : A → Bool) (f : A → A)
      → ((x : A) → q (f x) ≡ true)
      → (xs : List A) (x : A) → find_row p xs ≡ some x
      → any_row q xs ≡ false
      → find_row q (update_where p f xs) ≡ some (f x)
  unfolding any_row find_row update_where
  find_row-update_where_moved p q f moved [] x h k = cc
  find_row-update_where_moved p q f moved (y ∷ ys) x h k =
      ground (arith, moved y, find_row-update_where_moved p q f moved ys x)

  pub any_row-of_none : (p : A → Bool) (xs : List A) → find_row p xs ≡ none → any_row p xs ≡ false
  unfolding any_row find_row
  any_row-of_none p [] h = refl
  any_row-of_none p (x ∷ xs) h = ground (arith, any_row-of_none p xs)

  pub all_rows-of_all :
      (q : A → Bool) → ((x : A) → q x ≡ true) → (xs : List A) → all_rows q xs ≡ true
  unfolding all_rows
  all_rows-of_all q holds [] = refl
  all_rows-of_all q holds (x ∷ xs) = ground (arith, holds x, all_rows-of_all q holds xs)

  pub any_row-append :
      (q : A → Bool) (xs ys : List A) → any_row q (xs ++ ys) ≡ (any_row q xs || any_row q ys)
  unfolding any_row
  any_row-append q [] ys = refl
  any_row-append q (x ∷ xs) ys = ground (arith, any_row-append q xs ys)

  pub all_rows-update_where :
      (q p : A → Bool) (f : A → A)
      → ((x : A) → q x ≡ true → q (f x) ≡ true)
      → (xs : List A) → all_rows q xs ≡ true
      → all_rows q (update_where p f xs) ≡ true
  unfolding all_rows update_where
  all_rows-update_where q p f keeps [] h = refl
  all_rows-update_where q p f keeps (x ∷ xs) h =
      ground (arith, keeps x, all_rows-update_where q p f keeps xs)

  pub all_rows-append :
      (q : A → Bool) (xs ys : List A) → all_rows q (xs ++ ys) ≡ (all_rows q xs && all_rows q ys)
  unfolding all_rows
  all_rows-append q [] ys = refl
  all_rows-append q (x ∷ xs) ys = ground (arith, all_rows-append q xs ys)

  pub all_rows-select_where :
      (q p : A → Bool) (xs : List A) → all_rows q xs ≡ true → all_rows q (select_where p xs) ≡ true
  unfolding all_rows select_where
  all_rows-select_where q p [] h = refl
  all_rows-select_where q p (x ∷ xs) h = ground (arith, all_rows-select_where q p xs)

  -- A statement checks the rows that it writes.
  pub all_rows-checked_update :
      (q p : A → Bool) (f g : A → A)
      → ((x : A) → q (g x) ≡ q (f x))
      → (xs : List A) → all_rows q xs ≡ true
      → all_rows (λ x. not (p x) || q (f x)) xs ≡ true
      → all_rows q (update_where p g xs) ≡ true
  unfolding all_rows update_where
  all_rows-checked_update q p f g same [] h k = refl
  all_rows-checked_update q p f g same (x ∷ xs) h k =
      ground (arith, same x, h, k, all_rows-checked_update q p f g same xs)
