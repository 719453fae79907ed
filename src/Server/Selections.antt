-- ===== src/Server/Selections.antt =====
-- What queries give after statements that change other rows, and tables whose ids ascend as their
-- sequence gave them.
use hse_project_2026_chronos.Base.{
  ℕ, suc, ◌≡◌, refl, ap, inl, inr, Bool-cases, ==_iff, ◌≤◌, ◌<◌, Bool, true, false, not, ◌&&◌, ◌||◌,
  some, List, [], ◌∷◌, ◌++◌, leb, ◌==◌, arith,
}
use hse_project_2026_chronos.Local.Table.{
  find_row, any_row, all_rows, select_where, update_where, delete_where,
}

module _ {A : Type 0} (p q : A → Bool) where
  pub select_where_ext :
      ((x : A) → p x ≡ q x) → (xs : List A) → select_where p xs ≡ select_where q xs
  unfolding select_where
  select_where_ext same [] = refl
  select_where_ext same (x ∷ xs) = ground (arith, same x, select_where_ext same xs)

  pub select_where-update_where_other :
      (f : A → A)
      → ((x : A) → p x ≡ true → q x ≡ false → q (f x) ≡ false)
      → (xs : List A) → all_rows (λ x. not (p x) || not (q x)) xs ≡ true
      → select_where q (update_where p f xs) ≡ select_where q xs
  unfolding select_where update_where all_rows
  select_where-update_where_other f out [] h = refl
  select_where-update_where_other f out (x ∷ xs) h =
      ground (arith, out x, select_where-update_where_other f out xs)

  pub select_where-delete_where_other :
      (xs : List A)
      → all_rows (λ x. not (p x) || not (q x)) xs ≡ true
      → select_where q (delete_where p xs) ≡ select_where q xs
  unfolding select_where delete_where all_rows
  select_where-delete_where_other [] h = refl
  select_where-delete_where_other (x ∷ xs) h = ground (arith, select_where-delete_where_other xs)

  pub any_row-update_where_other :
      (f : A → A)
      → ((x : A) → p x ≡ true → q x ≡ false → q (f x) ≡ false)
      → (xs : List A) → all_rows (λ x. not (p x) || not (q x)) xs ≡ true
      → any_row q (update_where p f xs) ≡ any_row q xs
  unfolding any_row update_where all_rows
  any_row-update_where_other f out [] h = refl
  any_row-update_where_other f out (x ∷ xs) h =
      ground (arith, out x, any_row-update_where_other f out xs)

  pub any_row-delete_where_other :
      (xs : List A)
      → all_rows (λ x. not (p x) || not (q x)) xs ≡ true
      → any_row q (delete_where p xs) ≡ any_row q xs
  unfolding any_row select_where delete_where all_rows
  any_row-delete_where_other [] h = refl
  any_row-delete_where_other (x ∷ xs) h = ground (arith, any_row-delete_where_other xs)

  pub any_row-update_where_same :
      (f : A → A)
      → ((x : A) → q (f x) ≡ q x)
      → (xs : List A) → any_row q (update_where p f xs) ≡ any_row q xs
  unfolding any_row update_where
  any_row-update_where_same f same [] = refl
  any_row-update_where_same f same (x ∷ xs) =
      ground (arith, same x, any_row-update_where_same f same xs)

  pub any_row_mono :
      ((x : A) → p x ≡ true → q x ≡ true)
      → (xs : List A) → any_row p xs ≡ true
      → any_row q xs ≡ true
  unfolding any_row
  any_row_mono holds [] h = cc
  any_row_mono holds (x ∷ xs) h = ground (arith, holds x, any_row_mono holds xs)

  -- The rows that are left after a deletion.
  pub all_rows-delete_where :
      (r : A → Bool)
      → ((x : A) → p x ≡ false → q x ≡ true → r x ≡ true)
      → (xs : List A) → all_rows q xs ≡ true
      → all_rows r (delete_where p xs) ≡ true
  unfolding select_where delete_where all_rows
  all_rows-delete_where r left [] h = refl
  all_rows-delete_where r left (x ∷ xs) h = ground (arith, left x, all_rows-delete_where r left xs)

pub select_where-append_other :
    {A : Type 0} (q : A → Bool) (x : A)
    → q x ≡ false
    → (xs : List A) → select_where q (xs ++ x ∷ []) ≡ select_where q xs
unfolding select_where
select_where-append_other q x h [] = ground (arith, h)
select_where-append_other q x h (y ∷ ys) = ground (arith, select_where-append_other q x h ys)

module _ {A : Type 0} (id : A → ℕ) where
  -- Ids that ascend from `low` and stay below `high`.
  unfoldable pub ascending : ℕ → List A → ℕ → Bool
  ascending low [] high = leb low high
  ascending low (x ∷ xs) high = leb low (id x) && ascending (suc (id x)) xs high

  pub ascending-append :
      (low high high' : ℕ) (x : A)
      → high ≤ id x
      → id x < high'
      → (xs : List A) → ascending low xs high ≡ true
      → ascending low (xs ++ x ∷ []) high' ≡ true
  unfolding ascending
  ascending-append low high high' x h k [] a = ground arith
  ascending-append low high high' x h k (y ∷ ys) a =
      ground (arith, ascending-append (suc (id y)) high high' x h k ys)

  pub ascending_mono :
      (low low' high high' : ℕ)
      → low' ≤ low
      → high ≤ high'
      → (xs : List A) → ascending low xs high ≡ true
      → ascending low' xs high' ≡ true
  unfolding ascending
  ascending_mono low low' high high' h k [] a = ground arith
  ascending_mono low low' high high' h k (y ∷ ys) a =
      ground (arith, ascending_mono (suc (id y)) (suc (id y)) high high' (omega arith) k ys)

  pub ascending-select_where :
      (p : A → Bool) (low high : ℕ) (xs : List A)
      → ascending low xs high ≡ true
      → ascending low (select_where p xs) high ≡ true
  unfolding ascending select_where
  ascending-select_where p low high [] a = a
  ascending-select_where p low high (y ∷ ys) a = ground (
    arith,
    ascending-select_where p (suc (id y)) high ys,
    λ (l : low ≤ suc (id y)).
        ascending_mono (suc (id y)) low high high l (omega arith) (select_where p ys),
  )

  pub ascending-update_where :
      (p : A → Bool) (f : A → A)
      → ((x : A) → id (f x) ≡ id x)
      → (low high : ℕ) (xs : List A) → ascending low xs high ≡ true
      → ascending low (update_where p f xs) high ≡ true
  unfolding ascending update_where
  ascending-update_where p f same low high [] a = a
  ascending-update_where p f same low high (y ∷ ys) a =
      ground (arith, same y, ascending-update_where p f same (suc (id y)) high ys)

  pub ascending-head :
      (low high : ℕ) (y : A) (ys : List A)
      → ascending low (y ∷ ys) high ≡ true
      → (low ≤ id y) × (ascending (suc (id y)) ys high ≡ true)
  unfolding ascending
  ascending-head low high y ys a = ground arith

  ascending-bounds : (low high : ℕ) (xs : List A) → ascending low xs high ≡ true → low ≤ high
  unfolding ascending
  ascending-bounds low high [] a = ground arith
  ascending-bounds low high (y ∷ ys) a = ground (arith, ascending-bounds (suc (id y)) high ys)

  pub ascending-fresh :
      (low high i : ℕ)
      → high ≤ i
      → (xs : List A) → ascending low xs high ≡ true
      → any_row (λ x. id x == i) xs ≡ false
  unfolding any_row
  ascending-fresh low high i h [] a = refl
  ascending-fresh low high i h (y ∷ ys) a =
      let (_, rest) = ascending-head low high y ys a in
      ground (
        arith,
        ascending-bounds (suc (id y)) high ys rest,
        ascending-fresh (suc (id y)) high i h ys rest,
      )

  pub ascending-not_below :
      (low high i : ℕ)
      → i < low
      → (q : A → Bool) (xs : List A) → ascending low xs high ≡ true
      → all_rows (λ x. not (id x == i) || q x) xs ≡ true
  unfolding all_rows
  ascending-not_below low high i h q [] a = refl
  ascending-not_below low high i h q (y ∷ ys) a =
      let (above, rest) = ascending-head low high y ys a in
      ground
        (arith, above, ascending-not_below (suc (id y)) high i (omega (arith, above, h)) q ys rest)

  -- Only the row that is found has the id.
  pub ascending_unique :
      (low high i : ℕ) (q : A → Bool) (x : A)
      → q x ≡ true
      → (xs : List A) → ascending low xs high ≡ true
      → find_row (λ x. id x == i) xs ≡ some x
      → all_rows (λ x. not (id x == i) || q x) xs ≡ true
  unfolding all_rows find_row
  ascending_unique low high i q x h [] a found = refl
  ascending_unique low high i q x h (y ∷ ys) a found =
      let (_, rest) = ascending-head low high y ys a in
      elim (Bool-cases (id y == i)) [
        | inl here ↦
            let same = (==_iff (id y) i).0 here in
            let first : some y ≡ some x = rw here at found in
            ground (
              arith,
              h,
              first,
              ap (λ (z : A). q z),
              ascending-not_below (suc (id y)) high i (omega (arith, same)) q ys rest,
            )
        | inr elsewhere ↦ ground (arith, ascending_unique (suc (id y)) high i q x h ys rest)
      ]
