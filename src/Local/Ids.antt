-- ===== src/Local/Ids.antt =====
-- SELECT MIN(id), and the ids that the repositories give to rows the server does not know yet.
use hse_project_2026_chronos.Base.{
  suc, ◌≡◌, refl, Bool, true, false, Option, none, some, List, [], ◌∷◌, if◌then◌else◌, arith,
}
use hse_project_2026_chronos.Base.Int.{ℤ, pos, negsuc, eq_ℤ, eq_ℤ_iff, ltb_ℤ}
use hse_project_2026_chronos.Local.Table.{any_row}

smaller : ℤ → Option ℤ → ℤ
smaller i none = i
smaller i (some j) = if ltb_ℤ j i then j else i

module _ {ℓ} {A : Type ℓ} (id_of : A → ℤ) where
  -- `none` is the NULL of an empty table.
  unfoldable pub min_id : List A → Option ℤ
  unfolding smaller
  min_id [] = none
  min_id (x ∷ xs) = some (smaller (id_of x) (min_id xs))

-- `min_id < 0 ? min_id - 1 : -1`, where NULL reads as 0.
unfoldable pub next_local_id : Option ℤ → ℤ
next_local_id (some (negsuc n)) = negsuc (suc n)
next_local_id (some (pos n)) = negsuc 0
next_local_id none = negsuc 0

abbrev under : ℤ → Option ℤ → Bool
under i none = true
under i (some j) = ltb_ℤ i j

under_head : (i j : ℤ) (m : Option ℤ) → ltb_ℤ i (smaller j m) ≡ true → eq_ℤ j i ≡ false
unfolding smaller
under_head i j none h = grind (arith, eq_ℤ_iff j i)
under_head i j (some k) h = grind (arith, eq_ℤ_iff j i)

under_tail : (i j : ℤ) (m : Option ℤ) → ltb_ℤ i (smaller j m) ≡ true → under i m ≡ true
unfolding smaller
under_tail i j none h = refl
under_tail i j (some k) h = ground arith

under-next_local_id : (m : Option ℤ) → under (next_local_id m) m ≡ true
unfolding next_local_id
under-next_local_id none = refl
under-next_local_id (some (pos n)) = ground arith
under-next_local_id (some (negsuc n)) = ground arith

module _ {ℓ} {A : Type ℓ} (id_of : A → ℤ) where
  any_row_of_under :
      (i : ℤ) (xs : List A)
      → under i (min_id id_of xs) ≡ true
      → any_row (λ x. eq_ℤ (id_of x) i) xs ≡ false
  unfolding any_row min_id
  any_row_of_under i [] h = refl
  any_row_of_under i (x ∷ xs) h =
      rw (under_head i (id_of x) (min_id id_of xs) h)
        (any_row_of_under i xs (under_tail i (id_of x) (min_id id_of xs) h))

  -- No row of the table has the next local id.
  pub next_local_id-fresh :
      (xs : List A) → any_row (λ x. eq_ℤ (id_of x) (next_local_id (min_id id_of xs))) xs ≡ false
  next_local_id-fresh xs = any_row_of_under _ xs (under-next_local_id (min_id id_of xs))

pub next_local_id_negative : (m : Option ℤ) → ltb_ℤ (next_local_id m) (pos 0) ≡ true
unfolding next_local_id
next_local_id_negative (some (negsuc n)) = ground arith
next_local_id_negative (some (pos n)) = ground arith
next_local_id_negative none = ground arith
