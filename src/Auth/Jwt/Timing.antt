-- ===== src/Auth/Jwt/Timing.antt =====
-- The comparison of signatures in backend/src/server/auth/jwt.cpp.
use Prim.Native.Nat.{max, digits, differ, bit_or, bit_xor, bit_or-bitwise, bit_xor-bitwise}
use hse_project_2026_chronos.Base.{
  ℕ, zero, suc, ◌/◌, ◌%◌, ◌≤◌, ◌≡◌, ◌↔◌, refl, ap, sym, ◌∙◌, true, List, [], ◌∷◌, length, arith,
}
use hse_project_2026_chronos.Auth.Jwt.{fold_diff, timing_safe_equal}

max-digits_zero : (n a b : ℕ) → a ≤ n → digits (λ y. y) max n a b ≡ 0 → (a ≡ 0) × (b ≡ 0)
max-digits_zero zero zero b h e = (refl, e)
max-digits_zero (suc n) zero b h e = (refl, e)
max-digits_zero zero (suc a) b h e = absurd (omega arith)
max-digits_zero (suc n) (suc a) b h e =
    let ih = max-digits_zero n (suc a / 2) (b / 2) (omega arith) (omega arith) in
    (omega (arith, ih.0), omega (arith, ih.1))

differ-zero : (x y : ℕ) → differ x y ≡ 0 → x ≡ y
differ-zero zero y h = sym h
differ-zero (suc x) zero h = h
differ-zero (suc x) (suc y) h = ap suc (differ-zero x y h)

differ_self : (x : ℕ) → differ x x ≡ 0
differ_self zero = refl
differ_self (suc x) = differ_self x

differ-digits_zero : (n a b : ℕ) → a ≤ n → digits (λ y. y) differ n a b ≡ 0 → a ≡ b
differ-digits_zero zero zero b h e = sym e
differ-digits_zero (suc n) zero b h e = sym e
differ-digits_zero zero (suc a) b h e = absurd (omega arith)
differ-digits_zero (suc n) (suc a) b h e =
    let low : suc a % 2 ≡ b % 2 = differ-zero (suc a % 2) (b % 2) (omega arith) in
    let high : suc a / 2 ≡ b / 2 =
      differ-digits_zero n (suc a / 2) (b / 2) (omega arith) (omega arith) in
    omega arith

differ-digits_self : (n a : ℕ) → a ≤ n → digits (λ y. y) differ n a a ≡ 0
differ-digits_self zero zero h = refl
differ-digits_self (suc n) zero h = refl
differ-digits_self zero (suc a) h = absurd (omega arith)
differ-digits_self (suc n) (suc a) h =
    omega (arith, differ-digits_self n (suc a / 2) (omega arith), differ_self (suc a % 2))

bit_or-eq-zero : (a b : ℕ) → bit_or a b ≡ 0 → (a ≡ 0) × (b ≡ 0)
bit_or-eq-zero a b e = max-digits_zero a a b (omega arith) (sym (bit_or-bitwise a b) ∙ e)

bit_xor-eq-zero : (a b : ℕ) → bit_xor a b ≡ 0 → a ≡ b
bit_xor-eq-zero a b e = differ-digits_zero a a b (omega arith) (sym (bit_xor-bitwise a b) ∙ e)

bit_xor_self : (a : ℕ) → bit_xor a a ≡ 0
bit_xor_self a = bit_xor-bitwise a a ∙ differ-digits_self a a (omega arith)

fold_diff-eq-zero :
    (diff : ℕ) (xs ys : List ℕ)
    → length xs ≡ length ys
    → fold_diff diff xs ys ≡ 0
    → (diff ≡ 0) × (xs ≡ ys)
unfolding fold_diff
fold_diff-eq-zero diff [] [] h e = (e, refl)
fold_diff-eq-zero diff [] (y ∷ ys) h e = absurd (omega arith)
fold_diff-eq-zero diff (x ∷ xs) [] h e = absurd (omega arith)
fold_diff-eq-zero diff (x ∷ xs) (y ∷ ys) h e =
    let (both, rest) = fold_diff-eq-zero (bit_or diff (bit_xor x y)) xs ys (omega arith) e in
    let (zero_diff, same) = bit_or-eq-zero diff (bit_xor x y) both in
    let head : x ≡ y = bit_xor-eq-zero x y same in (zero_diff, cc)

fold_diff_self : (xs : List ℕ) → fold_diff 0 xs xs ≡ 0
unfolding fold_diff
fold_diff_self [] = refl
fold_diff_self (x ∷ xs) = rw (bit_xor_self x) (fold_diff_self xs)

-- The comparison that does not stop at the first difference is equality of the two texts.
pub timing_safe_equal_iff : (lhs rhs : List ℕ) → (timing_safe_equal lhs rhs ≡ true) ↔ (lhs ≡ rhs)
unfolding timing_safe_equal fold_diff
timing_safe_equal_iff lhs rhs = (sound, λ e. rw (← e) (ground (arith, fold_diff_self lhs)))
  where
    sound : timing_safe_equal lhs rhs ≡ true → lhs ≡ rhs
    sound t =
        let same : length lhs ≡ length rhs = ground arith in
        (fold_diff-eq-zero 0 lhs rhs same (ground arith)).1
