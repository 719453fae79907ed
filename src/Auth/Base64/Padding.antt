-- ===== src/Auth/Base64/Padding.antt =====
-- backend/src/server/auth/jwt.cpp: the loop of base64url_decode that puts the padding back.
use hse_project_2026_chronos.Base.{
  ℕ, zero, suc, ◌≡◌, ◌≤◌, ◌+◌, ◌%◌, ◌-◌, refl, sym, ap, ◌∙◌, List, [], ◌∷◌, ◌++◌, length,
  length-append, arith,
}
use hse_project_2026_chronos.Auth.Base64.{pad_loop}

settled : (fuel : ℕ) (text : List ℕ) → length text % 4 ≡ 0 → pad_loop fuel text ≡ text
unfolding pad_loop
settled zero text h = refl
settled (suc fuel) text h = ground (arith, h)

pads :
    (rounds fuel : ℕ)
    → rounds ≤ fuel
    → (text : List ℕ) → (length text + rounds) % 4 ≡ 0
    → (length (pad_loop fuel text) % 4 ≡ 0) × (pad_loop fuel text ≡ pad_loop rounds text)
unfolding pad_loop
pads zero fuel h text k =
    let same = settled fuel text (omega (arith, k)) in (omega (arith, k, ap length same), same)
pads (suc rounds) zero h text k = absurd (omega (arith, h))
pads (suc rounds) (suc fuel) h text k = ground (
  arith,
  k,
  pads rounds fuel (omega (arith, h)) (text ++ b'=' ∷ []),
  length-append text (b'=' ∷ []),
)

-- The loop of base64url_decode ends after three rounds at most, with a length that is a multiple of
-- four; more rounds change nothing.
pub pad_loop_ends :
    (fuel : ℕ) (text : List ℕ)
    → 3 ≤ fuel
    → (length (pad_loop fuel text) % 4 ≡ 0) × (pad_loop fuel text ≡ pad_loop 3 text)
pad_loop_ends fuel text h =
    let rounds = (4 - length text % 4) % 4 in
    let few : rounds ≤ 3 = omega arith in
    let whole : (length text + rounds) % 4 ≡ 0 = omega arith in
    let (four, same) = pads rounds fuel (omega (arith, few, h)) text whole in
    (four, same ∙ sym (pads rounds 3 few text whole).1)
