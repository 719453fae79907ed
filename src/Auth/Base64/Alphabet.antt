-- ===== src/Auth/Base64/Alphabet.antt =====
-- The 64 characters of backend/src/server/auth/jwt.cpp and their url forms, checked one by one.
use hse_project_2026_chronos.Base.{
  ℕ, ◌<◌, ◌≡◌, refl, Bool, true, false, not, ◌&&◌, Option, none, some, ◌==◌, passes_under,
  passes_under_sound, arith,
}
use hse_project_2026_chronos.Auth.Base64.{alphabet_char, lut, sextet, to_url_char, from_url_char}

abbrev pub IsByte : ℕ → Type 0
IsByte b = b < 256

abbrev opt_is : Option ℕ → ℕ → Bool
opt_is none v = false
opt_is (some w) v = w == v

opt_is_sound : (o : Option ℕ) (v : ℕ) → opt_is o v ≡ true → o ≡ some v
opt_is_sound none v h = ground arith
opt_is_sound (some w) v h = ground arith

lut_table : passes_under (λ v. opt_is (lut (alphabet_char v)) v) 64 ≡ true
unfolding passes_under lut alphabet_char
lut_table = refl

pub lut-alphabet_char : (v : ℕ) → v < 64 → lut (alphabet_char v) ≡ some v
lut-alphabet_char v h = opt_is_sound _ v (passes_under_sound _ 64 lut_table v h)

-- No character of the alphabet is padding, and its url form is neither padding nor a dot.
abbrev char_fits : ℕ → Bool
char_fits c =
    not (c == b'=')
    && not (to_url_char c == b'=')
    && not (to_url_char c == b'.')
    && from_url_char (to_url_char c) == c

chars_table : passes_under (λ v. char_fits (alphabet_char v)) 64 ≡ true
unfolding passes_under alphabet_char to_url_char from_url_char
chars_table = refl

pub record CharFits (c : ℕ) : Type 0 where
  pub no_pad : (c == b'=') ≡ false
  pub url_no_pad : (to_url_char c == b'=') ≡ false
  pub url_no_dot : (to_url_char c == b'.') ≡ false
  pub back : from_url_char (to_url_char c) ≡ c

pub alphabet_char-fits : (v : ℕ) → v < 64 → CharFits (alphabet_char v)
alphabet_char-fits v h =
    let t : char_fits (alphabet_char v) ≡ true = passes_under_sound _ 64 chars_table v h in
    ground arith

pub sextet-alphabet_char : (v : ℕ) → v < 64 → sextet (alphabet_char v) ≡ some v
unfolding sextet
sextet-alphabet_char v h = rw ((alphabet_char-fits v h).no_pad, lut-alphabet_char v h)
