-- ===== src/Auth/Base64/RoundTrip.antt =====
-- Decoding what was encoded, for the base64 of backend/src/server/auth/jwt.cpp.
use hse_project_2026_chronos.Base.{
  ℕ, ◌+◌, ◌*◌, ◌/◌, ◌%◌, ◌<◌, ◌≡◌, refl, ◌∙◌, true, false, some, List, [], ◌∷◌, ◌++◌, is_empty,
  length, All, arith,
}
use hse_project_2026_chronos.Auth.Base64.{
  alphabet_char, base64_encode, sextet, group_bytes, decode_groups, base64_decode,
}
use hse_project_2026_chronos.Auth.Base64.Alphabet.{
  IsByte, lut-alphabet_char, sextet-alphabet_char, alphabet_char-fits,
}

module _ (v0 v1 : ℕ) (h0 : v0 < 64) (h1 : v1 < 64) where
  decode_full :
      (v2 v3 : ℕ) (rest out : List ℕ)
      → v2 < 64
      → v3 < 64
      → decode_groups rest ≡ some out
      → decode_groups
          (alphabet_char v0 ∷ alphabet_char v1 ∷ alphabet_char v2 ∷ alphabet_char v3 ∷ rest)
        ≡ some (group_bytes (v0 * 262144 + v1 * 4096 + v2 * 64 + v3) false false ++ out)
  unfolding decode_groups
  decode_full v2 v3 rest out h2 h3 e = rw (
    lut-alphabet_char v0 h0,
    lut-alphabet_char v1 h1,
    sextet-alphabet_char v2 h2,
    sextet-alphabet_char v3 h3,
    e,
    (alphabet_char-fits v2 h2).no_pad,
    (alphabet_char-fits v3 h3).no_pad,
  )

  decode_two :
      (v2 : ℕ)
      → v2 < 64
      → decode_groups (alphabet_char v0 ∷ alphabet_char v1 ∷ alphabet_char v2 ∷ b'=' ∷ [])
        ≡ some (group_bytes (v0 * 262144 + v1 * 4096 + v2 * 64 + 0) false true ++ [])
  unfolding decode_groups sextet
  decode_two v2 h2 = rw (
    lut-alphabet_char v0 h0,
    lut-alphabet_char v1 h1,
    (alphabet_char-fits v2 h2).no_pad,
    lut-alphabet_char v2 h2,
  )

  decode_one :
      decode_groups (alphabet_char v0 ∷ alphabet_char v1 ∷ b'=' ∷ b'=' ∷ [])
      ≡ some (group_bytes (v0 * 262144 + v1 * 4096 + 0 * 64 + 0) true true ++ [])
  unfolding decode_groups sextet
  decode_one = rw (lut-alphabet_char v0 h0, lut-alphabet_char v1 h1)

abbrev sextets : ℕ → ℕ
sextets value =
    (value / 262144 % 64) * 262144
    + (value / 4096 % 64) * 4096
    + (value / 64 % 64) * 64
    + value % 64

sextets_lem : (value : ℕ) → value < 16777216 → sextets value ≡ value
sextets_lem value h = omega arith

decode_groups-encode :
    (bytes : List ℕ) → All IsByte bytes → decode_groups (base64_encode bytes) ≡ some bytes
unfolding base64_encode decode_groups group_bytes
decode_groups-encode (b0 ∷ b1 ∷ b2 ∷ rest) (h0, (h1, (h2, h))) =
    let value = b0 * 65536 + b1 * 256 + b2 in
    let e : sextets value ≡ value = sextets_lem value (omega arith) in
    let e0 : sextets value / 65536 % 256 ≡ b0 = omega arith in
    let e1 : sextets value / 256 % 256 ≡ b1 = omega arith in
    let e2 : sextets value % 256 ≡ b2 = omega arith in
    decode_full _ _ (omega arith) (omega arith) _ _ _ rest (omega arith) (omega arith)
      (decode_groups-encode rest h)
    ∙ cc
decode_groups-encode (b0 ∷ b1 ∷ []) (h0, (h1, _)) =
    let value = b0 * 65536 + b1 * 256 in
    let e0 : (value / 262144 % 64 * 262144 + value / 4096 % 64 * 4096 + value / 64 % 64 * 64 + 0)
          / 65536
          % 256
        ≡ b0 =
      omega arith in
    let e1 : (value / 262144 % 64 * 262144 + value / 4096 % 64 * 4096 + value / 64 % 64 * 64 + 0)
          / 256
          % 256
        ≡ b1 =
      omega arith in
    decode_two _ _ (omega arith) (omega arith) _ (omega arith) ∙ cc
decode_groups-encode (b0 ∷ []) (h0, _) =
    let value = b0 * 65536 in
    let e0 : (value / 262144 % 64 * 262144 + value / 4096 % 64 * 4096 + 0 * 64 + 0) / 65536 % 256
        ≡ b0 =
      omega arith in
    decode_one _ _ (omega arith) (omega arith) ∙ cc
decode_groups-encode [] h = refl

pub length-base64_encode : (bytes : List ℕ) → length (base64_encode bytes) % 4 ≡ 0
unfolding base64_encode
length-base64_encode (b0 ∷ b1 ∷ b2 ∷ rest) = omega (arith, length-base64_encode rest)
length-base64_encode (b0 ∷ b1 ∷ []) = refl
length-base64_encode (b0 ∷ []) = refl
length-base64_encode [] = refl

is_empty-base64_encode : (bytes : List ℕ) → is_empty (base64_encode bytes) ≡ is_empty bytes
unfolding base64_encode
is_empty-base64_encode (b0 ∷ b1 ∷ b2 ∷ rest) = refl
is_empty-base64_encode (b0 ∷ b1 ∷ []) = refl
is_empty-base64_encode (b0 ∷ []) = refl
is_empty-base64_encode [] = refl

-- Decoding the base64 text of a non-empty string of bytes gives the string back.
pub base64_decode-encode :
    (bytes : List ℕ)
    → All IsByte bytes
    → is_empty bytes ≡ false
    → base64_decode (base64_encode bytes) ≡ some bytes
unfolding base64_decode
base64_decode-encode bytes h e =
    rw (is_empty-base64_encode bytes, e, length-base64_encode bytes) (decode_groups-encode bytes h)
