-- ===== src/Auth/Base64/Url.antt =====
-- base64url of backend/src/server/auth/jwt.cpp: stripping the padding and putting it back.
use hse_project_2026_chronos.Base.{
  ℕ, zero, suc, ◌+◌, ◌*◌, ◌/◌, ◌%◌, ◌<◌, ◌≡◌, refl, ap, ◌∙◌, true, false, some, List, [], ◌∷◌, ◌++◌,
  map, ◌==◌, ◌&&◌, if◌then◌else◌, is_empty, All, arith,
}
use hse_project_2026_chronos.Auth.Base64.{
  alphabet_char, base64_encode, base64_decode, to_url_char, from_url_char, strip_padding,
  base64url_encode, pad_loop, base64url_decode,
}
use hse_project_2026_chronos.Auth.Base64.Alphabet.{IsByte, alphabet_char-fits}
use hse_project_2026_chronos.Auth.Base64.RoundTrip.{base64_decode-encode}

-- The characters of an encoded text: what the url form needs of them.
url_pad : List ℕ → List ℕ
url_pad input = pad_loop 3 (map from_url_char input)

pad_loop-cons4 :
    (fuel : ℕ) (a b c d : ℕ) (xs : List ℕ)
    → pad_loop fuel (a ∷ b ∷ c ∷ d ∷ xs) ≡ a ∷ b ∷ c ∷ d ∷ pad_loop fuel xs
unfolding pad_loop
pad_loop-cons4 zero a b c d xs = refl
pad_loop-cons4 (suc fuel) a b c d xs = ground (arith, pad_loop-cons4 fuel a b c d (xs ++ b'=' ∷ []))

strip_padding-cons :
    (c : ℕ) (cs : List ℕ) → (c == b'=') ≡ false → strip_padding (c ∷ cs) ≡ c ∷ strip_padding cs
unfolding strip_padding
strip_padding-cons c cs h = ground arith

abbrev url_char : ℕ → ℕ
url_char v = to_url_char (alphabet_char v)

strip_padding-url_char :
    (v : ℕ) (cs : List ℕ) → v < 64 → strip_padding (url_char v ∷ cs) ≡ url_char v ∷ strip_padding cs
strip_padding-url_char v cs h = strip_padding-cons _ cs (alphabet_char-fits v h).url_no_pad

from_url_char-url_char : (v : ℕ) → v < 64 → from_url_char (url_char v) ≡ alphabet_char v
from_url_char-url_char v h = (alphabet_char-fits v h).back

module _ (v0 v1 : ℕ) (h0 : v0 < 64) (h1 : v1 < 64) where
  url_pad_full :
      (v2 v3 : ℕ) (rest : List ℕ)
      → v2 < 64
      → v3 < 64
      → url_pad (strip_padding (url_char v0 ∷ url_char v1 ∷ url_char v2 ∷ url_char v3 ∷ rest))
        ≡ alphabet_char v0
          ∷ alphabet_char v1
          ∷ alphabet_char v2
          ∷ alphabet_char v3
          ∷ url_pad (strip_padding rest)
  unfolding url_pad
  url_pad_full v2 v3 rest h2 h3 = rw (
    strip_padding-url_char v0 _ h0,
    strip_padding-url_char v1 _ h1,
    strip_padding-url_char v2 _ h2,
    strip_padding-url_char v3 _ h3,
    pad_loop-cons4,
    from_url_char-url_char v0 h0,
    from_url_char-url_char v1 h1,
    from_url_char-url_char v2 h2,
    from_url_char-url_char v3 h3,
  )

  strip_two :
      (v2 : ℕ)
      → v2 < 64
      → url_pad (strip_padding (url_char v0 ∷ url_char v1 ∷ url_char v2 ∷ b'=' ∷ []))
        ≡ alphabet_char v0 ∷ alphabet_char v1 ∷ alphabet_char v2 ∷ b'=' ∷ []
  unfolding url_pad strip_padding pad_loop
  strip_two v2 h2 = rw (
    (alphabet_char-fits v2 h2).url_no_pad,
    from_url_char-url_char v0 h0,
    from_url_char-url_char v1 h1,
    from_url_char-url_char v2 h2,
  )

  strip_one :
      url_pad (strip_padding (url_char v0 ∷ url_char v1 ∷ b'=' ∷ b'=' ∷ []))
      ≡ alphabet_char v0 ∷ alphabet_char v1 ∷ b'=' ∷ b'=' ∷ []
  unfolding url_pad strip_padding pad_loop
  strip_one = rw (
    (alphabet_char-fits v1 h1).url_no_pad,
    from_url_char-url_char v0 h0,
    from_url_char-url_char v1 h1,
  )

url_pad-strip_nil : url_pad (strip_padding []) ≡ []
unfolding url_pad strip_padding pad_loop
url_pad-strip_nil = refl

-- Padding what was stripped restores the base64 text.
url_pad-strip_padding :
    (bytes : List ℕ)
    → url_pad (strip_padding (map to_url_char (base64_encode bytes))) ≡ base64_encode bytes
unfolding base64_encode to_url_char
url_pad-strip_padding (b0 ∷ b1 ∷ b2 ∷ rest) =
    url_pad_full _ _ (omega arith) (omega arith) _ _ _ (omega arith) (omega arith)
    ∙ rw (url_pad-strip_padding rest)
url_pad-strip_padding (b0 ∷ b1 ∷ []) = strip_two _ _ (omega arith) (omega arith) _ (omega arith)
url_pad-strip_padding (b0 ∷ []) = strip_one _ _ (omega arith) (omega arith)
url_pad-strip_padding [] = url_pad-strip_nil

-- base64url decoding inverts base64url encoding on every non-empty string of bytes.
pub base64url_decode-encode :
    (bytes : List ℕ)
    → All IsByte bytes
    → is_empty bytes ≡ false
    → base64url_decode (base64url_encode bytes) ≡ some bytes
unfolding base64url_decode base64url_encode url_pad
base64url_decode-encode bytes h e =
    ap base64_decode (url_pad-strip_padding bytes) ∙ base64_decode-encode bytes h e

abbrev pub NoDot : ℕ → Type 0
NoDot c = (c == b'.') ≡ false

url_char-NoDot : (v : ℕ) → v < 64 → NoDot (url_char v)
url_char-NoDot v h = (alphabet_char-fits v h).url_no_dot

base64_encode-NoDot : (bytes : List ℕ) → All NoDot (map to_url_char (base64_encode bytes))
unfolding base64_encode to_url_char
base64_encode-NoDot (b0 ∷ b1 ∷ b2 ∷ rest) = (
  url_char-NoDot _ (omega arith),
  (
    url_char-NoDot _ (omega arith),
    (url_char-NoDot _ (omega arith), (url_char-NoDot _ (omega arith), base64_encode-NoDot rest)),
  ),
)
base64_encode-NoDot (b0 ∷ b1 ∷ []) = (
  url_char-NoDot _ (omega arith),
  (url_char-NoDot _ (omega arith), (url_char-NoDot _ (omega arith), (refl, tt))),
)
base64_encode-NoDot (b0 ∷ []) =
    (url_char-NoDot _ (omega arith), (url_char-NoDot _ (omega arith), (refl, (refl, tt))))
base64_encode-NoDot [] = tt

strip_padding-All {ℓ} : (P : ℕ → Type ℓ) (cs : List ℕ) → All P cs → All P (strip_padding cs)
unfolding strip_padding
strip_padding-All P [] h = tt
strip_padding-All P (c ∷ cs) h =
    elim (is_empty (strip_padding cs) && (c == b'='))
      as (λ b. All P (if b then [] else (c ∷ strip_padding cs))) [
        | true ↦ tt
        | false ↦ (h.0, strip_padding-All P cs h.1)
      ]

-- No dot stands in a base64url text.
pub base64url_encode-NoDot : (bytes : List ℕ) → All NoDot (base64url_encode bytes)
unfolding base64url_encode
base64url_encode-NoDot bytes = strip_padding-All NoDot _ (base64_encode-NoDot bytes)

strip_padding-filled :
    (cs : List ℕ) (v : ℕ) (rest : List ℕ)
    → v < 64
    → cs ≡ url_char v ∷ rest
    → is_empty (strip_padding cs) ≡ false
strip_padding-filled cs v rest h e = rw (e, strip_padding-url_char v rest h)

strip_padding-base64_encode-filled :
    (bytes : List ℕ)
    → is_empty bytes ≡ false
    → is_empty (strip_padding (map to_url_char (base64_encode bytes))) ≡ false
unfolding base64_encode
strip_padding-base64_encode-filled (b0 ∷ b1 ∷ b2 ∷ rest) h =
    strip_padding-filled _ ((b0 * 65536 + b1 * 256 + b2) / 262144 % 64) _ (omega arith) refl
strip_padding-base64_encode-filled (b0 ∷ b1 ∷ []) h =
    strip_padding-filled _ ((b0 * 65536 + b1 * 256) / 262144 % 64) _ (omega arith) refl
strip_padding-base64_encode-filled (b0 ∷ []) h =
    strip_padding-filled _ (b0 * 65536 / 262144 % 64) _ (omega arith) refl
strip_padding-base64_encode-filled [] h = cc

-- The url text of a non-empty string is not empty.
pub base64url_encode-filled :
    (bytes : List ℕ) → is_empty bytes ≡ false → is_empty (base64url_encode bytes) ≡ false
unfolding base64url_encode
base64url_encode-filled bytes h = strip_padding-base64_encode-filled bytes h
