-- ===== src/Auth/Base64.antt =====
-- backend/src/server/auth/jwt.cpp: base64 and base64url over bytes, which are numbers below 256.
-- `value` joins disjoint bit fields, so `<<` and `|` are products and sums, and the masked shifts
-- are quotients and remainders.
pub mod Padding
pub mod Alphabet
pub mod RoundTrip
pub mod Url
mod Tests
use hse_project_2026_chronos.Base.{
  ℕ, zero, suc, ◌+◌, ◌*◌, ◌/◌, ◌%◌, Bool, not, ◌&&◌, ◌||◌, Option, none, some, List, [], ◌∷◌, ◌++◌,
  map, ◌==◌, if◌then◌else◌, codes, is_empty, get_or, length,
}

abbrev pub base64_alphabet : List ℕ
base64_alphabet = codes "ABCDEFGHIJKLMNOPQRSTUVWXYZabcdefghijklmnopqrstuvwxyz0123456789+/"

pub alphabet_char : ℕ → ℕ
alphabet_char i = get_or base64_alphabet i 0

-- The loop of `base64_encode`, three bytes a round, and its two remainders.
pub base64_encode : List ℕ → List ℕ
base64_encode (b0 ∷ b1 ∷ b2 ∷ rest) =
    let value = b0 * 65536 + b1 * 256 + b2 in
    alphabet_char (value / 262144 % 64)
    ∷ alphabet_char (value / 4096 % 64)
    ∷ alphabet_char (value / 64 % 64)
    ∷ alphabet_char (value % 64)
    ∷ base64_encode rest
base64_encode (b0 ∷ b1 ∷ []) =
    let value = b0 * 65536 + b1 * 256 in
    alphabet_char (value / 262144 % 64)
    ∷ alphabet_char (value / 4096 % 64)
    ∷ alphabet_char (value / 64 % 64)
    ∷ b'='
    ∷ []
base64_encode (b0 ∷ []) =
    let value = b0 * 65536 in
    alphabet_char (value / 262144 % 64) ∷ alphabet_char (value / 4096 % 64) ∷ b'=' ∷ b'=' ∷ []
base64_encode [] = []

-- The table that `base64_decode` fills: `none` stands for -1.
fill_lut : List ℕ → ℕ → (ℕ → Option ℕ) → ℕ → Option ℕ
fill_lut [] i lut = lut
fill_lut (c ∷ cs) i lut = fill_lut cs (suc i) (λ x. if x == c then some i else lut x)

pub lut : ℕ → Option ℕ
unfolding fill_lut
lut = fill_lut base64_alphabet 0 (λ _. none)

infixl 5 ◌>>=◌
abbrev ◌>>=◌ {ℓ κ} : {A : Type ℓ} {B : Type κ} → Option A → (A → Option B) → Option B
none >>= k = none
some a >>= k = k a

-- The third or fourth character of a group, which may be padding.
pub sextet : ℕ → Option ℕ
sextet c = if c == b'=' then some 0 else lut c

-- The one, two or three bytes of a group; a padded byte is left out.
group_bytes : ℕ → Bool → Bool → List ℕ
group_bytes value pad2 pad3 =
    (value / 65536 % 256) ∷ (if pad2 then [] else (value / 256 % 256) ∷ [])
    ++ (if pad3 then [] else (value % 256) ∷ [])

decode_groups : List ℕ → Option (List ℕ)
decode_groups (c0 ∷ c1 ∷ c2 ∷ c3 ∷ rest) = do
  v0 ← lut c0
  v1 ← lut c1
  v2 ← sextet c2
  v3 ← sextet c3
  out ← decode_groups rest
  some (group_bytes (v0 * 262144 + v1 * 4096 + v2 * 64 + v3) (c2 == b'=') (c3 == b'=') ++ out)
decode_groups _ = some []

pub base64_decode : List ℕ → Option (List ℕ)
base64_decode input =
    if is_empty input || not (length input % 4 == 0) then none else decode_groups input

pub to_url_char : ℕ → ℕ
to_url_char c = if c == b'+' then b'-' else if c == b'/' then b'_' else c

pub from_url_char : ℕ → ℕ
from_url_char c = if c == b'-' then b'+' else if c == b'_' then b'/' else c

-- The second loop of `base64url_encode`: drops every `=` at the end.
strip_padding : List ℕ → List ℕ
strip_padding [] = []
strip_padding (c ∷ cs) =
    let rest = strip_padding cs in if is_empty rest && c == b'=' then [] else c ∷ rest

pub base64url_encode : List ℕ → List ℕ
unfolding to_url_char strip_padding
base64url_encode input = strip_padding (map to_url_char (base64_encode input))

-- The second loop of `base64url_decode`, on fuel: it ends after three rounds at most.
pub pad_loop : ℕ → List ℕ → List ℕ
pad_loop zero normalized = normalized
pad_loop (suc fuel) normalized =
    let longer = pad_loop fuel (normalized ++ b'=' ∷ []) in
    if length normalized % 4 == 0 then normalized else longer

pub base64url_decode : List ℕ → Option (List ℕ)
unfolding from_url_char pad_loop
base64url_decode input = base64_decode (pad_loop 3 (map from_url_char input))
