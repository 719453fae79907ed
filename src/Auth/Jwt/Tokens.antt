-- ===== src/Auth/Jwt/Tokens.antt =====
-- A token that `create_token` of backend/src/server/auth/jwt.cpp made, read back later.
use hse_project_2026_chronos.Base.{
  ℕ, suc, ◌%◌, ◌<◌, ◌≡◌, refl, ap, ◌∙◌, false, some, List, ◌∷◌, ◌++◌, text_eq, if◌then◌else◌,
  is_empty, All, arith,
}
use mathlib.Core.List.{append_assoc}
use hse_project_2026_chronos.Base.Int.{ℤ, pos, ◌+ℤ◌, ltb_ℤ, leb_ℤ}
use hse_project_2026_chronos.Json.{Json, integer, at, get}
use hse_project_2026_chronos.Auth.Base64.{base64url_encode}
use hse_project_2026_chronos.Auth.Base64.Alphabet.{IsByte}
use hse_project_2026_chronos.Auth.Base64.Url.{
  base64url_decode-encode, base64url_encode-NoDot, base64url_encode-filled,
}
use hse_project_2026_chronos.Auth.Jwt.{
  Libraries, Environment, returns, valid, expired_token, get_jwt_secret, get_jwt_ttl_seconds,
  signature_of, wrap_int, int_half, time_half, header_json, payload_json, create_token,
  check_claims, check_payload, check_token, parse_and_validate_token,
}
use hse_project_2026_chronos.Auth.Jwt.Timing.{timing_safe_equal_iff}
use hse_project_2026_chronos.Auth.Jwt.Parts.{HasParts, token_parts_complete}

-- What the code relies on: a digest and a printed value are non-empty strings of bytes, and a
-- printed payload parses to itself.
pub record LibraryLaws (lib : Libraries) : Type 0 where
  pub digest_bytes : (text secret : List ℕ) → All IsByte (lib.hmac_sha256 text secret)
  pub digest_filled : (text secret : List ℕ) → is_empty (lib.hmac_sha256 text secret) ≡ false
  pub dump_bytes : (j : Json) → All IsByte (lib.dump j)
  pub dump_filled : (j : Json) → is_empty (lib.dump j) ≡ false
  pub parse-dump :
      (user_id exp : ℤ)
      → lib.parse (lib.dump (payload_json user_id exp)) ≡ some (payload_json user_id exp)

wrap_int-int_half : (n : ℕ) → n < int_half → wrap_int int_half (pos n) ≡ pos n
unfolding wrap_int
wrap_int-int_half n h = let e : n % 4294967296 ≡ n = omega arith in rw e (ground arith)

wrap_int-time_half : (n : ℕ) → n < time_half → wrap_int time_half (pos n) ≡ pos n
unfolding wrap_int
wrap_int-time_half n h = let e : n % 18446744073709551616 ≡ n = omega arith in rw e (ground arith)

-- The three texts of a new token.
module _ (lib : Libraries) (laws : LibraryLaws lib) (secret : List ℕ) (user_id exp : ℤ) where
  header_text : List ℕ
  header_text = base64url_encode (lib.dump header_json)

  payload_text : List ℕ
  payload_text = base64url_encode (lib.dump (payload_json user_id exp))

  signature_text : List ℕ
  signature_text = signature_of lib (header_text ++ (b'.' ∷ payload_text)) secret

  new_token_text : List ℕ
  new_token_text = (header_text ++ (b'.' ∷ payload_text)) ++ (b'.' ∷ signature_text)

  new_token-HasParts : HasParts new_token_text header_text payload_text signature_text
  unfolding new_token_text header_text payload_text signature_text signature_of
  new_token-HasParts = record {
    joined = append_assoc header_text (b'.' ∷ payload_text) (b'.' ∷ signature_text);
    plain_header = base64url_encode-NoDot _;
    plain_payload = base64url_encode-NoDot _;
    filled_header = base64url_encode-filled _ (laws.dump_filled _);
    filled_payload = base64url_encode-filled _ (laws.dump_filled _);
    filled_signature = base64url_encode-filled _ (laws.digest_filled _ _);
  }

  -- The claims of a new token, as `parse_and_validate_token` reads them.
  new_token-payload :
      (now : ℤ)
      → check_payload lib now payload_text
        ≡ check_claims (some (integer user_id)) (some (integer exp)) now
  unfolding check_payload payload_text at get text_eq wrap_int
  new_token-payload now = rw (
    base64url_decode-encode _ (laws.dump_bytes _) (laws.dump_filled _),
    laws.parse-dump user_id exp,
    check_payload,
  )

  new_token-check :
      (now : ℤ)
      → check_token lib now secret header_text payload_text signature_text
        ≡ check_claims (some (integer user_id)) (some (integer exp)) now
  unfolding check_token signature_text
  new_token-check now = rw ((timing_safe_equal_iff _ _).1 refl, check_token) (new_token-payload now)

claims_in_range :
    (u e : ℕ) (now : ℤ)
    → suc u < int_half
    → e < time_half
    → check_claims (some (integer (pos (suc u)))) (some (integer (pos e))) now
      ≡ (if ltb_ℤ (pos e) now then expired_token else valid (pos (suc u)))
unfolding check_claims
claims_in_range u e now hu he =
    let positive : leb_ℤ (pos (suc u)) (pos 0) ≡ false = ground arith in
    rw (wrap_int-int_half (suc u) hu, wrap_int-time_half e he, positive)

module _ (lib : Libraries) (laws : LibraryLaws lib) (env : Environment) (secret : List ℕ)
    (configured : get_jwt_secret env ≡ returns secret) (issued : ℤ) (u e : ℕ)
    (fits : suc u < int_half) (ends : issued +ℤ get_jwt_ttl_seconds lib env ≡ pos e)
    (in_range : e < time_half) where
  new_token : List ℕ
  new_token = new_token_text lib laws secret (pos (suc u)) (pos e)

  create_token-new_token : create_token lib env issued (pos (suc u)) ≡ returns new_token
  unfolding create_token new_token new_token_text header_text payload_text signature_text
  create_token-new_token = rw (configured, ends)

  validate-new_token :
      (now : ℤ)
      → parse_and_validate_token lib env now new_token
        ≡ returns (if ltb_ℤ (pos e) now then expired_token else valid (pos (suc u)))
  unfolding parse_and_validate_token new_token new_token_text
  validate-new_token now =
      rw
        (
          token_parts_complete (new_token-HasParts lib laws secret (pos (suc u)) (pos e)),
          configured,
          parse_and_validate_token,
        )
        (ap returns (
          new_token-check lib laws secret (pos (suc u)) (pos e) now
          ∙ claims_in_range u e now fits in_range))

  -- A token made at the time `issued` for a positive `int` user id, with the secret set and its
  -- end within `time_t`, is made; whenever it is checked, it is valid for that user until its
  -- end, `issued` plus the configured lifetime, has passed, and expired from then on. The
  -- libraries are taken to satisfy `LibraryLaws`.
  pub parse_and_validate_token-create_token :
      (now : ℤ)
      → (token : List ℕ) × (create_token lib env issued (pos (suc u)) ≡ returns token)
        × (parse_and_validate_token lib env now token
            ≡ returns (if ltb_ℤ (pos e) now then expired_token else valid (pos (suc u))))
  parse_and_validate_token-create_token now =
      (new_token, create_token-new_token, validate-new_token now)
