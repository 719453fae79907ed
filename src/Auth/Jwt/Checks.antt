-- ===== src/Auth/Jwt/Checks.antt =====
-- Which tokens `parse_and_validate_token` of backend/src/server/auth/jwt.cpp accepts.
use hse_project_2026_chronos.Base.{
  ℕ, ◌≡◌, ◌↔◌, ◌⊎◌, Bool, refl, ap, sym, true, false, Option, some, List, ◌∷◌, ◌++◌, if◌then◌else◌,
  Bool-cases, Option-cases, codes, inl, inr,
}
use hse_project_2026_chronos.Base.Int.{ℤ, pos, ltb_ℤ, leb_ℤ}
use hse_project_2026_chronos.Json.{Json, integer, at}
use hse_project_2026_chronos.Auth.Base64.{base64url_decode}
use hse_project_2026_chronos.Auth.Jwt.{
  Libraries, Environment, Throws, returns, runtime_error, valid, invalid_token, expired_token,
  get_jwt_secret, signature_of, timing_safe_equal, token_parts, wrap_int, int_half, time_half,
  check_claims, check_payload, check_token, parse_and_validate_token,
}
use hse_project_2026_chronos.Auth.Jwt.Timing.{timing_safe_equal_iff}
use hse_project_2026_chronos.Auth.Jwt.Parts.{HasParts, token_parts_sound, token_parts_complete}

-- The claims that the payload text carries at the time `now`.
pub record Claims (lib : Libraries) (now : ℤ) (encoded_payload : List ℕ) (user_id : ℤ)
    : Type 0 where
  pub payload_raw : List ℕ
  pub payload : Json
  pub sub : ℤ
  pub exp : ℤ
  pub decoded : base64url_decode encoded_payload ≡ some payload_raw
  pub parsed : lib.parse payload_raw ≡ some payload
  pub has_sub : at (codes "sub") payload ≡ some (integer sub)
  pub has_exp : at (codes "exp") payload ≡ some (integer exp)
  pub names_user : user_id ≡ wrap_int int_half sub
  pub positive : leb_ℤ user_id (pos 0) ≡ false
  pub not_over : ltb_ℤ (wrap_int time_half exp) now ≡ false

verdict-eq-valid :
    (b c : Bool) {x y : ℤ}
    → (if b then invalid_token else if c then expired_token else valid x) ≡ valid y
    → (b ≡ false) × (c ≡ false) × (x ≡ y)
verdict-eq-valid true c h = cc
verdict-eq-valid false true h = cc
verdict-eq-valid false false h = (refl, refl, cc)

check_claims_sound :
    (sub exp : Option Json) (now user_id : ℤ)
    → check_claims sub exp now ≡ valid user_id
    → (s : ℤ) × (e : ℤ) × (sub ≡ some (integer s))
      × (exp ≡ some (integer e))
      × (user_id ≡ wrap_int int_half s)
      × (leb_ℤ user_id (pos 0) ≡ false)
      × (ltb_ℤ (wrap_int time_half e) now ≡ false)
unfolding check_claims
check_claims_sound (some (integer s)) (some (integer e)) now user_id h =
    let (positive, not_over, same) = verdict-eq-valid _ _ h in
    (s, e, refl, refl, sym same, rw (← same) positive, not_over)
check_claims_sound _ _ now user_id h = cc

module _ (lib : Libraries) (now : ℤ) (encoded_payload : List ℕ) (user_id : ℤ) where
  check_payload_sound :
      check_payload lib now encoded_payload ≡ valid user_id → Claims lib now encoded_payload user_id
  unfolding check_payload
  check_payload_sound h = elim (Option-cases (base64url_decode encoded_payload)) [
    | inl missed ↦ absurd (cc (rw (missed, check_payload) at h))
    | inr (raw, decoded) ↦ elim (Option-cases (lib.parse raw)) [
      | inl missed ↦ absurd (cc (rw (decoded, missed, check_payload) at h))
      | inr (payload, parsed) ↦
          let (s, e, has_sub, has_exp, names_user, positive, not_over) =
            check_claims_sound _ _ now user_id (rw (decoded, parsed, check_payload) at h) in
          record {
            payload_raw = raw;
            payload = payload;
            sub = s;
            exp = e;
            decoded = decoded;
            parsed = parsed;
            has_sub = has_sub;
            has_exp = has_exp;
            names_user = names_user;
            positive = positive;
            not_over = not_over;
          }
    ]
  ]

  check_payload_complete :
      Claims lib now encoded_payload user_id → check_payload lib now encoded_payload ≡ valid user_id
  unfolding check_payload check_claims
  check_payload_complete c = rw (
    c.decoded,
    c.parsed,
    c.has_sub,
    c.has_exp,
    ← c.names_user,
    c.positive,
    c.not_over,
    check_payload,
    check_claims,
  )

Throws-cases {ℓ} : {A : Type ℓ} (m : Throws A) → (m ≡ runtime_error) ⊎ ((a : A) × (m ≡ returns a))
Throws-cases (returns a) = inr (a, refl)
Throws-cases runtime_error = inl refl

module _ (lib : Libraries) (now : ℤ) (secret header payload signature : List ℕ) (user_id : ℤ) where
  check_token_sound :
      check_token lib now secret header payload signature ≡ valid user_id
      → (signature_of lib (header ++ (b'.' ∷ payload)) secret ≡ signature)
        × Claims lib now payload user_id
  unfolding check_token
  check_token_sound h =
      elim (Bool-cases
        (timing_safe_equal (signature_of lib (header ++ (b'.' ∷ payload)) secret) signature)) [
          | inl same ↦ (
            (timing_safe_equal_iff _ _).0 same,
            check_payload_sound lib now payload user_id (rw (same, check_token) at h),
          )
          | inr other ↦ absurd (cc (rw (other, check_token) at h))
        ]

  check_token_complete :
      signature_of lib (header ++ (b'.' ∷ payload)) secret ≡ signature
      → Claims lib now payload user_id
      → check_token lib now secret header payload signature ≡ valid user_id
  unfolding check_token
  check_token_complete signed claims =
      rw ((timing_safe_equal_iff _ _).1 signed, check_token)
        (check_payload_complete lib now payload user_id claims)

-- What makes a token good: its parts, the signature over the first two, and the claims.
pub record Accepts (lib : Libraries) (env : Environment) (now : ℤ) (token : List ℕ) (user_id : ℤ)
    : Type 0 where
  pub secret : List ℕ
  pub header : List ℕ
  pub payload : List ℕ
  pub signature : List ℕ
  pub configured : get_jwt_secret env ≡ returns secret
  pub parts : HasParts token header payload signature
  pub signed : signature_of lib (header ++ (b'.' ∷ payload)) secret ≡ signature
  pub claims : Claims lib now payload user_id

module _ (lib : Libraries) (env : Environment) (now : ℤ) (token : List ℕ) (user_id : ℤ) where
  Accepts-sound :
      parse_and_validate_token lib env now token ≡ returns (valid user_id)
      → Accepts lib env now token user_id
  unfolding parse_and_validate_token
  Accepts-sound h = elim (Option-cases (token_parts token)) [
    | inl missed ↦ absurd (cc (rw (missed, parse_and_validate_token) at h))
    | inr ((header, payload, signature), cut) ↦ elim (Throws-cases (get_jwt_secret env)) [
      | inl unset ↦ absurd (cc (rw (cut, unset, parse_and_validate_token) at h))
      | inr (secret, configured) ↦
          let checked : returns (check_token lib now secret header payload signature)
              ≡ returns (valid user_id) =
            rw (cut, configured, parse_and_validate_token) at h in
          let (signed, claims) =
            check_token_sound lib now secret header payload signature user_id (cc) in
          record {
            secret = secret;
            header = header;
            payload = payload;
            signature = signature;
            configured = configured;
            parts = token_parts_sound token header payload signature cut;
            signed = signed;
            claims = claims;
          }
    ]
  ]

  Accepts-complete :
      Accepts lib env now token user_id
      → parse_and_validate_token lib env now token ≡ returns (valid user_id)
  unfolding parse_and_validate_token
  Accepts-complete a =
      rw (token_parts_complete a.parts, a.configured, parse_and_validate_token)
        (ap returns (
          check_token_complete lib now a.secret a.header a.payload a.signature user_id a.signed
            a.claims))

  -- A token is accepted for a user exactly when it is cut at its first two dots into three
  -- non-empty parts, the third is the base64url of the HMAC of the other two under the configured
  -- secret, and the second decodes to a payload whose integer `sub` is that user, positive as an
  -- `int`, and whose integer `exp` is not before `now`.
  pub parse_and_validate_token_iff :
      (parse_and_validate_token lib env now token ≡ returns (valid user_id))
      ↔ Accepts lib env now token user_id
  parse_and_validate_token_iff = (Accepts-sound, Accepts-complete)
