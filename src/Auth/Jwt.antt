-- ===== src/Auth/Jwt.antt =====
-- backend/src/server/auth/jwt.cpp: creating and checking tokens. A clock reading, the environment
-- and the libraries (OpenSSL's HMAC, nlohmann::json, std::stoll) are arguments.
mod Timing
mod Parts
pub mod Checks
pub mod Tokens
pub mod TestData
mod Tests
use mathlib.Core.Option
use Prim.Native.Nat.{bit_or, bit_xor}
use hse_project_2026_chronos.Base.{
  ℕ, zero, suc, ◌-◌, ◌*◌, ◌%◌, ◌^◌, Bool, true, false, not, ◌&&◌, ◌||◌, Option, none, some, List,
  [], ◌∷◌, ◌++◌, ltb, leb, ◌==◌, if◌then◌else◌, codes, is_empty, length,
}
use hse_project_2026_chronos.Base.Int.{ℤ, pos, negsuc, ◌+ℤ◌, ltb_ℤ, leb_ℤ}
use hse_project_2026_chronos.Json.{Json, integer, object, string, end, member, at}
use hse_project_2026_chronos.Auth.Base64.{base64url_encode, base64url_decode}

-- `none` is the exception of `json::parse` and `std::stoll`.
pub record Libraries : Type 0 where
  pub hmac_sha256 : List ℕ → List ℕ → List ℕ
  pub dump : Json → List ℕ
  pub parse : List ℕ → Option Json
  pub stoll : List ℕ → Option ℤ

pub record Environment : Type 0 where
  pub jwt_secret : Option (List ℕ)
  pub jwt_ttl_seconds : Option (List ℕ)

-- A `std::runtime_error` that leaves the function.
pub data Throws {ℓ} (A : Type ℓ) : Type ℓ where
  returns : A → Throws A
  runtime_error : Throws A

infixl 5 ◌>>=◌
abbrev pub ◌>>=◌ {ℓ κ} : {A : Type ℓ} {B : Type κ} → Throws A → (A → Throws B) → Throws B
returns a >>= k = k a
runtime_error >>= k = runtime_error

-- `TokenError`, or the user id of the payload.
pub data Verdict : Type 0 where
  invalid_token expired_token : Verdict
  valid : ℤ → Verdict

pub get_jwt_secret : Environment → Throws (List ℕ)
get_jwt_secret env = elim env.jwt_secret [
  | none ↦ runtime_error
  | some secret ↦ if ltb (length secret) 32 then runtime_error else returns secret
]

abbrev pub default_ttl : ℤ
default_ttl = pos 86400

positive_ttl : Option ℤ → ℤ
positive_ttl none = default_ttl
positive_ttl (some ttl) = if ltb_ℤ (pos 0) ttl then ttl else default_ttl

pub get_jwt_ttl_seconds : Libraries → Environment → ℤ
unfolding positive_ttl
get_jwt_ttl_seconds lib env = elim env.jwt_ttl_seconds [
  | none ↦ default_ttl
  | some text ↦ if is_empty text then default_ttl else positive_ttl (lib.stoll text)
]

-- The loop of `timing_safe_equal`, over texts of one length.
fold_diff : ℕ → List ℕ → List ℕ → ℕ
fold_diff diff (x ∷ xs) (y ∷ ys) = fold_diff (bit_or diff (bit_xor x y)) xs ys
fold_diff diff _ _ = diff

pub timing_safe_equal : List ℕ → List ℕ → Bool
unfolding fold_diff
timing_safe_equal lhs rhs =
    if not (length lhs == length rhs) then false else fold_diff 0 lhs rhs == 0

-- The conversion of a wide integer to a signed one of `half + half` values.
unfoldable pub wrap_int : ℕ → ℤ → ℤ
wrap_int half (pos n) =
    let w = n % (2 * half) in if ltb w half then pos w else negsuc (2 * half - 1 - w)
wrap_int half (negsuc n) =
    let w = n % (2 * half) in if ltb w half then negsuc w else pos (2 * half - 1 - w)

abbrev pub header_json : Json
header_json = object (
    member (codes "alg") (string (codes "HS256")) (member (codes "typ") (string (codes "JWT")) end))

-- A json object keeps its members in the order of their names.
abbrev pub payload_json : ℤ → ℤ → Json
payload_json user_id exp =
    object (member (codes "exp") (integer exp) (member (codes "sub") (integer user_id) end))

pub signature_of : Libraries → List ℕ → List ℕ → List ℕ
signature_of lib signing_input secret = base64url_encode (lib.hmac_sha256 signing_input secret)

pub create_token : Libraries → Environment → ℤ → ℤ → Throws (List ℕ)
unfolding signature_of
create_token lib env now user_id = do
  let exp = now +ℤ get_jwt_ttl_seconds lib env
  let signing_input =
      base64url_encode (lib.dump header_json)
      ++ (b'.' ∷ base64url_encode (lib.dump (payload_json user_id exp)))
  secret ← get_jwt_secret env
  returns (signing_input ++ (b'.' ∷ signature_of lib signing_input secret))

-- The text before the first dot, and the text behind it.
pub split_dot : List ℕ → Option (List ℕ × List ℕ)
split_dot [] = none
split_dot (c ∷ cs) =
    if c == b'.' then some ([], cs) else Option.map (λ p. (c ∷ p.0, p.1)) (split_dot cs)

abbrev pub int_half : ℕ
int_half = 2 ^ 31

abbrev pub time_half : ℕ
time_half = 2 ^ 63

-- The claims of a payload: both are integers, `sub` is positive and `exp` is not over.
pub check_claims : Option Json → Option Json → ℤ → Verdict
check_claims (some (integer sub)) (some (integer exp)) now =
    let user_id = wrap_int int_half sub in
    if leb_ℤ user_id (pos 0)
    then invalid_token
    else if ltb_ℤ (wrap_int time_half exp) now
    then expired_token
    else valid user_id
check_claims _ _ now = invalid_token

pub check_payload : Libraries → ℤ → List ℕ → Verdict
unfolding check_claims
check_payload lib now encoded_payload = elim (base64url_decode encoded_payload) [
  | none ↦ invalid_token
  | some payload_raw ↦ elim (lib.parse payload_raw) [
    | none ↦ invalid_token
    | some payload ↦ check_claims (at (codes "sub") payload) (at (codes "exp") payload) now
  ]
]

-- The three texts of a token; none of them is empty.
pub token_parts : List ℕ → Option (List ℕ × List ℕ × List ℕ)
unfolding split_dot
token_parts token = elim (split_dot token) [
  | none ↦ none
  | some (header, behind) ↦ elim (split_dot behind) [
    | none ↦ none
    | some (payload, signature) ↦
        if is_empty signature || is_empty header || is_empty payload
        then none
        else some (header, payload, signature)
  ]
]

pub check_token : Libraries → ℤ → List ℕ → List ℕ → List ℕ → List ℕ → Verdict
unfolding signature_of timing_safe_equal check_payload
check_token lib now secret header payload signature =
    if not (timing_safe_equal (signature_of lib (header ++ (b'.' ∷ payload)) secret) signature)
    then invalid_token
    else check_payload lib now payload

pub parse_and_validate_token : Libraries → Environment → ℤ → List ℕ → Throws Verdict
unfolding token_parts check_token
parse_and_validate_token lib env now token = elim (token_parts token) [
  | none ↦ returns invalid_token
  | some (header, payload, signature) ↦
      get_jwt_secret env >>= λ secret. returns (check_token lib now secret header payload signature)
]

-- `validate_jwt_config` of the start of the server: it throws exactly when the secret does.
pub validate_jwt_config : Environment → Throws (Unit {0})
validate_jwt_config env = get_jwt_secret env >>= λ _. returns tt
