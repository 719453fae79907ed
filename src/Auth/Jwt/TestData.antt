-- ===== src/Auth/Jwt/TestData.antt =====
-- A small library for the runs: it prints a payload as its two numbers, in unary, and its digest is
-- one byte.
use hse_project_2026_chronos.Base.{
  ℕ, zero, suc, ◌≡◌, refl, false, Option, none, some, List, [], ◌∷◌, All, codes, is_empty, arith,
}
use hse_project_2026_chronos.Base.Int.{ℤ, pos, negsuc, ◌+ℤ◌}
use hse_project_2026_chronos.Json.{Json, integer, object, Members, end, member}
use hse_project_2026_chronos.Auth.Base64.Alphabet.{IsByte}
use hse_project_2026_chronos.Auth.Jwt.{
  Libraries, Environment, returns, get_jwt_secret, get_jwt_ttl_seconds, positive_ttl, payload_json,
  parse_and_validate_token, create_token, valid,
}
use hse_project_2026_chronos.Auth.Jwt.Tokens.{LibraryLaws, parse_and_validate_token-create_token}

abbrev print_unary : ℕ → List ℕ → List ℕ
print_unary zero rest = 0 ∷ rest
print_unary (suc n) rest = 1 ∷ print_unary n rest

abbrev read_unary : List ℕ → ℕ × List ℕ
read_unary [] = (0, [])
read_unary (zero ∷ rest) = (0, rest)
read_unary (suc c ∷ rest) = let r = read_unary rest in (suc r.0, r.1)

abbrev print_int : ℤ → List ℕ → List ℕ
print_int (pos n) rest = 0 ∷ print_unary n rest
print_int (negsuc n) rest = 1 ∷ print_unary n rest

abbrev read_int : List ℕ → ℤ × List ℕ
read_int [] = (pos 0, [])
read_int (zero ∷ rest) = let r = read_unary rest in (pos r.0, r.1)
read_int (suc c ∷ rest) = let r = read_unary rest in (negsuc r.0, r.1)

abbrev print_members : Members → List ℕ
print_members (member k (integer exp) (member l (integer sub) end)) =
    1 ∷ print_int exp (print_int sub [])
print_members _ = 0 ∷ []

abbrev print : Json → List ℕ
print (object ms) = print_members ms
print _ = 0 ∷ []

abbrev read : List ℕ → Option Json
read (suc c ∷ rest) =
    let exp = read_int rest in let sub = read_int exp.1 in some (payload_json sub.0 exp.0)
read _ = none

abbrev pub library : Libraries
library = record {
  hmac_sha256 = λ _ _. 7 ∷ [];
  dump = print;
  parse = read;
  stoll = λ _. some (pos 10);
}

read-print_unary : (n : ℕ) (rest : List ℕ) → read_unary (print_unary n rest) ≡ (n, rest)
read-print_unary zero rest = refl
read-print_unary (suc n) rest = rw (read-print_unary n rest) refl

read-print_int : (z : ℤ) (rest : List ℕ) → read_int (print_int z rest) ≡ (z, rest)
read-print_int (pos n) rest = rw (read-print_unary n rest) refl
read-print_int (negsuc n) rest = rw (read-print_unary n rest) refl

read-print : (u e : ℤ) → read (print (payload_json u e)) ≡ some (payload_json u e)
read-print u e = rw (read-print_int e (print_int u [])) (rw (read-print_int u []) refl)

print_unary-bytes : (n : ℕ) (rest : List ℕ) → All IsByte rest → All IsByte (print_unary n rest)
print_unary-bytes zero rest h = (omega arith, h)
print_unary-bytes (suc n) rest h = (omega arith, print_unary-bytes n rest h)

print_int-bytes : (z : ℤ) (rest : List ℕ) → All IsByte rest → All IsByte (print_int z rest)
print_int-bytes (pos n) rest h = (omega arith, print_unary-bytes n rest h)
print_int-bytes (negsuc n) rest h = (omega arith, print_unary-bytes n rest h)

print_members-bytes : (ms : Members) → All IsByte (print_members ms)
print_members-bytes (member k (integer exp) (member l (integer sub) end)) =
    (omega arith, print_int-bytes exp (print_int sub []) (print_int-bytes sub [] tt))
print_members-bytes _ = (omega arith, tt)

print_members-filled : (ms : Members) → is_empty (print_members ms) ≡ false
print_members-filled (member k (integer exp) (member l (integer sub) end)) = refl
print_members-filled _ = refl

print-bytes : (j : Json) → All IsByte (print j)
print-bytes (object ms) = print_members-bytes ms
print-bytes _ = (omega arith, tt)

print-filled : (j : Json) → is_empty (print j) ≡ false
print-filled (object ms) = print_members-filled ms
print-filled _ = refl

pub library_laws : LibraryLaws library
library_laws = record {
  digest_bytes = λ _ _. (omega arith, tt);
  digest_filled = λ _ _. refl;
  dump_bytes = print-bytes;
  dump_filled = print-filled;
  parse-dump = read-print;
}

abbrev pub environment : Environment
environment = record {
  jwt_secret = some (codes "0123456789abcdef0123456789abcdef");
  jwt_ttl_seconds = some (codes "10");
}

pub environment-secret :
    get_jwt_secret environment ≡ returns (codes "0123456789abcdef0123456789abcdef")
unfolding get_jwt_secret
environment-secret = refl

pub environment-end : pos 5 +ℤ get_jwt_ttl_seconds library environment ≡ pos 15
unfolding get_jwt_ttl_seconds positive_ttl ◌+ℤ◌
environment-end = refl

-- A token of the user 3, made at 5 for ten seconds.
pub made_token :
    (token : List ℕ) × (create_token library environment (pos 5) (pos 3) ≡ returns token)
    × (parse_and_validate_token library environment (pos 15) token ≡ returns (valid (pos 3)))
made_token =
    parse_and_validate_token-create_token library library_laws environment
      (codes "0123456789abcdef0123456789abcdef") environment-secret (pos 5) 2 15 (omega arith)
      environment-end (omega arith) (pos 15)
