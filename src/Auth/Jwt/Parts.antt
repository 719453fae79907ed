-- ===== src/Auth/Jwt/Parts.antt =====
-- The three parts of a token of backend/src/server/auth/jwt.cpp.
use mathlib.Core.Option
use hse_project_2026_chronos.Base.{
  ℕ, ◌≡◌, refl, ap, ◌∙◌, sym, false, ◌||◌, guarded-eq-some, inl, inr, some, List, [], ◌∷◌, ◌++◌,
  ◌==◌, ==_iff, Bool-cases, Option-cases, All, is_empty, arith,
}
use hse_project_2026_chronos.Auth.Base64.Url.{NoDot}
use hse_project_2026_chronos.Auth.Jwt.{split_dot, token_parts}

split_dot_sound :
    (cs : List ℕ) (front behind : List ℕ)
    → split_dot cs ≡ some (front, behind)
    → (cs ≡ front ++ (b'.' ∷ behind)) × All NoDot front
unfolding split_dot
split_dot_sound [] front behind e = cc
split_dot_sound (c ∷ cs) front behind e = elim (Bool-cases (c == b'.')) [
  | inl dot ↦
      let f : front ≡ [] = ground arith in
      let b : behind ≡ cs = ground arith in rw (f, b) (ap (λ x. x ∷ cs) ((==_iff c b'.').0 dot), tt)
  | inr other ↦
      let (parts, rest, same) = (Option.map-eq-some_iff _ (split_dot cs)).0 (rw other at e) in
      let f : front ≡ c ∷ parts.0 = cc in
      let b : behind ≡ parts.1 = cc in
      let (joined, plain) = split_dot_sound cs parts.0 parts.1 rest in
      rw (f, b) (ap (λ x. c ∷ x) joined, (other, plain))
]

split_dot-append :
    (front behind : List ℕ)
    → All NoDot front
    → split_dot (front ++ (b'.' ∷ behind)) ≡ some (front, behind)
unfolding split_dot
split_dot-append [] behind h = refl
split_dot-append (c ∷ front) behind (p, h) = rw (p, split_dot-append front behind h)

-- A token is cut at its first two dots.
pub record HasParts (token header payload signature : List ℕ) : Type 0 where
  pub joined : token ≡ header ++ (b'.' ∷ (payload ++ (b'.' ∷ signature)))
  pub plain_header : All NoDot header
  pub plain_payload : All NoDot payload
  pub filled_header : is_empty header ≡ false
  pub filled_payload : is_empty payload ≡ false
  pub filled_signature : is_empty signature ≡ false

pub token_parts_complete :
    {token header payload signature : List ℕ}
    → HasParts token header payload signature
    → token_parts token ≡ some (header, payload, signature)
unfolding token_parts
token_parts_complete {token} {header} {payload} {signature} p = rw (
  p.joined,
  split_dot-append header (payload ++ (b'.' ∷ signature)) p.plain_header,
  split_dot-append payload signature p.plain_payload,
  p.filled_header,
  p.filled_payload,
  p.filled_signature,
  token_parts,
)

pub token_parts_sound :
    (token header payload signature : List ℕ)
    → token_parts token ≡ some (header, payload, signature)
    → HasParts token header payload signature
unfolding token_parts
token_parts_sound token header payload signature e = elim (Option-cases (split_dot token)) [
  | inl missed ↦ cc (rw (missed, token_parts) at e)
  | inr (first, found) ↦ elim (Option-cases (split_dot first.1)) [
    | inl missed ↦ cc (rw (found, missed, token_parts) at e)
    | inr (second, found') ↦
        let (full, same) =
          guarded-eq-some (is_empty second.1 || is_empty first.0 || is_empty second.0)
            (rw (found, found', token_parts) at e) in
        let h : header ≡ first.0 = ap (λ t. t.0) (sym same) in
        let p : payload ≡ second.0 = ap (λ t. t.1) (sym same) in
        let s : signature ≡ second.1 = ap (λ t. t.2) (sym same) in
        let (cut, plain_header) = split_dot_sound token first.0 first.1 found in
        let (cut', plain_payload) = split_dot_sound first.1 second.0 second.1 found' in
        rw (h, p, s)
          (record {
            joined = cut ∙ rw cut';
            plain_header = plain_header;
            plain_payload = plain_payload;
            filled_header = ground arith;
            filled_payload = ground arith;
            filled_signature = ground arith;
          })
  ]
]
