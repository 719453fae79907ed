-- ===== src/Auth/WithAuth.antt =====
-- backend/src/server/auth/with_auth.cpp. A request is its Authorization header and what else the
-- handler reads of it; a response is the refusal, by its message, or what the handler answers.
use hse_project_2026_chronos.Base.{
  ℕ, ◌≡◌, ◌↔◌, refl, ap, Option, none, some, List, [], ◌∷◌, ◌++◌, inl, inr, ◌==◌, if◌then◌else◌,
  codes, is_empty, Bool-cases, arith,
}
use hse_project_2026_chronos.Base.Int.{ℤ}
use hse_project_2026_chronos.Auth.Jwt.{
  Libraries, Environment, Throws, returns, runtime_error, Verdict, valid, invalid_token,
  expired_token, parse_and_validate_token,
}
use hse_project_2026_chronos.Auth.Jwt.Checks.{Accepts, parse_and_validate_token_iff}

pub record Request (A : Type 0) : Type 0 where
  pub authorization : List ℕ
  pub rest : A

-- All three have the status 401.
pub data Refusal : Type 0 where
  user_is_not_authorized : Refusal
  bad_token : Refusal
  token_is_expired : Refusal

pub data Response (B : Type 0) : Type 0 where
  unauthorized : Refusal → Response B
  answered : B → Response B

abbrev pub bearer : List ℕ
bearer = codes "Bearer "

-- The text behind the prefix, where the text starts with it.
unfoldable pub behind : List ℕ → List ℕ → Option (List ℕ)
behind [] text = some text
behind (p ∷ ps) [] = none
behind (p ∷ ps) (c ∷ cs) = if p == c then behind ps cs else none

module _ (lib : Libraries) (env : Environment) {A B : Type 0} where
  by_verdict : (A → ℤ → B) → Request A → Throws Verdict → Throws (Response B)
  by_verdict handler request runtime_error = runtime_error
  by_verdict handler request (returns (valid user_id)) =
      returns (answered (handler request.rest user_id))
  by_verdict handler request (returns expired_token) = returns (unauthorized token_is_expired)
  by_verdict handler request (returns invalid_token) = returns (unauthorized bad_token)

  by_token : (A → ℤ → B) → ℤ → Request A → Option (List ℕ) → Throws (Response B)
  unfolding by_verdict
  by_token handler now request none = returns (unauthorized bad_token)
  by_token handler now request (some token) =
      by_verdict handler request (parse_and_validate_token lib env now token)

  unfoldable pub with_auth : (A → ℤ → B) → ℤ → Request A → Throws (Response B)
  unfolding by_token
  with_auth handler now request =
      if is_empty request.authorization
      then returns (unauthorized user_is_not_authorized)
      else by_token handler now request (behind bearer request.authorization)

behind_sound : (ps text rest : List ℕ) → behind ps text ≡ some rest → text ≡ ps ++ rest
unfolding behind
behind_sound [] text rest h = cc
behind_sound (p ∷ ps) [] rest h = cc
behind_sound (p ∷ ps) (c ∷ cs) rest h = ground (arith, behind_sound ps cs rest)

behind-append : (ps rest : List ℕ) → behind ps (ps ++ rest) ≡ some rest
unfolding behind
behind-append [] rest = refl
behind-append (p ∷ ps) rest = ground (arith, behind-append ps rest)

module _ (lib : Libraries) (env : Environment) {A B : Type 0} (handler : A → ℤ → B) (now : ℤ)
    (request : Request A) (answer : B) where
  -- The token and the user behind an answer of the handler.
  abbrev pub Authorized : Type 0
  Authorized =
      (token : List ℕ) × (user_id : ℤ) × (request.authorization ≡ bearer ++ token)
      × Accepts lib env now token user_id
      × (handler request.rest user_id ≡ answer)

  by_verdict_sound :
      (verdict : Throws Verdict)
      → by_verdict lib env handler request verdict ≡ returns (answered answer)
      → (user_id : ℤ) × (verdict ≡ returns (valid user_id))
        × (handler request.rest user_id ≡ answer)
  unfolding by_verdict
  by_verdict_sound runtime_error h = absurd cc
  by_verdict_sound (returns (valid user_id)) h = (user_id, refl, cc)
  by_verdict_sound (returns expired_token) h = absurd cc
  by_verdict_sound (returns invalid_token) h = absurd cc

  by_token_sound :
      (o : Option (List ℕ))
      → behind bearer request.authorization ≡ o
      → by_token lib env handler now request o ≡ returns (answered answer)
      → Authorized
  unfolding by_token
  by_token_sound none e h = absurd cc
  by_token_sound (some token) e h =
      let (user_id, accepted, answers) =
        by_verdict_sound (parse_and_validate_token lib env now token) h in
      (
        token,
        user_id,
        behind_sound bearer request.authorization token e,
        (parse_and_validate_token_iff lib env now token user_id).0 accepted,
        answers,
      )

  with_auth_sound : with_auth lib env handler now request ≡ returns (answered answer) → Authorized
  unfolding with_auth
  with_auth_sound h = elim (Bool-cases (is_empty request.authorization)) [
    | inl empty ↦ absurd (cc (rw empty at h))
    | inr filled ↦ by_token_sound (behind bearer request.authorization) refl (rw filled at h)
  ]

  with_auth_complete :
      Authorized → with_auth lib env handler now request ≡ returns (answered answer)
  unfolding with_auth by_token by_verdict
  with_auth_complete (token, user_id, header, accepts, answers) = rw header (
      rw (behind-append bearer token) (
        rw ((parse_and_validate_token_iff lib env now token user_id).1 accepts)
          (ap (λ b. returns (answered b)) answers)))

  -- A guarded handler answers a request exactly when the Authorization header is "Bearer " with a
  -- token behind it that is accepted at this time, and then for the user of that token.
  pub with_auth_iff :
      (with_auth lib env handler now request ≡ returns (answered answer)) ↔ Authorized
  with_auth_iff = (with_auth_sound, with_auth_complete)
