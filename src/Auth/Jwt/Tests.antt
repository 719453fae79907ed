-- ===== src/Auth/Jwt/Tests.antt =====
-- Runs of the tokens.
use hse_project_2026_chronos.Base.{ℕ, ◌≡◌, ◌↔◌, true, List, codes, arith}
use hse_project_2026_chronos.Base.Int.{pos}
use hse_project_2026_chronos.Auth.Jwt.{
  returns, valid, timing_safe_equal, create_token, parse_and_validate_token,
}
use hse_project_2026_chronos.Auth.Jwt.Timing.{timing_safe_equal_iff}
use hse_project_2026_chronos.Auth.Jwt.Checks.{Accepts, parse_and_validate_token_iff}
use hse_project_2026_chronos.Auth.Jwt.Tokens.{parse_and_validate_token-create_token}
use hse_project_2026_chronos.Auth.Jwt.TestData.{
  library, library_laws, environment, environment-secret, environment-end,
}

timing_safe_equal_iff_example :
    (timing_safe_equal (codes "abc") (codes "abd") ≡ true) ↔ (codes "abc" ≡ codes "abd")
timing_safe_equal_iff_example = timing_safe_equal_iff (codes "abc") (codes "abd")

parse_and_validate_token-create_token_example :
    (token : List ℕ) × (create_token library environment (pos 5) (pos 3) ≡ returns token)
    × (parse_and_validate_token library environment (pos 15) token ≡ returns (valid (pos 3)))
parse_and_validate_token-create_token_example =
    parse_and_validate_token-create_token library library_laws environment
      (codes "0123456789abcdef0123456789abcdef") environment-secret (pos 5) 2 15 (omega arith)
      environment-end (omega arith) (pos 15)

parse_and_validate_token_iff_example :
    (parse_and_validate_token library environment
        (pos 15)
        (codes "AA.AQABAQEBAQEBAQEBAQEBAQEAAAEBAQA.Bw")
      ≡ returns (valid (pos 3)))
    ↔ Accepts library environment (pos 15) (codes "AA.AQABAQEBAQEBAQEBAQEBAQEAAAEBAQA.Bw") (pos 3)
parse_and_validate_token_iff_example =
    parse_and_validate_token_iff library environment (pos 15)
      (codes "AA.AQABAQEBAQEBAQEBAQEBAQEAAAEBAQA.Bw") (pos 3)
