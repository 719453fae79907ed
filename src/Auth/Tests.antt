-- ===== src/Auth/Tests.antt =====
-- A run of a guarded handler.
use hse_project_2026_chronos.Base.{◌≡◌, ◌↔◌, codes}
use hse_project_2026_chronos.Base.Int.{ℤ, pos}
use hse_project_2026_chronos.Auth.Jwt.{returns}
use hse_project_2026_chronos.Auth.Jwt.TestData.{library, environment}
use hse_project_2026_chronos.Auth.WithAuth.{Request, answered, with_auth, Authorized, with_auth_iff}

abbrev show_board : Request ℤ
show_board = record {
  authorization = codes "Bearer AA.AQABAQEBAQEBAQEBAQEBAQEAAAEBAQA.Bw";
  rest = pos 8;
}

abbrev board_of : ℤ → ℤ → ℤ × ℤ
board_of board_id user_id = (board_id, user_id)

with_auth_iff_example :
    (with_auth library environment board_of (pos 15) show_board ≡ returns (answered (pos 8, pos 3)))
    ↔ Authorized library environment board_of (pos 15) show_board (pos 8, pos 3)
with_auth_iff_example =
    with_auth_iff library environment board_of (pos 15) show_board (pos 8, pos 3)
