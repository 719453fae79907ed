-- ===== src/Server/Handlers/Owned.antt =====
-- backend/src/server/*/v1: what several handlers repeat, the check that a board is the user's and
-- the catch clauses of the deletions.
use Prim.Native.String.{String}
use hse_project_2026_chronos.Base.{ℕ, not, ◌++◌, ◌==◌, codes}
use hse_project_2026_chronos.Json.{end}
use hse_project_2026_chronos.Server.Rows.{Board}
use hse_project_2026_chronos.Server.Http.{Response, Libraries, build_error_response}
use hse_project_2026_chronos.Server.Action.{
  M, Failure, answered, missing_field, bad_type, bad_value, invalid_argument, length_error,
  other_exception, pure, fail_if, found_or, what, ◌>>=◌, ◌>>◌,
}
use hse_project_2026_chronos.Server.Repositories.Boards
use hse_project_2026_chronos.Server.Handlers.{detail}

abbrev pub not_found : String → String → Failure
not_found code message = answered (build_error_response 404 code (codes message) end)

abbrev pub not_owned : Failure
not_owned =
    answered
      (build_error_response 403 "RESOURCE_NOT_OWNED" (codes "Resource belongs to another user") end)

module _ (lib : Libraries) where
  -- A board, which has to be the user's; the handlers differ in what they answer for one that is
  -- not there.
  unfoldable pub owned_board : String → String → ℕ → ℕ → M Board
  owned_board code message user_id board_id = do
    found ← Boards.find_by_id lib board_id
    board ← found_or found (not_found code message)
    fail_if (not (board.user_id == user_id)) not_owned
    pure board

  unfoldable pub delete_failure : Failure → Response
  delete_failure (missing_field k) =
      build_error_response 400 "MISSING_FIELD" (codes "Missing required field")
        (detail k (codes "Field " ++ k ++ codes " is required"))
  delete_failure (bad_type k) =
      build_error_response 400 "INVALID_FORMAT" (codes "Invalid field format")
        (detail k (codes "Field " ++ k ++ codes " has invalid type"))
  delete_failure (bad_value k) =
      build_error_response 400 "VALIDATION_ERROR" (codes "Invalid field value")
        (detail k (codes "Field " ++ k ++ codes " must be a positive integer"))
  delete_failure (invalid_argument t) = build_error_response 400 "VALIDATION_ERROR" t end
  delete_failure (other_exception t) =
      build_error_response 500 "INTERNAL_ERROR" (codes "Internal server error") end
  delete_failure length_error =
      build_error_response 500 "INTERNAL_ERROR" (codes "Internal server error") end
  delete_failure f = build_error_response 500 "DATABASE_ERROR" (what lib f) end
