-- ===== src/Server/Repositories/Statuses.antt =====
-- backend/repositories/status_repository.cpp.
use hse_project_2026_chronos.Base.{
  ℕ, suc, Bool, not, ◌&&◌, ◌||◌, Option, none, some, List, ltb, ◌==◌, if◌then◌else◌, codes,
}
use hse_project_2026_chronos.Local.Table.{find_row, any_row, select_where}
use hse_project_2026_chronos.Server.Rows.{Text, Board, Status, status_error}
use hse_project_2026_chronos.Server.Tables.{
  status_has_id, has_board_and_name, status_checks, name_taken, board_exists, status_exists,
  delete_status, add_status, edit_status,
}
use hse_project_2026_chronos.Server.Http.{Libraries}
use hse_project_2026_chronos.Server.Action.{
  M, pure, unique_violation, sql_failure, runtime_error, fail_if, found_or, construct, get_tables,
  put_tables, transaction, rewrapping, nextval, ◌>>=◌, ◌>>◌,
}
use hse_project_2026_chronos.Server.Repositories.{construct_found, construct_all, order_by}

-- The rows of boards that belong to a user, by JOIN boards b ON b.id = board_id.
unfoldable pub owns : ℕ → ℕ → List Board → Bool
owns user_id board_id boards = any_row (λ b. b.id == board_id && b.user_id == user_id) boards

-- ORDER BY position, id, and with board_id in front.
abbrev pub status_before : Status → Status → Bool
status_before a b = ltb a.position b.position || (a.position == b.position && ltb a.id b.id)

abbrev pub board_status_before : Status → Status → Bool
board_status_before a b =
    ltb a.board_id b.board_id || (a.board_id == b.board_id && status_before a b)

unfoldable pub next_status_id : M ℕ
next_status_id = nextval (λ n. n.status) (λ n. record n { status = suc n.status })

module _ (lib : Libraries) where
  -- INSERT INTO statuses, for one row.
  unfoldable pub insert_status_row : ℕ → Text → ℕ → M Status
  insert_status_row board_id name position = do
    id ← next_status_id
    t ← get_tables
    let row : Status = record { id = id; board_id = board_id; name = name; position = position }
    fail_if (not (status_checks lib.char_length row && board_exists board_id t)) sql_failure
    fail_if (name_taken row t) unique_violation
    put_tables (add_status row t)
    pure row

  unfoldable pub insert : Status → M Status
  insert status = do
    row ← transaction lib (insert_status_row status.board_id status.name status.position)
    construct status_error row

  -- UPDATE statuses SET name, position WHERE id = $3 RETURNING, by the row of that id.
  unfoldable pub update_found : Status → Option Status → M (Option Status)
  update_found status none = pure none
  update_found status (some old) = do
    t ← get_tables
    let row = record old { name = status.name; position = status.position }
    fail_if (not (status_checks lib.char_length row)) sql_failure
    fail_if (name_taken row t) unique_violation
    put_tables (edit_status status t)
    pure (some row)

  unfoldable pub update_status_row : Status → M (Option Status)
  update_status_row status = do
    t ← get_tables
    update_found status (find_row (status_has_id status.id) t.statuses)

  unfoldable pub update : Status → M Status
  update status = do
    updated ← transaction lib (update_status_row status)
    row ← found_or updated (runtime_error (codes "Failed to update status"))
    construct status_error row

  unfoldable pub save : Status → M Status
  save status =
      rewrapping lib "Failed to save Status: "
        (if status.id == 0 then insert status else update status)

  unfoldable pub find_by_board_and_name : ℕ → Text → M (Option Status)
  find_by_board_and_name board_id name = rewrapping lib "Status::find_by_board_and_name failed: " do
    t ← transaction lib get_tables
    construct_found status_error (find_row (has_board_and_name board_id name) t.statuses)

  unfoldable pub find_by_id : ℕ → M (Option Status)
  find_by_id id = rewrapping lib "Status::find_by_id failed: " do
    t ← transaction lib get_tables
    construct_found status_error (find_row (status_has_id id) t.statuses)

  unfoldable pub find_by_board_id : ℕ → M (List Status)
  find_by_board_id board_id = rewrapping lib "Status::find_by_board_id failed: " do
    t ← transaction lib get_tables
    construct_all status_error
        (order_by status_before (select_where (λ s. s.board_id == board_id) t.statuses))

  unfoldable pub find_by_user_id : ℕ → M (List Status)
  find_by_user_id user_id = rewrapping lib "Status::find_by_user_id failed: " do
    t ← transaction lib get_tables
    construct_all status_error (
        order_by board_status_before
          (select_where (λ s. owns user_id s.board_id t.boards) t.statuses))

  unfoldable pub delete_by_id : ℕ → M Bool
  delete_by_id id = rewrapping lib "Status::delete_by_id failed: " (
      transaction lib do t ← get_tables; put_tables (delete_status id t); pure (status_exists id t))
