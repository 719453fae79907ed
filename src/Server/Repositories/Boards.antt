-- ===== src/Server/Repositories/Boards.antt =====
-- backend/repositories/board_repository.cpp.
use hse_project_2026_chronos.Base.{
  ℕ, suc, Bool, not, ◌&&◌, Option, List, ltb, ◌==◌, if◌then◌else◌, codes,
}
use hse_project_2026_chronos.Local.Table.{find_row, select_where}
use hse_project_2026_chronos.Server.Rows.{Board, board_error}
use hse_project_2026_chronos.Server.Tables.{
  board_has_id, board_checks, user_exists, board_exists, delete_board, add_board, edit_board,
}
use hse_project_2026_chronos.Server.Http.{Libraries}
use hse_project_2026_chronos.Server.Action.{
  M, pure, sql_failure, other_exception, fail_if, construct, get_world, get_tables, put_tables,
  transaction, rewrapping, nextval, ◌>>=◌, ◌>>◌,
}
use hse_project_2026_chronos.Server.Repositories.{construct_found, construct_all, order_by}
use hse_project_2026_chronos.Server.Repositories.Statuses.{insert_status_row}

abbrev pub board_of_user : ℕ → Board → Bool
board_of_user user_id b = b.user_id == user_id

abbrev pub board_before : Board → Board → Bool
board_before a b = ltb a.id b.id

unfoldable pub next_board_id : M ℕ
next_board_id = nextval (λ n. n.board) (λ n. record n { board = suc n.board })

module _ (lib : Libraries) where
  -- INSERT INTO boards ... RETURNING.
  unfoldable pub insert_board_row : Board → M Board
  insert_board_row board = do
    id ← next_board_id
    w ← get_world
    let row = record board { id = id; created_at = w.now; updated_at = w.now }
    fail_if (not (board_checks lib.char_length row && user_exists row.user_id w.tables)) sql_failure
    put_tables (add_board row w.tables)
    pure row

  unfoldable pub insert_with_statuses : Board → M Board
  insert_with_statuses board = do
    row ← insert_board_row board
    insert_status_row lib row.id (codes "To do") 0
    insert_status_row lib row.id (codes "In progress") 1
    insert_status_row lib row.id (codes "Done") 2
    pure row

  unfoldable pub insert : Board → M Board
  insert board = do row ← transaction lib (insert_with_statuses board); construct board_error row

  -- UPDATE boards ... WHERE id = $4, and whether there was a row.
  unfoldable pub update_board_rows : Board → M Bool
  update_board_rows board = do
    w ← get_world
    let row = record board { updated_at = w.now }
    let found = board_exists board.id w.tables
    fail_if (found && not (board_checks lib.char_length row && user_exists row.user_id w.tables))
        sql_failure
    put_tables (edit_board row w.tables)
    pure found

  unfoldable pub update : Board → M Board
  update board = do
    found ← transaction lib (update_board_rows board)
    fail_if (not found) (other_exception lib.range_error)
    w ← get_world
    construct board_error (record board { updated_at = w.now })

  unfoldable pub save : Board → M Board
  save board =
      rewrapping lib "Failed to save Board: " (if board.id == 0 then insert board else update board)

  unfoldable pub find_by_id : ℕ → M (Option Board)
  find_by_id id = rewrapping lib "Failed to find Board: " do
    t ← transaction lib get_tables
    construct_found board_error (find_row (board_has_id id) t.boards)

  unfoldable pub find_all_by_user_id : ℕ → M (List Board)
  find_all_by_user_id user_id = rewrapping lib "Failed to find Boards by user id: " do
    t ← transaction lib get_tables
    construct_all board_error
        (order_by board_before (select_where (board_of_user user_id) t.boards))

  unfoldable pub find_by_user_id : ℕ → M (Option Board)
  find_by_user_id user_id = rewrapping lib "Failed to find Board by user id: " do
    t ← transaction lib get_tables
    construct_found board_error (
        find_row (board_of_user user_id)
          (order_by board_before (select_where (board_of_user user_id) t.boards)))

  unfoldable pub delete_by_id : ℕ → M Bool
  delete_by_id id =
      rewrapping lib "Failed to delete Board: " (
        transaction lib do t ← get_tables; put_tables (delete_board id t); pure (board_exists id t))
