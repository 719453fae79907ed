-- ===== src/Server/Steps.antt =====
-- What a request of a user may do to the tables, as a relation between the worlds before and after:
-- the specification that the handlers are proved to keep to.
pub mod Reads
pub mod Statuses
pub mod Tasks
pub mod Boards
pub mod Owned
pub mod BoardHandlers
pub mod StatusHandlers
pub mod TaskHandlers
pub mod QueryHandlers
use hse_project_2026_chronos.Base.{
  ℕ, ◌≡◌, ◌≤◌, ◌<◌, Bool, true, false, ◌&&◌, Option, none, some, List, [], ◌∷◌, ◌++◌, ◌==◌,
}
use hse_project_2026_chronos.Local.Table.{find_row, any_row, update_where, delete_where}
use hse_project_2026_chronos.Server.Rows.{Text, Board, Status, Task, board_error, bad_size}
use hse_project_2026_chronos.Server.Tables.{
  Tables, NextIds, board_has_id, status_has_id, task_has_id, name_taken, delete_board,
  delete_status, add_board, add_status, add_task, edit_board, edit_status, edit_task, delete_task,
}
use hse_project_2026_chronos.Server.Action.{World}
use hse_project_2026_chronos.Server.Action.Worlds.{Later, Idle, Fresh}
use hse_project_2026_chronos.Server.Repositories.Statuses.{owns}

-- There is a status of this id on this board.
unfoldable pub status_on_board : ℕ → ℕ → List Status → Bool
status_on_board status_id board_id statuses =
    any_row (λ s. s.id == status_id && s.board_id == board_id) statuses

-- One row is written, on a board of the user, or nothing is.
pub data Step (user : ℕ) (w w' : World) : Type 0 where
  idle : Idle w w' → Step user w w'
  board_added :
      (row : Board)
      → Fresh (λ n. n.board) w.next_ids w'.next_ids row.id
      → row.user_id ≡ user
      → board_error row ≡ none
      → w'.tables ≡ add_board row w.tables
      → Step user w w'
  status_added :
      (row : Status)
      → Fresh (λ n. n.status) w.next_ids w'.next_ids row.id
      → owns user row.board_id w.tables.boards ≡ true
      → bad_size 50 row.name ≡ false
      → name_taken row w.tables ≡ false
      → w'.tables ≡ add_status row w.tables
      → Step user w w'
  task_added :
      (row : Task)
      → Fresh (λ n. n.task) w.next_ids w'.next_ids row.id
      → owns user row.board_id w.tables.boards ≡ true
      → status_on_board row.status_id row.board_id w.tables.statuses ≡ true
      → w'.tables ≡ add_task row w.tables
      → Step user w w'
  board_edited :
      (old : Board) (row : Board)
      → Later w w'
      → find_row (board_has_id row.id) w.tables.boards ≡ some old
      → old.user_id ≡ user
      → row.user_id ≡ user
      → board_error row ≡ none
      → w'.tables ≡ edit_board row w.tables
      → Step user w w'
  status_edited :
      (old : Status) (row : Status)
      → Later w w'
      → find_row (status_has_id row.id) w.tables.statuses ≡ some old
      → owns user old.board_id w.tables.boards ≡ true
      → bad_size 50 row.name ≡ false
      → name_taken (record old { name = row.name; position = row.position }) w.tables ≡ false
      → w'.tables ≡ edit_status row w.tables
      → Step user w w'
  task_edited :
      (old : Task) (row : Task)
      → Later w w'
      → find_row (task_has_id row.id) w.tables.tasks ≡ some old
      → owns user old.board_id w.tables.boards ≡ true
      → row.board_id ≡ old.board_id
      → status_on_board row.status_id row.board_id w.tables.statuses ≡ true
      → w'.tables ≡ edit_task row w.tables
      → Step user w w'
  board_deleted :
      (old : Board) (id : ℕ)
      → Later w w'
      → find_row (board_has_id id) w.tables.boards ≡ some old
      → old.user_id ≡ user
      → w'.tables ≡ delete_board id w.tables
      → Step user w w'
  status_deleted :
      (old : Status) (id : ℕ)
      → Later w w'
      → find_row (status_has_id id) w.tables.statuses ≡ some old
      → owns user old.board_id w.tables.boards ≡ true
      → w'.tables ≡ delete_status id w.tables
      → Step user w w'
  task_deleted :
      (old : Task) (id : ℕ)
      → Later w w'
      → find_row (task_has_id id) w.tables.tasks ≡ some old
      → owns user old.board_id w.tables.boards ≡ true
      → w'.tables ≡ delete_task id w.tables
      → Step user w w'

pub data Steps (user : ℕ) : World → World → Type 0 where
  done : {w : World} → Steps user w w
  step : {u v w : World} → Step user u v → Steps user v w → Steps user u w

pub Steps-trans : {user : ℕ} {u v w : World} → Steps user u v → Steps user v w → Steps user u w
Steps-trans done r = r
Steps-trans (step s q) r = step s (Steps-trans q r)

pub Step-Later : {user : ℕ} {w w' : World} → Step user w w' → Later w w'
Step-Later (idle i) = i.later
Step-Later (board_added row fresh _ _ _) = fresh.later
Step-Later (status_added row fresh _ _ _ _) = fresh.later
Step-Later (task_added row fresh _ _ _) = fresh.later
Step-Later (board_edited _ _ l _ _ _ _ _) = l
Step-Later (status_edited _ _ l _ _ _ _ _) = l
Step-Later (task_edited _ _ l _ _ _ _ _) = l
Step-Later (board_deleted _ _ l _ _ _) = l
Step-Later (status_deleted _ _ l _ _ _) = l
Step-Later (task_deleted _ _ l _ _ _) = l
