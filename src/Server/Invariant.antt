-- ===== src/Server/Invariant.antt =====
-- What holds of the server's tables after any requests.
pub mod Rows
pub mod Steps
use hse_project_2026_chronos.Base.{ℕ, ◌≡◌, Bool, true, false, Option, none, some, List}
use hse_project_2026_chronos.Local.Table.{any_row, all_rows}
use hse_project_2026_chronos.Server.Rows.{Text, Board, Status, Task, board_error}
use hse_project_2026_chronos.Server.Tables.{Tables, NextIds, board_exists}
use hse_project_2026_chronos.Server.Steps.{status_on_board}
use hse_project_2026_chronos.Server.Selections.{ascending}

abbrev pub no_error : Option Text → Bool
no_error none = true
no_error (some t) = false

abbrev pub board_valid : Board → Bool
board_valid b = no_error (board_error b)

-- Ids are unique and below the next one; a status is on a board, and a task in a status of its own
-- board, which no constraint of the tables says; and no board makes a query throw.
pub record WellFormed (t : Tables) (n : NextIds) : Type 0 where
  pub boards_ascend : ascending (λ (b : Board). b.id) 1 t.boards n.board ≡ true
  pub statuses_ascend : ascending (λ (s : Status). s.id) 1 t.statuses n.status ≡ true
  pub tasks_ascend : ascending (λ (k : Task). k.id) 1 t.tasks n.task ≡ true
  pub statuses_on_boards : all_rows (λ s. board_exists s.board_id t) t.statuses ≡ true
  pub tasks_in_statuses :
      all_rows (λ k. status_on_board k.status_id k.board_id t.statuses) t.tasks ≡ true
  pub boards_valid : all_rows board_valid t.boards ≡ true
