-- ===== src/Forms/Tests.antt =====
-- Runs of the forms.
use hse_project_2026_chronos.Base.{◌≡◌, ◌↔◌, refl, true, false, none, some, [], codes}
use hse_project_2026_chronos.Base.Int.{pos, eq_ℤ}
use hse_project_2026_chronos.Local.Rows.{LocalBoard, pending}
use hse_project_2026_chronos.Local.Table.{find_row}
use hse_project_2026_chronos.Local.Ids.{min_id, next_local_id}
use hse_project_2026_chronos.Local.Schema.{has_board_id, board_checks, status_checks, task_checks}
use hse_project_2026_chronos.Local.Db.{ok}
use hse_project_2026_chronos.Local.Boards.{create_local_id}
use hse_project_2026_chronos.Local.TestData.{morning, home_board, todo_status, dishes_task, home}
use hse_project_2026_chronos.Forms.{
  validate_board_fields, validate_status_name, validate_task_fields, created, create_board,
}
use hse_project_2026_chronos.Forms.Fields.{all_basic, validate-checks}
use hse_project_2026_chronos.Forms.CreateBoard.{create_board_stores}

validate-checks_example :
    ((validate_board_fields morning (codes "Garden") [] ≡ none) ↔ (
      board_checks (record (home_board (pos 3)) { title = codes "Garden"; description = [] })
      ≡ true))
    × ((validate_status_name morning (codes "Garden") ≡ none)
        ↔ (status_checks (record (todo_status (pos 7) (pos 3)) { name = codes "Garden" }) ≡ true))
    × ((validate_task_fields morning (codes "Garden") [] ≡ none) ↔ (
        task_checks (record (dishes_task (pos 1) (pos 3) (pos 7)) {
          title = codes "Garden";
          description = [];
        })
        ≡ true))
unfolding all_basic
validate-checks_example =
    validate-checks morning (codes "Garden") [] (home_board (pos 3)) (todo_status (pos 7) (pos 3))
      (dishes_task (pos 1) (pos 3) (pos 7)) refl refl refl refl

garden_accepted : validate_board_fields morning (codes "Garden") [] ≡ none
unfolding validate_board_fields
garden_accepted = refl

garden_apart : eq_ℤ (create_local_id (home (pos 3) true)) (pos 3) ≡ false
unfolding create_local_id min_id next_local_id
garden_apart = refl

create_board_stores_example :
    ((create_board morning (pos 5) (codes "Garden") [] (home (pos 3) true)).0 ≡ ok created)
    × ((stored : LocalBoard) × (find_row
            (has_board_id (create_local_id (home (pos 3) true)))
            (create_board morning (pos 5) (codes "Garden") [] (home (pos 3) true)).1.boards
          ≡ some stored)
        × (stored.user_id ≡ pos 5)
        × (stored.title ≡ codes "Garden")
        × (stored.description ≡ [])
        × (stored.sync_status ≡ pending)
        × (stored.server_version ≡ pos 0))
    × (find_row
          (has_board_id (pos 3))
          (create_board morning (pos 5) (codes "Garden") [] (home (pos 3) true)).1.boards
        ≡ find_row (has_board_id (pos 3)) (home (pos 3) true).boards)
    × ((create_board morning (pos 5) (codes "Garden") [] (home (pos 3) true)).1.statuses
        ≡ (home (pos 3) true).statuses)
    × ((create_board morning (pos 5) (codes "Garden") [] (home (pos 3) true)).1.tasks
        ≡ (home (pos 3) true).tasks)
create_board_stores_example =
    create_board_stores morning (pos 5) (codes "Garden") [] (home (pos 3) true) refl refl refl
      garden_accepted (pos 3) garden_apart
