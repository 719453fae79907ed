-- ===== src/Local/Tests.antt =====
-- Runs of the repositories.
use hse_project_2026_chronos.Base.{◌≡◌, refl, true, false, some, map, if◌then◌else◌}
use hse_project_2026_chronos.Base.Int.{pos, negsuc, ltb_ℤ}
use hse_project_2026_chronos.Local.Table.{find_row, any_row, all_rows, select_where}
use hse_project_2026_chronos.Local.Schema.{
  has_board_id, has_status_id, has_task_id, on_board, task_on_board, board_checks, status_checks,
  task_checks, unique_names,
}
use hse_project_2026_chronos.Local.Db.{ok, thrown, is_ok}
use hse_project_2026_chronos.Local.Boards
use hse_project_2026_chronos.Local.Statuses
use hse_project_2026_chronos.Local.Tasks
use hse_project_2026_chronos.Local.Boards.Save.{saved_row, save_stores}
use hse_project_2026_chronos.Local.Boards.ReplaceId.{replace_id_refused, replace_id_moves}
use hse_project_2026_chronos.Local.Boards.Moved.{status_on, task_on}
use hse_project_2026_chronos.Local.NewIds.{create_local_id-fresh}
use hse_project_2026_chronos.Local.TestData.{morning, home_board, home}

home_has_status : any_row (on_board (negsuc 0)) (home (negsuc 0) true).statuses ≡ true
unfolding any_row
home_has_status = refl

home_has_no_other : any_row (has_board_id (pos 9)) (home (negsuc 0) true).boards ≡ false
unfolding any_row
home_has_no_other = refl

replace_id_refused_example :
    Boards.replace_id morning (negsuc 0) (pos 9) (home (negsuc 0) true)
    ≡ (thrown, home (negsuc 0) true)
replace_id_refused_example =
    replace_id_refused morning (negsuc 0) (pos 9) (home (negsuc 0) true) refl home_has_status
      home_has_no_other

home_statuses_checked : all_rows status_checks (home (negsuc 0) false).statuses ≡ true
unfolding all_rows status_checks
home_statuses_checked = refl

home_names_unique : unique_names (home (negsuc 0) false).statuses ≡ true
unfolding unique_names any_row
home_names_unique = refl

home_tasks_checked : all_rows task_checks (home (negsuc 0) false).tasks ≡ true
unfolding all_rows task_checks
home_tasks_checked = refl

home_found :
    find_row (has_board_id (negsuc 0)) (home (negsuc 0) false).boards ≡ some (home_board (negsuc 0))
unfolding find_row
home_found = refl

home_no_status : any_row (on_board (pos 9)) (home (negsuc 0) false).statuses ≡ false
unfolding any_row
home_no_status = refl

replace_id_moves_example :
    ((Boards.replace_id morning (negsuc 0) (pos 9) (home (negsuc 0) false)).0 ≡ ok tt)
    × (any_row
          (has_board_id (negsuc 0))
          (Boards.replace_id morning (negsuc 0) (pos 9) (home (negsuc 0) false)).1.boards
        ≡ false)
    × (any_row
          (on_board (negsuc 0))
          (Boards.replace_id morning (negsuc 0) (pos 9) (home (negsuc 0) false)).1.statuses
        ≡ false)
    × (any_row
          (task_on_board (negsuc 0))
          (Boards.replace_id morning (negsuc 0) (pos 9) (home (negsuc 0) false)).1.tasks
        ≡ false)
    × (select_where
          (on_board (pos 9))
          (Boards.replace_id morning (negsuc 0) (pos 9) (home (negsuc 0) false)).1.statuses
        ≡ map
            (status_on (pos 9) morning.now_sql)
            (select_where (on_board (negsuc 0)) (home (negsuc 0) false).statuses))
    × (find_row
          (has_board_id (pos 9))
          (Boards.replace_id morning (negsuc 0) (pos 9) (home (negsuc 0) false)).1.boards
        ≡ some (record (home_board (negsuc 0)) { id = pos 9; updated_at = morning.now_sql }))
    × ((Boards.replace_id morning (negsuc 0) (pos 9) (home (negsuc 0) false)).1.boards
        ≡ map
            (λ b.
              if has_board_id (negsuc 0) b
              then record b { id = pos 9; updated_at = morning.now_sql }
              else b)
            (home (negsuc 0) false).boards)
    × ((Boards.replace_id morning (negsuc 0) (pos 9) (home (negsuc 0) false)).1.statuses
        ≡ map
            (λ s. if on_board (negsuc 0) s then status_on (pos 9) morning.now_sql s else s)
            (home (negsuc 0) false).statuses)
    × ((Boards.replace_id morning (negsuc 0) (pos 9) (home (negsuc 0) false)).1.tasks
        ≡ map
            (λ t. if task_on_board (negsuc 0) t then task_on (pos 9) morning.now_sql t else t)
            (home (negsuc 0) false).tasks)
replace_id_moves_example =
    replace_id_moves morning (negsuc 0) (pos 9) (home (negsuc 0) false) (home_board (negsuc 0)) refl
      home_statuses_checked home_names_unique home_tasks_checked refl home_found home_has_no_other
      home_no_status

create_local_id-fresh_example :
    ((ltb_ℤ (Boards.create_local_id (home (pos 3) true)) (pos 0) ≡ true)
      × (any_row
            (has_board_id (Boards.create_local_id (home (pos 3) true)))
            (home (pos 3) true).boards
          ≡ false))
    × ((ltb_ℤ (Statuses.create_local_id (home (pos 3) true)) (pos 0) ≡ true)
        × (any_row
              (has_status_id (Statuses.create_local_id (home (pos 3) true)))
              (home (pos 3) true).statuses
            ≡ false))
    × ((ltb_ℤ (Tasks.create_local_id (home (pos 3) true)) (pos 0) ≡ true)
        × (any_row
              (has_task_id (Tasks.create_local_id (home (pos 3) true)))
              (home (pos 3) true).tasks
            ≡ false))
create_local_id-fresh_example = create_local_id-fresh (home (pos 3) true)

home_checked : board_checks (Boards.update_board_row morning (home_board (pos 3))) ≡ true
unfolding board_checks Boards.update_board_row
home_checked = refl

save_stores_example :
    (is_ok (Boards.save morning (home_board (pos 3)) (home (pos 3) true)).0 ≡ true)
    × (find_row
          (has_board_id (pos 3))
          (Boards.save morning (home_board (pos 3)) (home (pos 3) true)).1.boards
        ≡ some (
            saved_row morning
              (home_board (pos 3))
              (find_row (has_board_id (pos 3)) (home (pos 3) true).boards)))
    × (find_row
          (has_board_id (pos 4))
          (Boards.save morning (home_board (pos 3)) (home (pos 3) true)).1.boards
        ≡ find_row (has_board_id (pos 4)) (home (pos 3) true).boards)
    × ((Boards.save morning (home_board (pos 3)) (home (pos 3) true)).1.statuses
        ≡ (home (pos 3) true).statuses)
    × ((Boards.save morning (home_board (pos 3)) (home (pos 3) true)).1.tasks
        ≡ (home (pos 3) true).tasks)
save_stores_example =
    save_stores morning (home_board (pos 3)) (home (pos 3) true) refl (pos 4) refl home_checked
