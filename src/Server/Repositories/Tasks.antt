-- ===== src/Server/Repositories/Tasks.antt =====
-- backend/repositories/task_repository.cpp.
use hse_project_2026_chronos.Base.{
  ℕ, suc, Bool, not, ◌&&◌, ◌||◌, Option, none, some, List, ltb, ◌==◌, if◌then◌else◌,
}
use hse_project_2026_chronos.Local.Table.{find_row, any_row, select_where}
use hse_project_2026_chronos.Base.Int.{ℤ}
use hse_project_2026_chronos.Server.Rows.{Task, task_error}
use hse_project_2026_chronos.Server.Tables.{
  Tables, task_has_id, task_checks, board_exists, status_exists, add_task, edit_task, delete_task,
}
use hse_project_2026_chronos.Server.Http.{Libraries}
use hse_project_2026_chronos.Server.Action.{
  M, pure, sql_failure, fail_if, construct, get_world, get_tables, put_tables, transaction,
  rewrapping, nextval, ◌>>=◌, ◌>>◌,
}
use hse_project_2026_chronos.Server.Repositories.{construct_found, construct_all, order_by}
use hse_project_2026_chronos.Server.Repositories.Statuses.{owns}

-- ORDER BY created_at, id.
abbrev pub task_before : Task → Task → Bool
task_before a b = ltb a.created_at b.created_at || (a.created_at == b.created_at && ltb a.id b.id)

unfoldable pub next_task_id : M ℕ
next_task_id = nextval (λ n. n.task) (λ n. record n { task = suc n.task })

module _ (lib : Libraries) where
  abbrev pub stored : Option ℤ → Option ℤ
  stored none = none
  stored (some d) = some (lib.stored_deadline d)

  -- What the constraints of the table say of a row.
  unfoldable pub task_accepted : Task → Tables → Bool
  task_accepted row t =
      task_checks lib.char_length row
      && board_exists row.board_id t
      && status_exists row.status_id t

  -- INSERT INTO tasks ... RETURNING: the row, and the object with the deadline that was asked for.
  unfoldable pub insert_task_row : Task → M Task
  insert_task_row task = do
    id ← next_task_id
    w ← get_world
    let created = record task { id = id; created_at = w.now; updated_at = w.now }
    let row = record created { deadline = stored task.deadline }
    fail_if (not (task_accepted row w.tables)) sql_failure
    put_tables (add_task row w.tables)
    pure created

  unfoldable pub insert : Task → M Task
  insert task = do created ← transaction lib (insert_task_row task); construct task_error created

  -- UPDATE tasks ... WHERE id = $8, and the object that `update` returns.
  unfoldable pub update_task_rows : Task → M Task
  update_task_rows task = do
    w ← get_world
    let found = any_row (task_has_id task.id) w.tables.tasks
    let row = record task { deadline = stored task.deadline; updated_at = w.now }
    fail_if (found && not (task_accepted row w.tables)) sql_failure
    put_tables (edit_task row w.tables)
    pure (if found then record task { updated_at = w.now } else task)

  unfoldable pub update : Task → M Task
  update task = transaction lib (update_task_rows task)

  unfoldable pub save : Task → M Task
  save task =
      rewrapping lib "Failed to save Task: " (if task.id == 0 then insert task else update task)

  unfoldable pub find_by_id : ℕ → M (Option Task)
  find_by_id id = rewrapping lib "Failed to find Task: " do
    t ← transaction lib get_tables
    construct_found task_error (find_row (task_has_id id) t.tasks)

  unfoldable pub find_by_board_id : ℕ → M (List Task)
  find_by_board_id board_id = rewrapping lib "Failed to find Tasks by board id: " do
    t ← transaction lib get_tables
    construct_all task_error
        (order_by task_before (select_where (λ k. k.board_id == board_id) t.tasks))

  unfoldable pub find_by_user_id : ℕ → M (List Task)
  find_by_user_id user_id = rewrapping lib "Failed to find Tasks by user id: " do
    t ← transaction lib get_tables
    construct_all task_error
        (order_by task_before (select_where (λ k. owns user_id k.board_id t.boards) t.tasks))

  unfoldable pub find_by_board_and_status_id : ℕ → ℕ → M (List Task)
  find_by_board_and_status_id board_id status_id =
      rewrapping lib "Failed to find Tasks by board id and status id: " do
        t ← transaction lib get_tables
        construct_all task_error (
            order_by task_before
              (select_where (λ k. k.board_id == board_id && k.status_id == status_id) t.tasks))

  unfoldable pub delete_by_id : ℕ → M Bool
  delete_by_id id = rewrapping lib "Failed to delete Task: " (
      transaction lib
        do t ← get_tables; put_tables (delete_task id t); pure (any_row (task_has_id id) t.tasks))
