-- ===== src/Local/Tasks.antt =====
-- frontend/local_repositories/local_task_repository.cpp.
use hse_project_2026_chronos.Base.{
  Bool, true, ◌&&◌, Option, none, some, List, if◌then◌else◌, is_empty,
}
use hse_project_2026_chronos.Base.Int.{ℤ}
use hse_project_2026_chronos.Local.Rows.{
  Env, pending, synced, is_pending, LocalTask, processing_timestamp,
}
use hse_project_2026_chronos.Local.Ids.{min_id, next_local_id}
use hse_project_2026_chronos.Local.Table.{find_row, any_row, select_where, delete_where}
use hse_project_2026_chronos.Local.Schema.{
  has_status_id, has_task_id, task_on_board, task_refs, insert_into_tasks, update_tasks,
  rename_task,
}
use hse_project_2026_chronos.Local.Db.{Db, M, ok, pure, throw, ◌>>=◌, ◌>>◌, exec_or_throw}

-- The columns that `insert` and `update` bind.
unfoldable pub insert_task_row : Env → LocalTask → LocalTask
insert_task_row env task =
    let created_at = processing_timestamp env task.created_at in
    let updated_at = if is_empty task.updated_at then created_at else task.updated_at in
    record task {
      title = env.trimmed task.title;
      created_at = created_at;
      updated_at = processing_timestamp env updated_at;
    }

unfoldable pub update_task_row : Env → LocalTask → LocalTask
update_task_row env task = record task {
  title = env.trimmed task.title;
  created_at = processing_timestamp env task.created_at;
  updated_at = processing_timestamp env task.updated_at;
}

unfoldable pub find_by_id : ℤ → M (Option LocalTask)
find_by_id task_id db = (ok (find_row (has_task_id task_id) db.tasks), db)

module _ (env : Env) where
  unfoldable pub insert : LocalTask → M LocalTask
  insert task =
      if is_empty (env.trimmed task.title)
      then throw
      else (exec_or_throw (insert_into_tasks (insert_task_row env task))
          >> pure (insert_task_row env task))

  unfoldable pub update : LocalTask → M LocalTask
  update task =
      if is_empty (env.trimmed task.title)
      then throw
      else (exec_or_throw
            (update_tasks env task_refs (has_task_id task.id) (λ _. update_task_row env task))
          >> pure task)

  -- `save` rethrows what `insert` or `update` throws, with another text.
  unfoldable pub save : LocalTask → M LocalTask
  unfolding find_by_id insert update
  save task =
      find_by_id task.id >>= λ found. elim found [ none ↦ insert task | some _ ↦ update task ]

  unfoldable pub replace_id : ℤ → ℤ → M (Unit {0})
  replace_id old_id new_id = exec_or_throw (rename_task env old_id new_id)

  unfoldable pub mark_deleted_by_id : ℤ → M (Unit {0})
  mark_deleted_by_id task_id = exec_or_throw (
      update_tasks env (λ _ _. true) (has_task_id task_id)
        (λ t. record t { deleted_at = env.now_sql; sync_status = pending }))

  unfoldable pub mark_synced : ℤ → M (Unit {0})
  mark_synced task_id = exec_or_throw (
      update_tasks env (λ _ _. true) (has_task_id task_id) (λ r. record r { sync_status = synced }))

-- JOIN statuses s ON s.id = t.status_id, where the column is not deleted.
abbrev status_is_live : Db → LocalTask → Bool
status_is_live db t =
    any_row (λ s. has_status_id t.status_id s && is_empty s.deleted_at) db.statuses

unfoldable pub find_all : Db → List LocalTask
find_all db = select_where (λ t. is_empty t.deleted_at && status_is_live db t) db.tasks

unfoldable pub find_by_board_id : ℤ → Db → List LocalTask
find_by_board_id board_id db =
    select_where (λ t. task_on_board board_id t && (is_empty t.deleted_at && status_is_live db t))
      db.tasks

unfoldable pub create_local_id : Db → ℤ
create_local_id db = next_local_id (min_id (λ r. r.id) db.tasks)

unfoldable pub delete_by_id : ℤ → M (Unit {0})
delete_by_id task_id db = (ok tt, record db { tasks = delete_where (has_task_id task_id) db.tasks })

unfoldable pub find_unsynced : Db → List LocalTask
find_unsynced db = select_where (λ r. is_pending r.sync_status) db.tasks
