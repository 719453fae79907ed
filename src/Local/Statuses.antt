-- ===== src/Local/Statuses.antt =====
-- frontend/local_repositories/local_status_repository.cpp.
use hse_project_2026_chronos.Base.{
  true, ◌&&◌, Option, none, some, List, [], ◌∷◌, if◌then◌else◌, is_empty,
}
use hse_project_2026_chronos.Base.Int.{ℤ, leb_ℤ}
use hse_project_2026_chronos.Local.Rows.{
  Env, pending, synced, is_pending, LocalStatus, processing_timestamp,
}
use hse_project_2026_chronos.Local.Ids.{min_id, next_local_id}
use hse_project_2026_chronos.Local.Table.{find_row, select_where, delete_where}
use hse_project_2026_chronos.Local.Schema.{
  has_status_id, on_board, in_status, board_ref, status_ref, insert_into_statuses, update_statuses,
  update_tasks, rename_status, delete_from_statuses,
}
use hse_project_2026_chronos.Local.Db.{Db, M, ok, pure, throw, ◌>>=◌, ◌>>◌, exec_or_throw, and_then}

-- The columns that `insert` and `update` bind.
unfoldable pub insert_status_row : Env → LocalStatus → LocalStatus
insert_status_row env status =
    let created_at = processing_timestamp env status.created_at in
    let updated_at = if is_empty status.updated_at then created_at else status.updated_at in
    record status {
      name = env.trimmed status.name;
      created_at = created_at;
      updated_at = processing_timestamp env updated_at;
    }

unfoldable pub update_status_row : Env → LocalStatus → LocalStatus
update_status_row env status = record status {
  name = env.trimmed status.name;
  created_at = processing_timestamp env status.created_at;
  updated_at = processing_timestamp env status.updated_at;
}

unfoldable pub find_by_id : ℤ → M (Option LocalStatus)
find_by_id status_id db = (ok (find_row (has_status_id status_id) db.statuses), db)

module _ (env : Env) where
  unfoldable pub insert : LocalStatus → M LocalStatus
  insert status =
      if is_empty (env.trimmed status.name)
      then throw
      else (exec_or_throw (insert_into_statuses (insert_status_row env status))
          >> pure (insert_status_row env status))

  unfoldable pub update : LocalStatus → M LocalStatus
  update status =
      if is_empty (env.trimmed status.name)
      then throw
      else (exec_or_throw (
            update_statuses env (λ d s. board_ref d s.board_id) (has_status_id status.id)
              (λ _. update_status_row env status))
          >> pure status)

  -- `save` rethrows what `insert` or `update` throws, with another text.
  unfoldable pub save : LocalStatus → M LocalStatus
  unfolding find_by_id insert update
  save status =
      find_by_id status.id >>= λ found. elim found [ none ↦ insert status | some _ ↦ update status ]

  -- One transaction: a statement that fails rolls the ones before it back.
  unfoldable pub replace_id : ℤ → ℤ → M (Unit {0})
  replace_id old_id new_id = exec_or_throw λ db.
      and_then
        (update_tasks env (λ d t. status_ref d t.status_id) (in_status old_id)
          (λ t. record t { status_id = new_id }) db)
        (rename_status env old_id new_id)

  -- The tasks of the column go at once, with no trace for the server.
  unfoldable pub mark_deleted_by_id : ℤ → M (Unit {0})
  mark_deleted_by_id status_id = exec_or_throw λ db.
      update_statuses env (λ _ _. true) (has_status_id status_id)
        (λ s. record s { deleted_at = env.now_sql; sync_status = pending })
        (record db { tasks = delete_where (in_status status_id) db.tasks })

  unfoldable pub mark_synced : ℤ → M (Unit {0})
  mark_synced status_id = exec_or_throw (
      update_statuses env (λ _ _. true) (has_status_id status_id)
        (λ r. record r { sync_status = synced }))

-- ORDER BY position.
insert_by_position : LocalStatus → List LocalStatus → List LocalStatus
insert_by_position s [] = s ∷ []
insert_by_position s (t ∷ ts) =
    if leb_ℤ s.position t.position then s ∷ t ∷ ts else t ∷ insert_by_position s ts

order_by_position : List LocalStatus → List LocalStatus
unfolding insert_by_position
order_by_position [] = []
order_by_position (s ∷ ss) = insert_by_position s (order_by_position ss)

unfoldable pub find_by_board_id : ℤ → Db → List LocalStatus
unfolding order_by_position
find_by_board_id board_id db =
    order_by_position (select_where (λ s. on_board board_id s && is_empty s.deleted_at) db.statuses)

unfoldable pub create_local_id : Db → ℤ
create_local_id db = next_local_id (min_id (λ r. r.id) db.statuses)

unfoldable pub delete_by_id : ℤ → M (Unit {0})
delete_by_id status_id db = (ok tt, delete_from_statuses status_id db)

unfoldable pub find_unsynced : Db → List LocalStatus
find_unsynced db = select_where (λ r. is_pending r.sync_status) db.statuses
