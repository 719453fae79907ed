-- ===== src/Local/Boards.antt =====
-- frontend/local_repositories/local_board_repository.cpp.
pub mod Save
pub mod Moved
pub mod ReplaceId
use hse_project_2026_chronos.Base.{Option, none, some, List, if◌then◌else◌, is_empty}
use hse_project_2026_chronos.Base.Int.{ℤ}
use hse_project_2026_chronos.Local.Rows.{
  Env, pending, synced, is_pending, LocalBoard, processing_timestamp,
}
use hse_project_2026_chronos.Local.Ids.{min_id, next_local_id}
use hse_project_2026_chronos.Local.Schema.{
  has_board_id, on_board, board_ref, task_on_board, insert_into_boards, update_boards,
  update_statuses, update_tasks, rename_board, delete_from_boards,
}
use hse_project_2026_chronos.Local.Table.{find_row, select_where}
use hse_project_2026_chronos.Local.Db.{Db, M, ok, pure, throw, ◌>>=◌, ◌>>◌, exec_or_throw, and_then}

-- The columns that `insert` and `update` bind.
unfoldable pub insert_board_row : Env → LocalBoard → LocalBoard
insert_board_row env board =
    let created_at = processing_timestamp env board.created_at in
    let updated_at = if is_empty board.updated_at then created_at else board.updated_at in
    record board {
      title = env.trimmed board.title;
      created_at = created_at;
      updated_at = processing_timestamp env updated_at;
    }

unfoldable pub update_board_row : Env → LocalBoard → LocalBoard
update_board_row env board = record board {
  title = env.trimmed board.title;
  created_at = processing_timestamp env board.created_at;
  updated_at = processing_timestamp env board.updated_at;
}

unfoldable pub find_by_id : ℤ → M (Option LocalBoard)
find_by_id board_id db = (ok (find_row (has_board_id board_id) db.boards), db)

module _ (env : Env) where
  unfoldable pub insert : LocalBoard → M LocalBoard
  insert board =
      if is_empty (env.trimmed board.title)
      then throw
      else (exec_or_throw (insert_into_boards (insert_board_row env board))
          >> pure (insert_board_row env board))

  unfoldable pub update : LocalBoard → M LocalBoard
  update board =
      if is_empty (env.trimmed board.title)
      then throw
      else (exec_or_throw
            (update_boards env (has_board_id board.id) (λ _. update_board_row env board))
          >> pure board)

  -- `save` rethrows what `insert` or `update` throws, with another text.
  unfoldable pub save : LocalBoard → M LocalBoard
  unfolding find_by_id insert update
  save board =
      find_by_id board.id >>= λ found. elim found [ none ↦ insert board | some _ ↦ update board ]

  abbrev pub move_statuses : ℤ → ℤ → Db → Option Db
  move_statuses old_id new_id =
      update_statuses env (λ db s. board_ref db s.board_id) (on_board old_id)
        (λ s. record s { board_id = new_id })

  abbrev pub move_tasks : ℤ → ℤ → Db → Option Db
  move_tasks old_id new_id =
      update_tasks env (λ db t. board_ref db t.board_id) (task_on_board old_id)
        (λ t. record t { board_id = new_id })

  -- One transaction: a statement that fails rolls the ones before it back.
  unfoldable pub replace_id_transaction : ℤ → ℤ → Db → Option Db
  replace_id_transaction old_id new_id db =
      and_then (move_statuses old_id new_id db)
        (λ db'. and_then (move_tasks old_id new_id db') (rename_board env old_id new_id))

  unfoldable pub replace_id : ℤ → ℤ → M (Unit {0})
  replace_id old_id new_id = exec_or_throw (replace_id_transaction old_id new_id)

  unfoldable pub mark_deleted_by_id : ℤ → M (Unit {0})
  mark_deleted_by_id board_id = exec_or_throw (
      update_boards env (has_board_id board_id)
        (λ b. record b { deleted_at = env.now_sql; sync_status = pending }))

  unfoldable pub mark_synced : ℤ → M (Unit {0})
  mark_synced board_id =
      exec_or_throw
        (update_boards env (has_board_id board_id) (λ b. record b { sync_status = synced }))

unfoldable pub find_all : Db → List LocalBoard
find_all db = select_where (λ b. is_empty b.deleted_at) db.boards

-- ORDER BY id LIMIT 1 over the ids: the least one.
unfoldable pub find_first_board : Db → Option ℤ
unfolding find_all
find_first_board db = min_id (λ b. b.id) (find_all db)

unfoldable pub create_local_id : Db → ℤ
create_local_id db = next_local_id (min_id (λ b. b.id) db.boards)

unfoldable pub delete_by_id : ℤ → M (Unit {0})
delete_by_id board_id db = (ok tt, delete_from_boards board_id db)

unfoldable pub find_unsynced : Db → List LocalBoard
find_unsynced db = select_where (λ b. is_pending b.sync_status) db.boards
