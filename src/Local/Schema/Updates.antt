-- ===== src/Local/Schema/Updates.antt =====
-- When the statements of frontend/sql/local_init.sql's tables succeed, and with what tables.
use hse_project_2026_chronos.Base.{
  ◌≡◌, Bool, true, false, not, ◌&&◌, ◌||◌, none, some, [], ◌∷◌, ◌++◌, text_eq_iff,
}
use hse_project_2026_chronos.Local.Rows.{Env, LocalBoard, LocalStatus, LocalTask}
use hse_project_2026_chronos.Local.Table.{any_row, all_rows, update_where}
use hse_project_2026_chronos.Local.Schema.{
  has_board_id, board_checks, status_checks, task_checks, unique_names, touch_board, touch_status,
  touch_task, update_boards, update_statuses, updated_statuses, update_tasks, insert_into_boards,
}
use hse_project_2026_chronos.Local.Db.{Db}

module _ (env : Env) where
  -- A statement that leaves `updated_at` as it was has the time now written there.
  pub touch_status-same :
      (s new : LocalStatus)
      → new.updated_at ≡ s.updated_at
      → touch_status env s new ≡ record new { updated_at = env.now_sql }
  unfolding touch_status
  touch_status-same s new h = rw ((text_eq_iff new.updated_at s.updated_at).1 h)

  pub touch_task-same :
      (t new : LocalTask)
      → new.updated_at ≡ t.updated_at
      → touch_task env t new ≡ record new { updated_at = env.now_sql }
  unfolding touch_task
  touch_task-same t new h = rw ((text_eq_iff new.updated_at t.updated_at).1 h)

  pub touch_board-same :
      (b new : LocalBoard)
      → new.updated_at ≡ b.updated_at
      → touch_board env b new ≡ record new { updated_at = env.now_sql }
  unfolding touch_board
  touch_board-same b new h = rw ((text_eq_iff new.updated_at b.updated_at).1 h)

  module _ (refs : Db → LocalStatus → Bool) (p : LocalStatus → Bool)
      (f : LocalStatus → LocalStatus) where
    pub update_statuses-eq-none :
        (db : Db)
        → all_rows (λ s. not (p s) || status_checks (f s) && refs db (f s)) db.statuses ≡ false
        → update_statuses env refs p f db ≡ none
    unfolding update_statuses
    update_statuses-eq-none db h = rw h

    pub update_statuses-eq-some :
        (db : Db)
        → all_rows (λ s. not (p s) || status_checks (f s) && refs db (f s)) db.statuses ≡ true
        → unique_names (updated_statuses env p f db) ≡ true
        → update_statuses env refs p f db
          ≡ some
              (record db { statuses = update_where p (λ s. touch_status env s (f s)) db.statuses })
    unfolding update_statuses
    update_statuses-eq-some db h k = rw (h, k)

  module _ (refs : Db → LocalTask → Bool) (p : LocalTask → Bool) (f : LocalTask → LocalTask) where
    pub update_tasks-eq-some :
        (db : Db)
        → all_rows (λ t. not (p t) || task_checks (f t) && refs db (f t)) db.tasks ≡ true
        → update_tasks env refs p f db
          ≡ some (record db { tasks = update_where p (λ t. touch_task env t (f t)) db.tasks })
    unfolding update_tasks
    update_tasks-eq-some db h = rw h

pub insert_into_boards-eq-some :
    (row : LocalBoard) (db : Db)
    → any_row (has_board_id row.id) db.boards ≡ false
    → board_checks row ≡ true
    → insert_into_boards row db ≡ some (record db { boards = db.boards ++ row ∷ [] })
unfolding insert_into_boards
insert_into_boards-eq-some row db free checks = rw (free, checks)

pub update_boards-eq-some :
    (env : Env) (p : LocalBoard → Bool) (f : LocalBoard → LocalBoard) (db : Db)
    → all_rows (λ b. not (p b) || board_checks (f b)) db.boards ≡ true
    → update_boards env p f db
      ≡ some (record db { boards = update_where p (λ b. touch_board env b (f b)) db.boards })
unfolding update_boards
update_boards-eq-some env p f db h = rw h
