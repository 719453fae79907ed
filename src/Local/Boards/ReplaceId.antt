-- ===== src/Local/Boards/ReplaceId.antt =====
-- What `LocalBoardRepository::replaceId` does to the rows of a board, with foreign keys enforced
-- and without.
use hse_project_2026_chronos.Base.{
  ◌≡◌, refl, ◌∙◌, ap, true, false, not, ◌&&◌, ◌||◌, none, some, List, [], ◌∷◌, Bool, if◌then◌else◌,
  map, arith,
}
use hse_project_2026_chronos.Base.Int.{ℤ, eq_ℤ, eq_ℤ_iff}
use hse_project_2026_chronos.Local.Rows.{Env, LocalBoard, LocalStatus, LocalTask}
use hse_project_2026_chronos.Local.Table.{
  find_row, any_row, all_rows, select_where, update_where, all_rows-eq-false, all_rows_mono,
  any_row-update_where_gone, select_where-update_where, find_row-update_where_moved,
}
use hse_project_2026_chronos.Local.Schema.{
  has_board_id, on_board, task_on_board, board_ref, status_checks, task_checks, unique_names,
  rename_board,
}
use hse_project_2026_chronos.Local.Schema.Updates.{
  update_statuses-eq-none, update_statuses-eq-some, update_tasks-eq-some,
}
use hse_project_2026_chronos.Local.Db.{
  Db, ok, thrown, exec_or_throw-none, exec_or_throw-some, and_then,
}
use hse_project_2026_chronos.Local.Boards.{
  move_statuses, move_tasks, replace_id_transaction, replace_id,
}
use hse_project_2026_chronos.Local.Boards.Moved.{
  moved_status, status_on, task_on, moved_task, renamed_board, status-moved, task-moved,
  board-renamed, on_board-moved, task_on_board-moved, on_new-moved, unique_names-moved,
}

module _ (env : Env) (old new : ℤ) where
  statuses_refused :
      (db : Db)
      → db.foreign_keys ≡ true
      → any_row (has_board_id new) db.boards ≡ false
      → (s : LocalStatus) → on_board old s ≡ true
      → (not (on_board old s) || status_checks (record s { board_id = new }) && board_ref db new)
        ≡ false
  unfolding board_ref
  statuses_refused db fk gone s h = ground arith

  transaction_refused :
      (db : Db) → move_statuses env old new db ≡ none → replace_id_transaction env old new db ≡ none
  unfolding replace_id_transaction
  transaction_refused db h = rw (h, and_then)

  -- With foreign keys enforced, a board that has a status cannot take an id that no board has:
  -- the first statement would let the statuses refer to a board that is not there yet, so the
  -- call throws and the database stays as it was.
  pub replace_id_refused :
      (db : Db)
      → db.foreign_keys ≡ true
      → any_row (on_board old) db.statuses ≡ true
      → any_row (has_board_id new) db.boards ≡ false
      → replace_id env old new db ≡ (thrown, db)
  unfolding replace_id
  replace_id_refused db fk has_status gone =
      exec_or_throw-none (replace_id_transaction env old new) db (
        transaction_refused db (
          update_statuses-eq-none env (λ d s. board_ref d s.board_id) (on_board old)
            (λ s. record s { board_id = new }) db
            (all_rows-eq-false (on_board old) _ (statuses_refused db fk gone) db.statuses
              has_status)))

  -- The tables after the call, where it succeeds.
  abbrev moved_db : Db → Db
  moved_db db = record db {
    boards = update_where (has_board_id old) (renamed_board env new) db.boards;
    statuses = update_where (on_board old) (moved_status env new) db.statuses;
    tasks = update_where (task_on_board old) (moved_task env new) db.tasks;
  }

  board-gone :
      eq_ℤ old new ≡ false → (b : LocalBoard) → has_board_id old (renamed_board env new b) ≡ false
  board-gone h b =
      rw (board-renamed env old new b) (grind (arith, eq_ℤ_iff old new, eq_ℤ_iff new old))

  board-here : (b : LocalBoard) → has_board_id new (renamed_board env new b) ≡ true
  board-here b = rw (board-renamed env old new b) ((eq_ℤ_iff new new).1 refl)

  status_passes :
      (db : Db)
      → db.foreign_keys ≡ false
      → (s : LocalStatus) → status_checks s ≡ true
      → (not (on_board old s) || status_checks (record s { board_id = new }) && board_ref db new)
        ≡ true
  unfolding status_checks board_ref
  status_passes db off s h = ground (arith, off, h)

  task_passes :
      (db : Db)
      → db.foreign_keys ≡ false
      → (t : LocalTask) → task_checks t ≡ true
      → (not (task_on_board old t) || task_checks (record t { board_id = new }) && board_ref db new)
        ≡ true
  unfolding task_checks board_ref
  task_passes db off t h = ground (arith, off, h)

  move_statuses-eq :
      (db : Db)
      → db.foreign_keys ≡ false
      → all_rows status_checks db.statuses ≡ true
      → unique_names db.statuses ≡ true
      → any_row (on_board new) db.statuses ≡ false
      → move_statuses env old new db
        ≡ some (record db {
          statuses = update_where (on_board old) (moved_status env new) db.statuses;
        })
  move_statuses-eq db off checks unique free =
      update_statuses-eq-some env (λ d s. board_ref d s.board_id) (on_board old)
        (λ s. record s { board_id = new }) db
        (all_rows_mono status_checks
          (λ s.
            not (on_board old s) || status_checks (record s { board_id = new }) && board_ref db new)
          (status_passes db off) db.statuses checks)
        (unique_names-moved env old new db.statuses free unique)

  move_tasks-eq :
      (db : Db)
      → db.foreign_keys ≡ false
      → all_rows task_checks db.tasks ≡ true
      → move_tasks env old new db
        ≡ some
            (record db { tasks = update_where (task_on_board old) (moved_task env new) db.tasks })
  move_tasks-eq db off checks =
      update_tasks-eq-some env (λ d t. board_ref d t.board_id) (task_on_board old)
        (λ t. record t { board_id = new }) db
        (all_rows_mono task_checks
          (λ t.
            not (task_on_board old t)
            || task_checks (record t { board_id = new }) && board_ref db new)
          (task_passes db off) db.tasks checks)

  rename_board-eq :
      (db : Db)
      → db.foreign_keys ≡ false
      → any_row (has_board_id new) db.boards ≡ false
      → rename_board env old new db
        ≡ some (record db {
          boards = update_where (has_board_id old) (renamed_board env new) db.boards;
        })
  unfolding rename_board
  rename_board-eq db off free = ground (arith, off, free)

  transaction-eq :
      (db : Db)
      → db.foreign_keys ≡ false
      → all_rows status_checks db.statuses ≡ true
      → unique_names db.statuses ≡ true
      → all_rows task_checks db.tasks ≡ true
      → any_row (has_board_id new) db.boards ≡ false
      → any_row (on_board new) db.statuses ≡ false
      → replace_id_transaction env old new db ≡ some (moved_db db)
  unfolding replace_id_transaction
  transaction-eq db off checks unique task_rows free no_status =
      rw (move_statuses-eq db off checks unique no_status, and_then)
        (rw
          (
            move_tasks-eq
                (record db {
                  statuses = update_where (on_board old) (moved_status env new) db.statuses;
                })
                off task_rows,
            and_then,
          )
          (rename_board-eq _ off free))

  -- An update as a loop over the rows.
  update_where-map :
      {A : Type 0} (p : A → Bool) (f g : A → A)
      → ((x : A) → f x ≡ g x)
      → (xs : List A) → update_where p f xs ≡ map (λ x. if p x then g x else x) xs
  unfolding update_where
  update_where-map p f g same [] = refl
  update_where-map p f g same (x ∷ xs) =
      rw (same x) (ap (λ rest. (if p x then g x else x) ∷ rest) (update_where-map p f g same xs))

  -- Without foreign keys enforced, where the statuses and tasks satisfy their checks and the
  -- names of the statuses are unique, a board takes a new id that no board and no status uses,
  -- and its statuses and tasks go with it: afterwards nothing refers to the old id, the statuses
  -- of the new id are the old ones, the board is found under its new id, and of every board, status
  -- and task row of the old id only that id and the time of the change are different, while every
  -- other row is as it was.
  pub replace_id_moves :
      (db : Db) (b : LocalBoard)
      → db.foreign_keys ≡ false
      → all_rows status_checks db.statuses ≡ true
      → unique_names db.statuses ≡ true
      → all_rows task_checks db.tasks ≡ true
      → eq_ℤ old new ≡ false
      → find_row (has_board_id old) db.boards ≡ some b
      → any_row (has_board_id new) db.boards ≡ false
      → any_row (on_board new) db.statuses ≡ false
      → ((replace_id env old new db).0 ≡ ok tt)
        × (any_row (has_board_id old) (replace_id env old new db).1.boards ≡ false)
        × (any_row (on_board old) (replace_id env old new db).1.statuses ≡ false)
        × (any_row (task_on_board old) (replace_id env old new db).1.tasks ≡ false)
        × (select_where (on_board new) (replace_id env old new db).1.statuses
            ≡ map (status_on new env.now_sql) (select_where (on_board old) db.statuses))
        × (find_row (has_board_id new) (replace_id env old new db).1.boards
            ≡ some (record b { id = new; updated_at = env.now_sql }))
        × ((replace_id env old new db).1.boards
            ≡ map
                (λ b.
                  if has_board_id old b then record b { id = new; updated_at = env.now_sql } else b)
                db.boards)
        × ((replace_id env old new db).1.statuses
            ≡ map (λ s. if on_board old s then status_on new env.now_sql s else s) db.statuses)
        × ((replace_id env old new db).1.tasks
            ≡ map (λ t. if task_on_board old t then task_on new env.now_sql t else t) db.tasks)
  unfolding replace_id
  replace_id_moves db b off checks unique task_rows apart found free no_status =
      rw
        (exec_or_throw-some (replace_id_transaction env old new) db (moved_db db)
          (transaction-eq db off checks unique task_rows free no_status))
        (
          refl,
          any_row-update_where_gone (has_board_id old) (renamed_board env new) (board-gone apart)
              db.boards,
          any_row-update_where_gone (on_board old) (moved_status env new)
              (on_board-moved env old new apart) db.statuses,
          any_row-update_where_gone (task_on_board old) (moved_task env new)
              (task_on_board-moved env old new apart) db.tasks,
          (select_where-update_where (on_board old) (on_board new) (moved_status env new)
                (on_new-moved env old new) db.statuses no_status
              ∙ ap (λ f. map f (select_where (on_board old) db.statuses))
                  (λ i s. status-moved env old new s i)),
          (find_row-update_where_moved (has_board_id old) (has_board_id new) (renamed_board env new)
                board-here db.boards b found free
              ∙ ap some (board-renamed env old new b)),
          update_where-map (has_board_id old) (renamed_board env new)
              (λ b. record b { id = new; updated_at = env.now_sql }) (board-renamed env old new)
              db.boards,
          update_where-map (on_board old) (moved_status env new) (status_on new env.now_sql)
              (status-moved env old new) db.statuses,
          update_where-map (task_on_board old) (moved_task env new) (task_on new env.now_sql)
              (task-moved env old new) db.tasks,
        )
