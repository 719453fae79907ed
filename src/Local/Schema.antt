-- ===== src/Local/Schema.antt =====
-- frontend/sql/local_init.sql, the tables of boards, statuses and tasks: what the CHECK, UNIQUE, PRIMARY KEY and FOREIGN KEY constraints
-- refuse, what the `updated_at` triggers write, and what ON DELETE CASCADE removes. SQLite checks a
-- foreign key at the end of each statement, where the connection enforces foreign keys.
pub mod Updates
use hse_project_2026_chronos.Base.{
  Bool, true, not, ◌&&◌, ◌||◌, Option, none, some, List, [], ◌∷◌, ◌++◌, leb, if◌then◌else◌,
  is_empty, text_eq, length,
}
use hse_project_2026_chronos.Base.Int.{ℤ, pos, eq_ℤ, leb_ℤ}
use hse_project_2026_chronos.Local.Rows.{Env, LocalBoard, LocalStatus, LocalTask}
use hse_project_2026_chronos.Local.Table.{any_row, all_rows, update_where, delete_where}
use hse_project_2026_chronos.Local.Db.{Db}

abbrev pub has_board_id : ℤ → LocalBoard → Bool
has_board_id i b = eq_ℤ b.id i

abbrev pub has_status_id : ℤ → LocalStatus → Bool
has_status_id i s = eq_ℤ s.id i

abbrev pub has_task_id : ℤ → LocalTask → Bool
has_task_id i t = eq_ℤ t.id i

abbrev pub on_board : ℤ → LocalStatus → Bool
on_board i s = eq_ℤ s.board_id i

abbrev pub task_on_board : ℤ → LocalTask → Bool
task_on_board i t = eq_ℤ t.board_id i

abbrev pub in_status : ℤ → LocalTask → Bool
in_status i t = eq_ℤ t.status_id i

unfoldable pub board_checks : LocalBoard → Bool
board_checks b =
    leb 1 (length b.title) && leb (length b.title) 100 && leb (length b.description) 1000

unfoldable pub status_checks : LocalStatus → Bool
status_checks s = leb 1 (length s.name) && leb (length s.name) 50 && leb_ℤ (pos 0) s.position

unfoldable pub task_checks : LocalTask → Bool
task_checks t =
    leb 1 (length t.title)
    && leb (length t.title) 100
    && leb (length t.description) 1000
    && leb 1 (length t.priority_color)
    && leb (length t.priority_color) 50

-- UNIQUE (board_id, name).
unfoldable pub unique_names : List LocalStatus → Bool
unique_names [] = true
unique_names (s ∷ ss) =
    not (any_row (λ t. eq_ℤ t.board_id s.board_id && text_eq t.name s.name) ss) && unique_names ss

-- The triggers: an update that leaves `updated_at` as it was sets it to CURRENT_TIMESTAMP.
unfoldable pub touch_board : Env → LocalBoard → LocalBoard → LocalBoard
touch_board env old new =
    if text_eq new.updated_at old.updated_at then record new { updated_at = env.now_sql } else new

unfoldable pub touch_status : Env → LocalStatus → LocalStatus → LocalStatus
touch_status env old new =
    if text_eq new.updated_at old.updated_at then record new { updated_at = env.now_sql } else new

unfoldable pub touch_task : Env → LocalTask → LocalTask → LocalTask
touch_task env old new =
    if text_eq new.updated_at old.updated_at then record new { updated_at = env.now_sql } else new

-- The references of a row, where the connection enforces them. An update checks those that it sets.
unfoldable pub board_ref : Db → ℤ → Bool
board_ref db i = not db.foreign_keys || any_row (has_board_id i) db.boards

unfoldable pub status_ref : Db → ℤ → Bool
status_ref db i = not db.foreign_keys || any_row (has_status_id i) db.statuses

unfoldable pub task_refs : Db → LocalTask → Bool
unfolding board_ref status_ref
task_refs db t = board_ref db t.board_id && status_ref db t.status_id

unfoldable pub insert_into_boards : LocalBoard → Db → Option Db
insert_into_boards row db =
    if any_row (has_board_id row.id) db.boards || not (board_checks row)
    then none
    else some (record db { boards = db.boards ++ row ∷ [] })

unfoldable pub insert_into_statuses : LocalStatus → Db → Option Db
insert_into_statuses row db =
    if any_row (has_status_id row.id) db.statuses
      || not (status_checks row)
      || not (unique_names (db.statuses ++ row ∷ []))
      || not (board_ref db row.board_id)
    then none
    else some (record db { statuses = db.statuses ++ row ∷ [] })

unfoldable pub insert_into_tasks : LocalTask → Db → Option Db
insert_into_tasks row db =
    if any_row (has_task_id row.id) db.tasks || not (task_checks row) || not (task_refs db row)
    then none
    else some (record db { tasks = db.tasks ++ row ∷ [] })

-- UPDATE … SET … WHERE p, where the new values of a row are `f` of it and its id stays.
unfoldable pub update_boards :
    Env → (LocalBoard → Bool) → (LocalBoard → LocalBoard) → Db → Option Db
update_boards env p f db =
    if all_rows (λ b. not (p b) || board_checks (f b)) db.boards
    then some (record db { boards = update_where p (λ b. touch_board env b (f b)) db.boards })
    else none

abbrev pub updated_statuses :
    Env → (LocalStatus → Bool) → (LocalStatus → LocalStatus) → Db → List LocalStatus
updated_statuses env p f db = update_where p (λ s. touch_status env s (f s)) db.statuses

unfoldable pub update_statuses :
    Env
    → (Db → LocalStatus → Bool)
    → (LocalStatus → Bool)
    → (LocalStatus → LocalStatus)
    → Db
    → Option Db
update_statuses env refs p f db =
    if all_rows (λ s. not (p s) || status_checks (f s) && refs db (f s)) db.statuses
      && unique_names (updated_statuses env p f db)
    then some (record db { statuses = updated_statuses env p f db })
    else none

unfoldable pub update_tasks :
    Env → (Db → LocalTask → Bool) → (LocalTask → Bool) → (LocalTask → LocalTask) → Db → Option Db
update_tasks env refs p f db =
    if all_rows (λ t. not (p t) || task_checks (f t) && refs db (f t)) db.tasks
    then some (record db { tasks = update_where p (λ t. touch_task env t (f t)) db.tasks })
    else none

-- UPDATE … SET id = new WHERE id = old: the new id must be free, and where foreign keys are
-- enforced no row may refer to the id that goes away.
unfoldable pub rename_board : Env → ℤ → ℤ → Db → Option Db
rename_board env old new db =
    if any_row (has_board_id old) db.boards
      && not (eq_ℤ old new)
      && (any_row (has_board_id new) db.boards
          || db.foreign_keys
            && (any_row (on_board old) db.statuses || any_row (task_on_board old) db.tasks))
    then none
    else some (record db {
      boards =
          update_where (has_board_id old) (λ b. touch_board env b (record b { id = new }))
            db.boards;
    })

unfoldable pub rename_status : Env → ℤ → ℤ → Db → Option Db
rename_status env old new db =
    if any_row (has_status_id old) db.statuses
      && not (eq_ℤ old new)
      && (any_row (has_status_id new) db.statuses
          || db.foreign_keys && any_row (in_status old) db.tasks)
    then none
    else some (record db {
      statuses =
          update_where (has_status_id old) (λ s. touch_status env s (record s { id = new }))
            db.statuses;
    })

unfoldable pub rename_task : Env → ℤ → ℤ → Db → Option Db
rename_task env old new db =
    if any_row (has_task_id old) db.tasks
      && not (eq_ℤ old new)
      && any_row (has_task_id new) db.tasks
    then none
    else some (record db {
      tasks =
          update_where (has_task_id old) (λ t. touch_task env t (record t { id = new })) db.tasks;
    })

-- DELETE FROM boards WHERE id = :id, with the rows that go with it.
unfoldable pub delete_from_boards : ℤ → Db → Db
delete_from_boards i db =
    if db.foreign_keys && any_row (has_board_id i) db.boards
    then record db {
      boards = delete_where (has_board_id i) db.boards;
      statuses = delete_where (on_board i) db.statuses;
      tasks =
          delete_where
            (λ t.
              task_on_board i t
              || any_row (λ s. on_board i s && has_status_id t.status_id s) db.statuses)
            db.tasks;
    }
    else record db { boards = delete_where (has_board_id i) db.boards }

unfoldable pub delete_from_statuses : ℤ → Db → Db
delete_from_statuses i db =
    if db.foreign_keys && any_row (has_status_id i) db.statuses
    then record db {
      statuses = delete_where (has_status_id i) db.statuses;
      tasks = delete_where (in_status i) db.tasks;
    }
    else record db { statuses = delete_where (has_status_id i) db.statuses }
