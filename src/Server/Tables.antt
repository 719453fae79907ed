-- ===== src/Server/Tables.antt =====
-- backend/migrations/init.sql: the tables of PostgreSQL, their constraints and their cascades.
use hse_project_2026_chronos.Base.{
  ℕ, Bool, not, ◌&&◌, ◌||◌, List, [], ◌∷◌, ◌++◌, leb, ◌==◌, is_empty, text_eq,
}
use hse_project_2026_chronos.Local.Table.{any_row, update_where, delete_where}
use hse_project_2026_chronos.Server.Rows.{
  Text, Board, Status, Task, PomodoroSession, User, goal_is_zero,
}

pub record Tables : Type 0 where
  pub users : List User
  pub boards : List Board
  pub statuses : List Status
  pub tasks : List Task
  pub sessions : List PomodoroSession

-- The next value of the sequence behind each SERIAL column.
pub record NextIds : Type 0 where
  pub user : ℕ
  pub board : ℕ
  pub status : ℕ
  pub task : ℕ
  pub session : ℕ

abbrev pub user_has_id : ℕ → User → Bool
user_has_id id u = u.id == id

abbrev pub board_has_id : ℕ → Board → Bool
board_has_id id b = b.id == id

abbrev pub status_has_id : ℕ → Status → Bool
status_has_id id s = s.id == id

abbrev pub task_has_id : ℕ → Task → Bool
task_has_id id t = t.id == id

-- CHECK constraints and lengths of columns; `char_length` counts the characters of a text.
module _ (char_length : Text → ℕ) where
  abbrev pub has_length : ℕ → ℕ → Text → Bool
  has_length least most t = leb least (char_length t) && leb (char_length t) most

  unfoldable pub user_checks : User → Bool
  user_checks u =
      not (is_empty u.email)
      && leb (char_length u.email) 255
      && has_length 1 50 u.name
      && has_length 1 255 u.status
      && not (is_empty u.password_hash)
      && leb (char_length u.password_hash) 255
      && leb (char_length u.avatar_s3_key) 512

  unfoldable pub board_checks : Board → Bool
  board_checks b = has_length 1 100 b.title && leb (char_length b.description) 1000

  unfoldable pub status_checks : Status → Bool
  status_checks s = has_length 1 50 s.name

  unfoldable pub task_checks : Task → Bool
  task_checks t =
      has_length 1 100 t.title
      && leb (char_length t.description) 1000
      && has_length 1 50 t.priority_color

unfoldable pub session_checks : PomodoroSession → Bool
session_checks s =
    not (goal_is_zero s.goal_minutes)
    && not (s.work_duration_seconds == 0)
    && not (s.break_duration_seconds == 0)

-- UNIQUE (email) and UNIQUE (board_id, name): a row with another id has the value.
unfoldable pub email_taken : User → Tables → Bool
email_taken u t = any_row (λ v. not (v.id == u.id) && text_eq v.email u.email) t.users

abbrev pub has_board_and_name : ℕ → Text → Status → Bool
has_board_and_name board_id name s = s.board_id == board_id && text_eq s.name name

unfoldable pub name_taken : Status → Tables → Bool
name_taken s t =
    any_row (λ r. not (r.id == s.id) && has_board_and_name s.board_id s.name r) t.statuses

-- Foreign keys.
unfoldable pub user_exists : ℕ → Tables → Bool
user_exists id t = any_row (user_has_id id) t.users

unfoldable pub board_exists : ℕ → Tables → Bool
board_exists id t = any_row (board_has_id id) t.boards

unfoldable pub status_exists : ℕ → Tables → Bool
status_exists id t = any_row (status_has_id id) t.statuses

-- DELETE with ON DELETE CASCADE.
unfoldable pub delete_status : ℕ → Tables → Tables
delete_status id t = record t {
  statuses = delete_where (status_has_id id) t.statuses;
  tasks = delete_where (λ k. k.status_id == id) t.tasks;
}

unfoldable pub delete_board : ℕ → Tables → Tables
delete_board id t = record t {
  boards = delete_where (board_has_id id) t.boards;
  statuses = delete_where (λ s. s.board_id == id) t.statuses;
  tasks =
      delete_where
        (λ k. k.board_id == id || any_row (λ s. s.id == k.status_id && s.board_id == id) t.statuses)
        t.tasks;
}

-- INSERT, UPDATE of the rows with this id, and DELETE of them.
abbrev pub add_board : Board → Tables → Tables
add_board row t = record t { boards = t.boards ++ row ∷ [] }

abbrev pub add_status : Status → Tables → Tables
add_status row t = record t { statuses = t.statuses ++ row ∷ [] }

abbrev pub add_task : Task → Tables → Tables
add_task row t = record t { tasks = t.tasks ++ row ∷ [] }

abbrev pub edit_board : Board → Tables → Tables
edit_board row t = record t {
  boards =
      update_where (board_has_id row.id) (λ b. record row { id = b.id; created_at = b.created_at })
        t.boards;
}

abbrev pub edit_status : Status → Tables → Tables
edit_status row t = record t {
  statuses =
      update_where (status_has_id row.id)
        (λ s. record s { name = row.name; position = row.position }) t.statuses;
}

abbrev pub edit_task : Task → Tables → Tables
edit_task row t = record t {
  tasks =
      update_where (task_has_id row.id) (λ k. record row { id = k.id; created_at = k.created_at })
        t.tasks;
}

abbrev pub delete_task : ℕ → Tables → Tables
delete_task id t = record t { tasks = delete_where (task_has_id id) t.tasks }
