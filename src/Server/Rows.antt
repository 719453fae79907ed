-- ===== src/Server/Rows.antt =====
-- backend/models: the rows of the server's database. A std::string is the list of its bytes. Ids,
-- counts and timestamps are natural numbers, so that a constructor's test for a negative one has
-- nothing to refuse; a deadline comes from a client and is an integer.
use hse_project_2026_chronos.Base.{
  ℕ, Bool, false, ◌||◌, Option, none, some, List, ltb, ◌==◌, if◌then◌else◌, codes, length, is_empty,
}
use hse_project_2026_chronos.Base.Int.{ℤ, pos, ltb_ℤ}

abbrev pub Text : Type 0
Text = List ℕ

pub record Board : Type 0 where
  pub id : ℕ
  pub user_id : ℕ
  pub title : Text
  pub description : Text
  pub created_at : ℕ
  pub updated_at : ℕ

pub record Status : Type 0 where
  pub id : ℕ
  pub board_id : ℕ
  pub name : Text
  pub position : ℕ

pub record Task : Type 0 where
  pub id : ℕ
  pub board_id : ℕ
  pub title : Text
  pub description : Text
  pub deadline : Option ℤ
  pub status_id : ℕ
  pub priority_color : Text
  pub is_completed : Bool
  pub created_at : ℕ
  pub updated_at : ℕ

pub record PomodoroSession : Type 0 where
  pub id : ℕ
  pub user_id : ℕ
  pub goal_minutes : Option ℕ
  pub work_duration_seconds : ℕ
  pub break_duration_seconds : ℕ
  pub completed_cycles : ℕ
  pub started_at : ℕ
  pub completed_at : Option ℕ

pub record User : Type 0 where
  pub id : ℕ
  pub email : Text
  pub name : Text
  pub status : Text
  pub password_hash : Text
  pub avatar_s3_key : Text
  pub created_at : ℕ

-- A text that is empty or longer than this.
abbrev pub bad_size : ℕ → Text → Bool
bad_size most t = is_empty t || ltb most (length t)

-- A constructor's exception, by its text, or none.
unfoldable pub board_error : Board → Option Text
board_error b =
    if b.user_id == 0
    then some (codes "User ID must be positive")
    else if bad_size 100 b.title
    then some (codes "Board title must be between 1 and 100 characters")
    else if ltb 1000 (length b.description)
    then some (codes "Board description cannot exceed 1000 characters")
    else none

unfoldable pub status_error : Status → Option Text
status_error s =
    if s.board_id == 0
    then some (codes "Board ID must be positive")
    else if bad_size 50 s.name
    then some (codes "Status name must be between 1 and 50 characters")
    else none

unfoldable pub deadline_error : Option ℤ → Option Text
deadline_error none = none
deadline_error (some d) =
    if ltb_ℤ d (pos 0) then some (codes "Task deadline cannot be negative") else none

unfoldable pub task_error : Task → Option Text
unfolding deadline_error
task_error t =
    if t.board_id == 0
    then some (codes "Board ID must be positive")
    else if t.status_id == 0
    then some (codes "Status ID must be positive")
    else if bad_size 100 t.title
    then some (codes "Title must be between 1 and 100 characters")
    else if ltb 1000 (length t.description)
    then some (codes "Description is too long (max 1000)")
    else if bad_size 50 t.priority_color
    then some (codes "Priority color must be between 1 and 50 characters")
    else deadline_error t.deadline

unfoldable pub goal_is_zero : Option ℕ → Bool
goal_is_zero none = false
goal_is_zero (some minutes) = minutes == 0

unfoldable pub session_error : PomodoroSession → Option Text
unfolding goal_is_zero
session_error s =
    if s.user_id == 0
    then some (codes "User ID must be positive")
    else if goal_is_zero s.goal_minutes
    then some (codes "Goal minutes must be positive if set")
    else if s.work_duration_seconds == 0
    then some (codes "Work duration must be positive")
    else if s.break_duration_seconds == 0
    then some (codes "Break duration must be positive")
    else none
