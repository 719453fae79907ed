-- ===== src/Local/Rows.antt =====
-- frontend/local_models: the rows of the local database. A QString is the list of its characters;
-- a `deleted_at` that is NULL in the database is the empty string here and in the program.
use hse_project_2026_chronos.Base.{
  ℕ, ◌≡◌, refl, Bool, true, false, ◌&&◌, ◌||◌, List, [], ◌∷◌, ltb, ◌==◌, if◌then◌else◌, codes,
  is_empty, text_eq,
}
use hse_project_2026_chronos.Base.Int.{ℤ}

-- A text is the list of its characters.
abbrev pub Text : Type 0
Text = List ℕ

-- `QString::operator<`, character by character, on texts of the basic plane, as timestamps are;
-- `a > b` is `text_lt b a`.
unfoldable pub text_lt : Text → Text → Bool
text_lt xs [] = false
text_lt [] (y ∷ ys) = true
text_lt (x ∷ xs) (y ∷ ys) = ltb x y || (x == y && text_lt xs ys)

-- What an operation reads from Qt and SQLite: `QString::trimmed`, the clock as
-- `QDateTime::currentDateTimeUtc().toString(Qt::ISODate)` and as SQLite's CURRENT_TIMESTAMP.
pub record Env : Type 0 where
  pub trimmed : Text → Text
  pub now_iso : Text
  pub now_sql : Text

pub data SyncStatus : Type 0 where
  pending synced conflict : SyncStatus

unfoldable pub sync_status_to_string : SyncStatus → Text
sync_status_to_string synced = codes "synced"
sync_status_to_string conflict = codes "conflict"
sync_status_to_string pending = codes "pending"

unfoldable pub string_to_sync_status : Text → SyncStatus
string_to_sync_status s =
    if text_eq s (codes "synced")
    then synced
    else if text_eq s (codes "conflict")
    then conflict
    else pending

-- A status survives the way through the database, which holds it as text; so rows hold it as it is.
pub string_to_sync_status-to_string :
    (s : SyncStatus) → string_to_sync_status (sync_status_to_string s) ≡ s
unfolding string_to_sync_status sync_status_to_string text_eq
string_to_sync_status-to_string pending = refl
string_to_sync_status-to_string synced = refl
string_to_sync_status-to_string conflict = refl

abbrev pub is_pending : SyncStatus → Bool
is_pending pending = true
is_pending synced = false
is_pending conflict = false

abbrev pub is_synced : SyncStatus → Bool
is_synced pending = false
is_synced synced = true
is_synced conflict = false

pub record LocalBoard : Type 0 where
  pub id : ℤ
  pub user_id : ℤ
  pub title : Text
  pub description : Text
  pub created_at : Text
  pub updated_at : Text
  pub deleted_at : Text
  pub sync_status : SyncStatus
  pub server_version : ℤ

pub record LocalStatus : Type 0 where
  pub id : ℤ
  pub board_id : ℤ
  pub name : Text
  pub position : ℤ
  pub created_at : Text
  pub updated_at : Text
  pub deleted_at : Text
  pub sync_status : SyncStatus
  pub server_version : ℤ

pub record LocalTask : Type 0 where
  pub id : ℤ
  pub board_id : ℤ
  pub title : Text
  pub description : Text
  pub status_id : ℤ
  pub priority_color : Text
  pub deadline : Text
  pub is_completed : Bool
  pub created_at : Text
  pub updated_at : Text
  pub deleted_at : Text
  pub sync_status : SyncStatus
  pub server_version : ℤ

pub record LocalUser : Type 0 where
  pub id : ℤ
  pub email : Text
  pub name : Text
  pub status : Text
  pub password_hash : Text
  pub created_at : Text
  pub updated_at : Text
  pub deleted_at : Text
  pub sync_status : SyncStatus
  pub server_version : ℤ

-- `processingTimestamp`: an empty timestamp is the time now.
unfoldable pub processing_timestamp : Env → Text → Text
processing_timestamp env value = if is_empty value then env.now_iso else value

pub record LocalPomodoroSession : Type 0 where
  pub id : ℤ
  pub user_id : ℤ
  pub goal_minutes : ℤ
  pub work_duration_seconds : ℤ
  pub break_duration_seconds : ℤ
  pub completed_cycles : ℤ
  pub started_at : Text
  pub completed_at : Text
  pub created_at : Text
  pub updated_at : Text
  pub deleted_at : Text
  pub sync_status : SyncStatus
  pub server_version : ℤ
