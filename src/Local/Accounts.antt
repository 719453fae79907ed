-- ===== src/Local/Accounts.antt =====
-- frontend/sql/local_init.sql: the constraints and triggers of the tables of users and of pomodoro
-- sessions, which no other table that the program fills refers to.
use hse_project_2026_chronos.Base.{
  Bool, true, not, ◌&&◌, ◌||◌, Option, none, some, List, [], ◌∷◌, ◌++◌, leb, if◌then◌else◌,
  is_empty, text_eq, length,
}
use hse_project_2026_chronos.Base.Int.{ℤ, eq_ℤ}
use hse_project_2026_chronos.Local.Rows.{Env, LocalUser, LocalPomodoroSession}
use hse_project_2026_chronos.Local.Table.{any_row, all_rows, update_where}
use hse_project_2026_chronos.Local.Db.{Db}

abbrev pub has_user_id : ℤ → LocalUser → Bool
has_user_id i u = eq_ℤ u.id i

abbrev pub has_session_id : ℤ → LocalPomodoroSession → Bool
has_session_id i r = eq_ℤ r.id i

unfoldable pub user_checks : LocalUser → Bool
user_checks u =
    leb 1 (length u.email)
    && leb 1 (length u.name)
    && leb (length u.name) 50
    && leb 1 (length u.status)
    && leb (length u.status) 255

-- UNIQUE email.
unfoldable pub unique_emails : List LocalUser → Bool
unique_emails [] = true
unique_emails (u ∷ us) = not (any_row (λ v. text_eq v.email u.email) us) && unique_emails us

-- A timestamp that is left empty is a null QString, which the NOT NULL columns refuse.
unfoldable pub session_checks : LocalPomodoroSession → Bool
session_checks r =
    not (is_empty r.started_at) && not (is_empty r.created_at) && not (is_empty r.updated_at)

unfoldable pub touch_user : Env → LocalUser → LocalUser → LocalUser
touch_user env old new =
    if text_eq new.updated_at old.updated_at then record new { updated_at = env.now_sql } else new

unfoldable pub touch_session :
    Env → LocalPomodoroSession → LocalPomodoroSession → LocalPomodoroSession
touch_session env old new =
    if text_eq new.updated_at old.updated_at then record new { updated_at = env.now_sql } else new

unfoldable pub insert_into_users : LocalUser → Db → Option Db
insert_into_users row db =
    if any_row (has_user_id row.id) db.users
      || not (user_checks row)
      || not (unique_emails (db.users ++ row ∷ []))
    then none
    else some (record db { users = db.users ++ row ∷ [] })

abbrev updated_users : Env → (LocalUser → Bool) → (LocalUser → LocalUser) → Db → List LocalUser
updated_users env p f db = update_where p (λ u. touch_user env u (f u)) db.users

unfoldable pub update_users : Env → (LocalUser → Bool) → (LocalUser → LocalUser) → Db → Option Db
update_users env p f db =
    if all_rows (λ u. not (p u) || user_checks (f u)) db.users
      && unique_emails (updated_users env p f db)
    then some (record db { users = updated_users env p f db })
    else none

unfoldable pub insert_into_sessions : LocalPomodoroSession → Db → Option Db
insert_into_sessions row db =
    if any_row (has_session_id row.id) db.sessions || not (session_checks row)
    then none
    else some (record db { sessions = db.sessions ++ row ∷ [] })

unfoldable pub update_sessions :
    Env
    → (LocalPomodoroSession → Bool)
    → (LocalPomodoroSession → LocalPomodoroSession)
    → Db
    → Option Db
update_sessions env p f db =
    if all_rows (λ r. not (p r) || session_checks (f r)) db.sessions
    then some (record db { sessions = update_where p (λ r. touch_session env r (f r)) db.sessions })
    else none
