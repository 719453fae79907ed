-- ===== src/Local/Sessions.antt =====
-- frontend/local_repositories/local_pomodoro_session_repository.cpp: its methods report a failed
-- statement by `false` and throw nothing.
use hse_project_2026_chronos.Base.{
  Bool, true, false, ◌&&◌, Option, none, some, List, [], ◌∷◌, if◌then◌else◌, is_empty,
}
use hse_project_2026_chronos.Base.Int.{ℤ, pos, ◌+ℤ◌, eq_ℤ, ltb_ℤ}
use hse_project_2026_chronos.Local.Rows.{Env, text_lt, LocalPomodoroSession}
use hse_project_2026_chronos.Local.Table.{find_row, select_where, delete_where}
use hse_project_2026_chronos.Local.Accounts.{has_session_id, insert_into_sessions, update_sessions}
use hse_project_2026_chronos.Local.Db.{Db}

-- `exec()`: the new database and whether the statement succeeded.
abbrev pub exec : (Db → Option Db) → Db → Bool × Db
exec statement db = elim (statement db) [ none ↦ (false, db) | some db' ↦ (true, db') ]

unfoldable pub find_by_id : ℤ → Db → Option LocalPomodoroSession
find_by_id i db = find_row (λ r. has_session_id i r && is_empty r.deleted_at) db.sessions

-- The insert leaves `deleted_at` NULL.
unfoldable pub insert : LocalPomodoroSession → Db → Bool × Db
insert session = exec (insert_into_sessions (record session { deleted_at = [] }))

module _ (env : Env) where
  unfoldable pub update : LocalPomodoroSession → Db → Bool × Db
  update session = exec (
      update_sessions env (has_session_id session.id)
        λ r. record session { id = r.id; created_at = r.created_at; deleted_at = r.deleted_at })

  unfoldable pub remove : ℤ → Db → Bool × Db
  remove i =
      exec (update_sessions env (has_session_id i) (λ r. record r { deleted_at = env.now_sql }))

unfoldable pub delete_by_id : ℤ → Db → Bool × Db
delete_by_id i db = (true, record db { sessions = delete_where (has_session_id i) db.sessions })

larger : ℤ → Option ℤ → ℤ
larger i none = i
larger i (some j) = if ltb_ℤ i j then j else i

max_id : List LocalPomodoroSession → Option ℤ
unfolding larger
max_id [] = none
max_id (r ∷ rs) = some (larger r.id (max_id rs))

-- `MAX(id) + 1`, where NULL reads as 0.
unfoldable pub get_next_id : Db → ℤ
unfolding max_id
get_next_id db = elim (max_id db.sessions) [ none ↦ pos 1 | some i ↦ i +ℤ pos 1 ]

-- ORDER BY created_at DESC.
insert_latest_first : LocalPomodoroSession → List LocalPomodoroSession → List LocalPomodoroSession
insert_latest_first r [] = r ∷ []
insert_latest_first r (q ∷ qs) =
    if text_lt r.created_at q.created_at then q ∷ insert_latest_first r qs else r ∷ q ∷ qs

latest_first : List LocalPomodoroSession → List LocalPomodoroSession
unfolding insert_latest_first
latest_first [] = []
latest_first (r ∷ rs) = insert_latest_first r (latest_first rs)

unfoldable pub find_all : Db → List LocalPomodoroSession
unfolding latest_first
find_all db = latest_first (select_where (λ r. is_empty r.deleted_at) db.sessions)

unfoldable pub find_by_user_id : ℤ → Db → List LocalPomodoroSession
unfolding latest_first
find_by_user_id user_id db =
    latest_first (select_where (λ r. eq_ℤ r.user_id user_id && is_empty r.deleted_at) db.sessions)
