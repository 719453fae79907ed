-- ===== src/Sync/Sessions.antt =====
-- frontend/sync/pomodoro_sync_manager.cpp. Sessions come from the server only: `sync` sends nothing
-- and no push response is theirs.
use hse_project_2026_chronos.Base.{
  Bool, false, none, some, List, [], if◌then◌else◌, codes, is_empty,
}
use hse_project_2026_chronos.Base.Int.{ℤ, pos}
use hse_project_2026_chronos.Json.{Json, Items, Members, object, nil, cons, get}
use hse_project_2026_chronos.Local.Rows.{Env, synced, LocalPomodoroSession}
use hse_project_2026_chronos.Local.Db.{Db, M, ok, pure, ◌>>◌}
use hse_project_2026_chronos.Local.Sessions.{find_by_id, insert, update}
use hse_project_2026_chronos.Sync.Wire.{to_int, to_text, is_null, json_timestamp, Operation, Push}

-- `toString` and `toInt` of a null give the empty text and 0, as the guards of the source do.
unfoldable pub session_from_json : Env → Members → LocalPomodoroSession
unfolding to_int to_text json_timestamp
session_from_json env obj =
    let started_at = json_timestamp env obj (codes "started_at") none in
    let completed = get (codes "completed_at") obj in
    let completed_at = if is_null completed then [] else to_text completed in
    let goal = get (codes "goal_minutes") obj in
    record {
      id = to_int (get (codes "id") obj);
      user_id = to_int (get (codes "user_id") obj);
      goal_minutes = if is_null goal then pos 0 else to_int goal;
      work_duration_seconds = to_int (get (codes "work_duration_seconds") obj);
      break_duration_seconds = to_int (get (codes "break_duration_seconds") obj);
      completed_cycles = to_int (get (codes "completed_cycles") obj);
      started_at = started_at;
      completed_at = completed_at;
      created_at = started_at;
      updated_at = if is_empty completed_at then started_at else completed_at;
      deleted_at = [];
      sync_status = synced;
      server_version = pos 1;
    }

module _ (env : Env) where
  -- The results of `update` and `insert` are not looked at.
  unfoldable pub save_from_server : LocalPomodoroSession → M (Unit {0})
  save_from_server session db = elim (find_by_id session.id db) [
    | none ↦ (ok tt, (insert session db).1)
    | some _ ↦ (ok tt, (update env session db).1)
  ]

  unfoldable pub parse : Items → M (Unit {0})
  unfolding save_from_server
  parse nil = pure tt
  parse (cons (object obj) rest) = save_from_server (session_from_json env obj) >> parse rest
  parse (cons _ rest) = parse rest

  unfoldable pub parse_object : Members → M (Unit {0})
  unfolding save_from_server
  parse_object obj = save_from_server (session_from_json env obj)

unfoldable pub sync : Db → List Push
sync db = []

unfoldable pub handle_push_response : Json → ℤ → ℤ → Operation → M Bool
handle_push_response response code local_id operation = pure false
