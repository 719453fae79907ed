-- ===== src/Sync/Tasks.antt =====
-- frontend/sync/task_sync_manager.cpp.
pub mod Pushes
pub mod Links
use hse_project_2026_chronos.Base.{
  Bool, true, false, not, ◌&&◌, ◌||◌, Option, none, some, List, [], ◌∷◌, ◌++◌, if◌then◌else◌, codes,
  is_empty,
}
use hse_project_2026_chronos.Base.Int.{ℤ, pos, eq_ℤ, ltb_ℤ}
use hse_project_2026_chronos.Json.{
  Json, Items, Members, null, bool, integer, string, object, nil, cons, end, member, get,
}
use hse_project_2026_chronos.Local.Rows.{
  Env, Text, text_lt, synced, conflict, is_pending, is_synced, LocalTask,
}
use hse_project_2026_chronos.Local.Schema.{has_board_id, has_status_id}
use hse_project_2026_chronos.Local.Table.{find_row, any_row}
use hse_project_2026_chronos.Local.Db.{Db, M, pure, ◌>>=◌, ◌>>◌, get_db, try_catch}
use hse_project_2026_chronos.Local.Tasks.{
  find_by_id, save, replace_id, delete_by_id, mark_synced, find_unsynced,
}
use hse_project_2026_chronos.Sync.Wire.{
  to_int, to_text, to_bool, response_data, json_timestamp, code_is_error, Push, Entity, Operation,
  create, update, delete, Method, Endpoint,
}

abbrev priority_color_of : Text → Text
priority_color_of t = if is_empty t then codes "gray" else t

unfoldable pub task_from_json : Env → Members → LocalTask
unfolding to_int to_text to_bool json_timestamp
task_from_json env obj = record {
  id = to_int (get (codes "id") obj);
  board_id = to_int (get (codes "board_id") obj);
  title = to_text (get (codes "title") obj);
  description = to_text (get (codes "description") obj);
  status_id = to_int (get (codes "status_id") obj);
  priority_color = priority_color_of (to_text (get (codes "priority_color") obj));
  deadline = to_text (get (codes "deadline") obj);
  is_completed = to_bool (get (codes "is_completed") obj);
  created_at = json_timestamp env obj (codes "created_at") none;
  updated_at = json_timestamp env obj (codes "updated_at") (some (codes "created_at"));
  deleted_at = [];
  sync_status = synced;
  server_version = pos 1;
}

-- A local change that the server has not seen and that is newer than the server's row.
unfoldable pub keeps_local : LocalTask → LocalTask → Bool
keeps_local existing task =
    is_pending existing.sync_status && text_lt task.updated_at existing.updated_at

unfoldable pub is_parent_board_synced : ℤ → Db → Bool
is_parent_board_synced board_id db = elim (find_row (has_board_id board_id) db.boards) [
  | none ↦ false
  | some b ↦ is_synced b.sync_status && ltb_ℤ (pos 0) board_id
]

module _ (env : Env) where
  store : LocalTask → M (Unit {0})
  store task = try_catch (save env task >> pure tt) (pure tt)

  choose : LocalTask → Option LocalTask → M (Unit {0})
  unfolding store
  choose task none = store task
  choose task (some existing) =
      if keeps_local existing task
      then (save env (record existing { sync_status = conflict }) >> pure tt)
      else store task

  unfoldable pub save_from_server : LocalTask → M (Unit {0})
  unfolding choose
  save_from_server task = get_db >>= λ db.
      if not (any_row (has_board_id task.board_id) db.boards)
        || not (any_row (has_status_id task.status_id) db.statuses)
      then pure tt
      else (find_by_id task.id >>= choose task)

  -- The loop of `parse`: what is no object is passed over.
  unfoldable pub parse : Items → M (Unit {0})
  unfolding save_from_server
  parse nil = pure tt
  parse (cons (object obj) rest) = save_from_server (task_from_json env obj) >> parse rest
  parse (cons _ rest) = parse rest

  unfoldable pub parse_object : Members → M (Unit {0})
  unfolding save_from_server
  parse_object obj = save_from_server (task_from_json env obj)

  -- What `sync` does with one pending row: no request, or one.
  unfoldable pub push_task : Db → LocalTask → List Push
  push_task db task =
      if ltb_ℤ task.board_id (pos 0) || not (is_parent_board_synced task.board_id db)
      then []
      else if is_empty (env.trimmed task.title) && is_empty task.deleted_at
      then []
      else if not (is_empty task.deleted_at)
      then record {
        method = Method.delete_method;
        endpoint = Endpoint.tasks_delete_url;
        body = member (codes "task_id") (integer task.id) end;
        entity = Entity.task;
        local_id = task.id;
        operation = delete;
      }
        ∷ []
      else if eq_ℤ task.server_version (pos 0)
      then record {
        method = Method.post;
        endpoint = Endpoint.tasks_create_url;
        body = member (codes "board_id") (integer task.board_id) (
            member (codes "title") (string task.title) (
              member (codes "description") (string task.description) (
                member (codes "status_id") (integer task.status_id) (
                  member (codes "priority_color") (string task.priority_color) (
                    member (codes "is_completed") (bool task.is_completed) (
                      if is_empty task.deadline
                      then end
                      else member (codes "deadline") (string task.deadline) end))))));
        entity = Entity.task;
        local_id = task.id;
        operation = create;
      }
        ∷ []
      else record {
        method = Method.patch;
        endpoint = Endpoint.tasks_edit_url;
        body = member (codes "task_id") (integer task.id) (
            member (codes "title") (string task.title) (
              member (codes "description") (string task.description) (
                member (codes "status_id") (integer task.status_id) (
                  member (codes "priority_color") (string task.priority_color) (
                    member (codes "is_completed") (bool task.is_completed) (
                      member (codes "deadline")
                        (if is_empty task.deadline then null else string task.deadline) end))))));
        entity = Entity.task;
        local_id = task.id;
        operation = update;
      }
        ∷ []

  push_all : Db → List LocalTask → List Push
  unfolding push_task
  push_all db [] = []
  push_all db (task ∷ rest) = push_task db task ++ push_all db rest

  unfoldable pub sync : Db → List Push
  unfolding push_all
  sync db = push_all db (find_unsynced db)

  -- The id of the row from here on: a new row takes the id that the server gave it.
  unfoldable pub adopt_id : ℤ → ℤ → M ℤ
  adopt_id local_id server_id =
      if ltb_ℤ local_id (pos 0) && ltb_ℤ (pos 0) server_id
      then (replace_id env local_id server_id >> pure server_id)
      else pure local_id

  unfoldable pub handle_push_response : Json → ℤ → ℤ → Operation → M Bool
  unfolding save_from_server adopt_id
  handle_push_response response code local_id delete =
      if eq_ℤ code (pos 204) || eq_ℤ code (pos 200)
      then (delete_by_id local_id >> pure true)
      else pure false
  handle_push_response response code local_id create = if code_is_error code then pure false else do
    let obj = response_data response
    adopted ← adopt_id local_id (to_int (get (codes "id") obj))
    save_from_server (task_from_json env obj)
    mark_synced env adopted
    pure true
  handle_push_response response code local_id update = if code_is_error code then pure false else do
    save_from_server (task_from_json env (response_data response))
    mark_synced env local_id
    pure true
  handle_push_response response code local_id Operation.unknown_operation = pure false
