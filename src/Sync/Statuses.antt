-- ===== src/Sync/Statuses.antt =====
-- frontend/sync/status_sync_manager.cpp.
use hse_project_2026_chronos.Base.{
  Bool, true, false, not, ◌&&◌, ◌||◌, Option, none, some, List, [], ◌∷◌, ◌++◌, if◌then◌else◌, codes,
  is_empty,
}
use hse_project_2026_chronos.Base.Int.{ℤ, pos, eq_ℤ, ltb_ℤ}
use hse_project_2026_chronos.Json.{
  Json, Items, Members, integer, string, object, nil, cons, end, member, get,
}
use hse_project_2026_chronos.Local.Rows.{
  Env, text_lt, synced, conflict, is_pending, is_synced, LocalStatus,
}
use hse_project_2026_chronos.Local.Schema.{has_board_id}
use hse_project_2026_chronos.Local.Table.{find_row, any_row}
use hse_project_2026_chronos.Local.Db.{Db, M, pure, ◌>>=◌, ◌>>◌, get_db, try_catch}
use hse_project_2026_chronos.Local.Statuses.{
  find_by_id, save, replace_id, delete_by_id, mark_synced, find_unsynced,
}
use hse_project_2026_chronos.Sync.Wire.{
  to_int, to_text, to_bool, response_data, json_timestamp, code_is_error, Push, Entity, Operation,
  create, update, delete, Method, Endpoint,
}

unfoldable pub status_from_json : Env → Members → LocalStatus
unfolding to_int to_text to_bool json_timestamp
status_from_json env obj = record {
  id = to_int (get (codes "id") obj);
  board_id = to_int (get (codes "board_id") obj);
  name = to_text (get (codes "name") obj);
  position = to_int (get (codes "position") obj);
  created_at = json_timestamp env obj (codes "created_at") none;
  updated_at = json_timestamp env obj (codes "updated_at") (some (codes "created_at"));
  deleted_at = [];
  sync_status = synced;
  server_version = pos 1;
}

-- A local change that the server has not seen and that is newer than the server's row.
unfoldable pub keeps_local : LocalStatus → LocalStatus → Bool
keeps_local existing status =
    is_pending existing.sync_status && text_lt status.updated_at existing.updated_at

unfoldable pub is_parent_board_synced : ℤ → Db → Bool
is_parent_board_synced board_id db = elim (find_row (has_board_id board_id) db.boards) [
  | none ↦ false
  | some b ↦ is_synced b.sync_status && ltb_ℤ (pos 0) board_id
]

module _ (env : Env) where
  store : LocalStatus → M (Unit {0})
  store status = try_catch (save env status >> pure tt) (pure tt)

  choose : LocalStatus → Option LocalStatus → M (Unit {0})
  unfolding store
  choose status none = store status
  choose status (some existing) =
      if keeps_local existing status
      then (save env (record existing { sync_status = conflict }) >> pure tt)
      else store status

  unfoldable pub save_from_server : LocalStatus → M (Unit {0})
  unfolding choose
  save_from_server status = get_db >>= λ db.
      if not (any_row (has_board_id status.board_id) db.boards)
      then pure tt
      else (find_by_id status.id >>= choose status)

  -- The loop of `parse`: what is no object is passed over.
  unfoldable pub parse : Items → M (Unit {0})
  unfolding save_from_server
  parse nil = pure tt
  parse (cons (object obj) rest) = save_from_server (status_from_json env obj) >> parse rest
  parse (cons _ rest) = parse rest

  unfoldable pub parse_object : Members → M (Unit {0})
  unfolding save_from_server
  parse_object obj = save_from_server (status_from_json env obj)

  -- What `sync` does with one pending row: no request, or one.
  unfoldable pub push_status : Db → LocalStatus → List Push
  push_status db status =
      if ltb_ℤ status.board_id (pos 0) || not (is_parent_board_synced status.board_id db)
      then []
      else if is_empty (env.trimmed status.name) && is_empty status.deleted_at
      then []
      else if not (is_empty status.deleted_at)
      then record {
        method = Method.delete_method;
        endpoint = Endpoint.statuses_delete_url;
        body = member (codes "status_id") (integer status.id) end;
        entity = Entity.status;
        local_id = status.id;
        operation = delete;
      }
        ∷ []
      else if eq_ℤ status.server_version (pos 0)
      then record {
        method = Method.post;
        endpoint = Endpoint.statuses_create_url;
        body = member (codes "board_id") (integer status.board_id) (
            member (codes "name") (string status.name)
              (member (codes "position") (integer status.position) end));
        entity = Entity.status;
        local_id = status.id;
        operation = create;
      }
        ∷ []
      else record {
        method = Method.patch;
        endpoint = Endpoint.statuses_edit_url;
        body = member (codes "status_id") (integer status.id) (
            member (codes "name") (string status.name)
              (member (codes "position") (integer status.position) end));
        entity = Entity.status;
        local_id = status.id;
        operation = update;
      }
        ∷ []

  push_all : Db → List LocalStatus → List Push
  unfolding push_status
  push_all db [] = []
  push_all db (status ∷ rest) = push_status db status ++ push_all db rest

  unfoldable pub sync : Db → List Push
  unfolding push_all
  sync db = push_all db (find_unsynced db)

  -- The id of the row from here on: a new row takes the id that the server gave it.
  unfoldable pub adopt_id : ℤ → ℤ → M ℤ
  adopt_id local_id server_id =
      if ltb_ℤ local_id (pos 0) && ltb_ℤ (pos 0) server_id
      then (replace_id env local_id server_id >> pure server_id)
      else pure local_id

  unfoldable pub handle_push_response : Json → ℤ → ℤ → Operation → M Bool
  unfolding save_from_server adopt_id
  handle_push_response response code local_id delete =
      if eq_ℤ code (pos 204) || eq_ℤ code (pos 200)
      then (delete_by_id local_id >> pure true)
      else pure false
  handle_push_response response code local_id create = if code_is_error code then pure false else do
    let obj = response_data response
    adopted ← adopt_id local_id (to_int (get (codes "id") obj))
    save_from_server (status_from_json env obj)
    mark_synced env adopted
    pure true
  handle_push_response response code local_id update = if code_is_error code then pure false else do
    save_from_server (status_from_json env (response_data response))
    mark_synced env local_id
    pure true
  handle_push_response response code local_id Operation.unknown_operation = pure false
