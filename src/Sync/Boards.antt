-- ===== src/Sync/Boards.antt =====
-- frontend/sync/board_sync_manager.cpp.
pub mod Merge
pub mod Deletion
pub mod LostEdit
use hse_project_2026_chronos.Base.{
  Bool, true, false, not, ◌&&◌, ◌||◌, Option, none, some, List, [], ◌∷◌, ◌++◌, if◌then◌else◌, codes,
  is_empty,
}
use hse_project_2026_chronos.Base.Int.{ℤ, pos, eq_ℤ, ltb_ℤ}
use hse_project_2026_chronos.Json.{
  Json, Items, Members, integer, string, object, nil, cons, end, member, get,
}
use hse_project_2026_chronos.Local.Rows.{
  Env, text_lt, synced, conflict, is_pending, LocalBoard, LocalBoard,
}
use hse_project_2026_chronos.Local.Db.{Db, M, pure, ◌>>=◌, ◌>>◌}
use hse_project_2026_chronos.Local.Boards.{
  find_by_id, save, replace_id, delete_by_id, mark_synced, find_unsynced,
}
use hse_project_2026_chronos.Sync.Wire.{
  to_int, to_text, to_bool, response_data, json_timestamp, code_is_error, Push, Entity, Operation,
  create, update, delete, Method, Endpoint,
}

unfoldable pub board_from_json : Env → Members → LocalBoard
unfolding to_int to_text to_bool json_timestamp
board_from_json env obj = record {
  id = to_int (get (codes "id") obj);
  user_id = to_int (get (codes "user_id") obj);
  title = to_text (get (codes "title") obj);
  description = to_text (get (codes "description") obj);
  created_at = json_timestamp env obj (codes "created_at") none;
  updated_at = json_timestamp env obj (codes "updated_at") (some (codes "created_at"));
  deleted_at = [];
  sync_status = synced;
  server_version = pos 1;
}

-- A local change that the server has not seen and that is newer than the server's row.
unfoldable pub keeps_local : LocalBoard → LocalBoard → Bool
keeps_local existing board =
    is_pending existing.sync_status && text_lt board.updated_at existing.updated_at

module _ (env : Env) where
  store : LocalBoard → M (Unit {0})
  store board = save env board >> pure tt

  choose : LocalBoard → Option LocalBoard → M (Unit {0})
  unfolding store
  choose board none = store board
  choose board (some existing) =
      if keeps_local existing board
      then (save env (record existing { sync_status = conflict }) >> pure tt)
      else store board

  unfoldable pub save_from_server : LocalBoard → M (Unit {0})
  unfolding choose
  save_from_server board = find_by_id board.id >>= choose board

  -- The loop of `parse`: what is no object is passed over.
  unfoldable pub parse : Items → M (Unit {0})
  unfolding save_from_server
  parse nil = pure tt
  parse (cons (object obj) rest) = save_from_server (board_from_json env obj) >> parse rest
  parse (cons _ rest) = parse rest

  unfoldable pub parse_object : Members → M (Unit {0})
  unfolding save_from_server
  parse_object obj = save_from_server (board_from_json env obj)

  -- What `sync` does with one pending row: no request, or one.
  unfoldable pub push_board : Db → LocalBoard → List Push
  push_board db board =
      if is_empty (env.trimmed board.title) && is_empty board.deleted_at
      then []
      else if not (is_empty board.deleted_at)
      then record {
        method = Method.delete_method;
        endpoint = Endpoint.boards_delete_url;
        body = member (codes "board_id") (integer board.id) end;
        entity = Entity.board;
        local_id = board.id;
        operation = delete;
      }
        ∷ []
      else if eq_ℤ board.server_version (pos 0)
      then record {
        method = Method.post;
        endpoint = Endpoint.boards_create_url;
        body = member (codes "user_id") (integer board.user_id) (
            member (codes "title") (string board.title)
              (member (codes "description") (string board.description) end));
        entity = Entity.board;
        local_id = board.id;
        operation = create;
      }
        ∷ []
      else record {
        method = Method.patch;
        endpoint = Endpoint.boards_edit_url;
        body = member (codes "board_id") (integer board.id) (
            member (codes "title") (string board.title)
              (member (codes "description") (string board.description) end));
        entity = Entity.board;
        local_id = board.id;
        operation = update;
      }
        ∷ []

  push_all : Db → List LocalBoard → List Push
  unfolding push_board
  push_all db [] = []
  push_all db (board ∷ rest) = push_board db board ++ push_all db rest

  unfoldable pub sync : Db → List Push
  unfolding push_all
  sync db = push_all db (find_unsynced db)

  -- The id of the row from here on: a new row takes the id that the server gave it.
  unfoldable pub adopt_id : ℤ → ℤ → M ℤ
  adopt_id local_id server_id =
      if ltb_ℤ local_id (pos 0) && ltb_ℤ (pos 0) server_id
      then (replace_id env local_id server_id >> pure server_id)
      else pure local_id

  unfoldable pub handle_push_response : Json → ℤ → ℤ → Operation → M Bool
  unfolding save_from_server adopt_id
  handle_push_response response code local_id delete =
      if eq_ℤ code (pos 204) || eq_ℤ code (pos 200)
      then (delete_by_id local_id >> pure true)
      else pure false
  handle_push_response response code local_id create = if code_is_error code then pure false else do
    let obj = response_data response
    adopted ← adopt_id local_id (to_int (get (codes "id") obj))
    save_from_server (board_from_json env obj)
    mark_synced env adopted
    pure true
  handle_push_response response code local_id update = if code_is_error code then pure false else do
    save_from_server (board_from_json env (response_data response))
    mark_synced env local_id
    pure true
  handle_push_response response code local_id Operation.unknown_operation = pure false
