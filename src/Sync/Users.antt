-- ===== src/Sync/Users.antt =====
-- frontend/sync/user_sync_manager.cpp. The manager keeps a password that waits for the next push.
use hse_project_2026_chronos.Base.{
  Bool, true, false, ◌&&◌, Option, none, some, List, [], ◌∷◌, if◌then◌else◌, codes, is_empty,
}
use hse_project_2026_chronos.Base.Int.{ℤ, pos}
use hse_project_2026_chronos.Json.{
  Json, Items, Members, string, object, nil, cons, end, member, get,
}
use hse_project_2026_chronos.Local.Rows.{
  Env, Text, text_lt, synced, conflict, is_pending, LocalUser,
}
use hse_project_2026_chronos.Local.Db.{Db, M, pure, ◌>>=◌, ◌>>◌, try_catch}
use hse_project_2026_chronos.Local.Users.{
  find_by_id, save, mark_synced, find_unsynced, has_empty_field,
}
use hse_project_2026_chronos.Sync.Wire.{
  to_int, to_text, response_data, json_timestamp, code_is_error, Push, Entity, Operation, create,
  update, delete, unknown_operation, Method, Endpoint,
}

unfoldable pub user_from_json : Env → Members → LocalUser
unfolding to_int to_text json_timestamp
user_from_json env obj = record {
  id = to_int (get (codes "id") obj);
  email = to_text (get (codes "email") obj);
  name = to_text (get (codes "name") obj);
  status = to_text (get (codes "status") obj);
  password_hash = to_text (get (codes "password_hash") obj);
  created_at = json_timestamp env obj (codes "created_at") none;
  updated_at = json_timestamp env obj (codes "updated_at") (some (codes "created_at"));
  deleted_at = [];
  sync_status = synced;
  server_version = pos 1;
}

unfoldable pub keeps_local : LocalUser → LocalUser → Bool
keeps_local existing user =
    is_pending existing.sync_status && text_lt user.updated_at existing.updated_at

module _ (env : Env) where
  store : LocalUser → M (Unit {0})
  store user = try_catch (save env user >> pure tt) (pure tt)

  choose : LocalUser → Option LocalUser → M (Unit {0})
  unfolding store
  choose user none = store user
  choose user (some existing) =
      if keeps_local existing user
      then (save env (record existing { sync_status = conflict }) >> pure tt)
      else store user

  unfoldable pub save_from_server : LocalUser → M (Unit {0})
  unfolding choose
  save_from_server user = find_by_id user.id >>= choose user

  unfoldable pub save_from_login : Members → M (Unit {0})
  unfolding save_from_server
  save_from_login user_obj = save_from_server (user_from_json env user_obj)

  unfoldable pub parse : Items → M (Unit {0})
  unfolding save_from_server
  parse nil = pure tt
  parse (cons (object obj) rest) = save_from_server (user_from_json env obj) >> parse rest
  parse (cons _ rest) = parse rest

  unfoldable pub parse_object : Members → M (Unit {0})
  unfolding save_from_server
  parse_object obj = save_from_server (user_from_json env obj)

  -- The body carries the waiting password, if there is one.
  abbrev with_password : Text → Members → Members
  with_password password body =
      if is_empty password then body else member (codes "password") (string password) body

  abbrev user_push : Text → LocalUser → Push
  user_push password user = record {
    method = Method.put;
    endpoint = Endpoint.user_edit_info_url;
    body = member (codes "name") (string user.name) (
        member (codes "email") (string user.email)
          (member (codes "status") (string user.status) (with_password password end)));
    entity = Entity.user;
    local_id = user.id;
    operation = update;
  }

  -- The loop of `sync`: the first request takes the password. The result has what is left of it.
  push_all : Text → List LocalUser → List Push × Text
  push_all password [] = ([], password)
  push_all password (user ∷ rest) =
      let skipped = push_all password rest in
      let pushed = push_all [] rest in
      if has_empty_field env user then skipped else (user_push password user ∷ pushed.0, pushed.1)

  unfoldable pub sync : Text → Db → List Push × Text
  unfolding push_all
  sync password db = push_all password (find_unsynced db)

  unfoldable pub handle_push_response : Json → ℤ → ℤ → Operation → M Bool
  unfolding save_from_server
  handle_push_response response code local_id update = if code_is_error code then pure false else do
    save_from_server (user_from_json env (response_data response))
    mark_synced env local_id
    pure true
  handle_push_response response code local_id create = pure false
  handle_push_response response code local_id delete = pure false
  handle_push_response response code local_id unknown_operation = pure false
