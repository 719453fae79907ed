-- ===== src/Sync/Coordinator.antt =====
-- frontend/sync/sync_coordinator.cpp. The coordinator's effects on others, requests and signals,
-- are the events of `out`, the newest first.
pub mod Cycle
pub mod Progress
pub mod Failing
mod Tests
use hse_project_2026_chronos.Base.{
  ◌==◌, Bool, true, false, not, ◌&&◌, ◌||◌, Option, none, some, List, [], ◌∷◌, if◌then◌else◌, codes,
  text_eq,
}
use hse_project_2026_chronos.Base.Int.{ℤ, negsuc}
use hse_project_2026_chronos.Json.{Json, Items, Members, array, object, get}
use hse_project_2026_chronos.Local.Rows.{Env, Text}
use hse_project_2026_chronos.Local.Db.{Db, M, Result, ok, thrown, pure}
use hse_project_2026_chronos.Local.Boards as LocalBoards
use hse_project_2026_chronos.Local.Users as LocalUsers
use hse_project_2026_chronos.Sync.Wire.{
  to_int, code_is_error, Push, Entity, user, board, status, task, pomodoro, Operation,
}
use hse_project_2026_chronos.Sync.Users
use hse_project_2026_chronos.Sync.Boards
use hse_project_2026_chronos.Sync.Statuses
use hse_project_2026_chronos.Sync.Tasks
use hse_project_2026_chronos.Sync.Sessions

abbrev pub user_info_url : Text
user_info_url = codes "/personal/v1/info"

abbrev pub boards_get_all_url : Text
boards_get_all_url = codes "/board/v1/get_all"

abbrev pub statuses_get_all_url : Text
statuses_get_all_url = codes "/status/v1/get_all"

abbrev pub tasks_get_all_url : Text
tasks_get_all_url = codes "/task/v1/get_all"

abbrev pub pomodoro_get_user_sessions_url : Text
pomodoro_get_user_sessions_url = codes "/pomodoro/v1/get_user_sessions"

-- `QString::startsWith`.
unfoldable pub starts_with : Text → Text → Bool
starts_with text [] = true
starts_with [] (p ∷ ps) = false
starts_with (c ∷ cs) (p ∷ ps) = c == p && starts_with cs ps

pub data Event : Type 0 where
  get_request : Text → Event
  push_request : Push → Event
  initial_data_ready : ℤ → Event
  data_changed : Event

pub record Coordinator : Type 0 where
  pub db : Db
  pub pending_password : Text
  pub waiting_initial_boards : Bool
  pub waiting_initial_statuses : Bool
  pub waiting_initial_tasks : Bool
  pub remote_loading : Bool
  pub emit_initial_after_load : Bool
  pub current_user_id : ℤ
  pub out : List Event

abbrev pub emit : Event → Coordinator → Coordinator
emit e c = record c { out = e ∷ c.out }

pub emit_pushes : List Push → Coordinator → Coordinator
emit_pushes [] c = c
emit_pushes (p ∷ ps) c = emit_pushes ps (emit (push_request p) c)

-- The deletes run children first, so no constraint stops them.
unfoldable pub clear_local_data : Coordinator → Coordinator
clear_local_data c = record c {
  db = record (c.db) { users = []; boards = []; statuses = []; tasks = []; sessions = [] };
  current_user_id = negsuc 0;
}

unfoldable pub load_all : Bool → Coordinator → Coordinator
load_all emit_initial_data c = if c.remote_loading then c else record c {
  remote_loading = true;
  emit_initial_after_load = emit_initial_data;
  waiting_initial_boards = true;
  waiting_initial_statuses = false;
  waiting_initial_tasks = false;
  out =
      get_request pomodoro_get_user_sessions_url
      ∷ get_request boards_get_all_url
      ∷ get_request user_info_url
      ∷ c.out;
}

-- `saveFromLogin` may throw; then the session has the user id and an empty database.
unfoldable pub begin_user_session : Env → Members → Coordinator → Result (Unit {0}) × Coordinator
begin_user_session env user_obj c =
    let cleared = record (clear_local_data c) {
      current_user_id = to_int (get (codes "id") user_obj);
    } in
    let saved = Users.save_from_login env user_obj cleared.db in
    elim (saved.0) [
      | thrown ↦ (thrown, record cleared { db = saved.1 })
      | ok _ ↦ (ok tt, load_all true (record cleared { db = saved.1 }))
    ]

unfoldable pub load_current_user : Coordinator → Coordinator
load_current_user c = elim (LocalUsers.get_current_user c.db) [
  | none ↦ c
  | some u ↦ record c { current_user_id = u.id }
]

load_children_after_boards : Coordinator → Coordinator
load_children_after_boards c = record c {
  waiting_initial_statuses = true;
  out = get_request statuses_get_all_url ∷ c.out;
}

load_tasks_after_statuses : Coordinator → Coordinator
load_tasks_after_statuses c = record c {
  waiting_initial_tasks = true;
  out = get_request tasks_get_all_url ∷ c.out;
}

unfoldable pub default_board_id : Coordinator → ℤ
default_board_id c = elim (LocalBoards.find_first_board c.db) [ none ↦ negsuc 0 | some i ↦ i ]

pub finish_initial_load_cycle : Coordinator → Coordinator
unfolding default_board_id
finish_initial_load_cycle c =
    let idle = record c {
      waiting_initial_boards = false;
      waiting_initial_statuses = false;
      waiting_initial_tasks = false;
      remote_loading = false;
    } in
    if c.emit_initial_after_load
    then emit (initial_data_ready (default_board_id c))
        (record idle { emit_initial_after_load = false })
    else emit data_changed idle

unfoldable pub sync_all : Env → Coordinator → Coordinator
unfolding emit_pushes
sync_all env c =
    let users = Users.sync env c.pending_password c.db in
    record (emit_pushes users.0 (
      emit_pushes (Tasks.sync env c.db)
        (emit_pushes (Statuses.sync env c.db) (emit_pushes (Boards.sync env c.db) c)))) {
          pending_password = users.1;
        }

-- The managers in the order of `managers_`; the first that handles the endpoint stores the payload.
pub data Payload : Type 0 where
  list : Items → Payload
  one : Members → Payload
  other : Payload

unfoldable pub payload_of : Option Json → Payload
payload_of (some (array xs)) = list xs
payload_of (some (object ms)) = one ms
payload_of _ = other

by_kind : (Items → M (Unit {0})) → (Members → M (Unit {0})) → Payload → M (Unit {0})
by_kind parse parse_object (list xs) = parse xs
by_kind parse parse_object (one ms) = parse_object ms
by_kind parse parse_object other = pure tt

unfoldable pub store_payload : Env → Text → Payload → M (Unit {0})
unfolding by_kind
store_payload env endpoint p =
    if text_eq endpoint user_info_url
    then by_kind (Users.parse env) (Users.parse_object env) p
    else if text_eq endpoint boards_get_all_url
    then by_kind (Boards.parse env) (Boards.parse_object env) p
    else if starts_with endpoint statuses_get_all_url
    then by_kind (Statuses.parse env) (Statuses.parse_object env) p
    else if starts_with endpoint tasks_get_all_url
    then by_kind (Tasks.parse env) (Tasks.parse_object env) p
    else if text_eq endpoint pomodoro_get_user_sessions_url
    then by_kind (Sessions.parse env) (Sessions.parse_object env) p
    else pure tt

abbrev pub is_boards : Text → Bool
is_boards endpoint = text_eq endpoint boards_get_all_url

abbrev pub is_statuses : Text → Bool
is_statuses endpoint = starts_with endpoint statuses_get_all_url

abbrev pub is_tasks : Text → Bool
is_tasks endpoint = starts_with endpoint tasks_get_all_url

-- After an error: the load cycle that waits for this endpoint ends.
pub stop_waiting : Text → Coordinator → Coordinator
unfolding finish_initial_load_cycle
stop_waiting endpoint c =
    if c.waiting_initial_boards && is_boards endpoint
      || c.waiting_initial_statuses && is_statuses endpoint
      || c.waiting_initial_tasks && is_tasks endpoint
    then finish_initial_load_cycle c
    else c

-- After a stored payload: the load cycle that waits for this endpoint goes on.
pub advance : Text → Coordinator → Coordinator
unfolding load_children_after_boards load_tasks_after_statuses finish_initial_load_cycle
advance endpoint c =
    if c.waiting_initial_boards && is_boards endpoint
    then load_children_after_boards (record c { waiting_initial_boards = false })
    else if c.waiting_initial_statuses && is_statuses endpoint
    then load_tasks_after_statuses (record c { waiting_initial_statuses = false })
    else if c.waiting_initial_tasks && is_tasks endpoint
    then finish_initial_load_cycle c
    else c

pub announce : Text → Coordinator → Coordinator
announce endpoint c =
    if not c.remote_loading && not (text_eq endpoint user_info_url) then emit data_changed c else c

-- `document` is what `QJsonDocument::fromJson` makes of the reply, `none` where it is no JSON. What
-- a manager throws leaves the method, which is a slot, before the cycle goes on: nobody catches it.
unfoldable pub handle_response :
    Env → Text → Option Json → ℤ → Coordinator → Result (Unit {0}) × Coordinator
unfolding stop_waiting advance announce
handle_response env endpoint document code c =
    if code_is_error code then (ok tt, stop_waiting endpoint c) else elim document [
      | some (object root) ↦
          let stored = store_payload env endpoint (payload_of (get (codes "data") root)) c.db in
          elim (stored.0) [
            | thrown ↦ (thrown, record c { db = stored.1 })
            | ok _ ↦ (ok tt, announce endpoint (advance endpoint (record c { db = stored.1 })))
          ]
      | _ ↦ (ok tt, stop_waiting endpoint c)
    ]

-- `managerByModel` and its `handlePushResponse`.
unfoldable pub push_response : Env → Json → ℤ → Entity → ℤ → Operation → M Bool
push_response env response code user local_id operation =
    Users.handle_push_response env response code local_id operation
push_response env response code board local_id operation =
    Boards.handle_push_response env response code local_id operation
push_response env response code status local_id operation =
    Statuses.handle_push_response env response code local_id operation
push_response env response code task local_id operation =
    Tasks.handle_push_response env response code local_id operation
push_response env response code pomodoro local_id operation =
    Sessions.handle_push_response response code local_id operation

-- A board that is known to the server lets its columns and tasks follow.
pub push_children : Env → Entity → Coordinator → Coordinator
unfolding emit_pushes
push_children env board c =
    emit_pushes (Tasks.sync env c.db) (emit_pushes (Statuses.sync env c.db) c)
push_children env _ c = c

unfoldable pub handle_sync_response :
    Env → Json → ℤ → Entity → ℤ → Operation → Coordinator → Result (Unit {0}) × Coordinator
handle_sync_response env response code entity local_id operation c =
    let handled = push_response env response code entity local_id operation c.db in
    let c' = record c { db = handled.1 } in
    elim (handled.0) [
      | thrown ↦ (thrown, c')
      | ok done ↦ (ok tt, if done then emit data_changed (push_children env entity c') else c')
    ]

unfoldable pub on_periodic_sync : Env → Bool → Coordinator → Coordinator
on_periodic_sync env has_token c =
    if not has_token || c.remote_loading then c else load_all false (sync_all env c)
