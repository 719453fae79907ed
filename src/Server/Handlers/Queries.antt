-- ===== src/Server/Handlers/Queries.antt =====
-- backend/src/server: the handlers that only read, board/v1/get.cpp, get_all.cpp and tasks.cpp,
-- status/v1/get_all.cpp and task/v1/get_all.cpp.
use hse_project_2026_chronos.Base.{
  ℕ, Bool, true, false, not, ◌||◌, ◌&&◌, Option, none, some, List, [], ◌∷◌, map, ◌==◌, codes,
  length, is_empty, if◌then◌else◌,
}
use hse_project_2026_chronos.Base.Int.{ℤ, pos, leb_ℤ, ltb_ℤ, pos_part}
use hse_project_2026_chronos.Json.{Json, string, array, object, end}
use hse_project_2026_chronos.Server.Rows.{Text, Status, Task}
use hse_project_2026_chronos.Server.Http.{
  Request, Response, Libraries, Number, get_method, parsed, not_a_number, out_of_range, str, field,
  items, find_param, build_error_response, ok_response,
}
use hse_project_2026_chronos.Server.Action.{
  World, M, Result, Failure, ok, failed, missing_field, bad_type, bad_value, invalid_argument,
  runtime_error, other_exception, pure, lift, reject_if, found_or, id_limit, ◌>>=◌, ◌>>◌,
}
use hse_project_2026_chronos.Server.Repositories.Boards
use hse_project_2026_chronos.Server.Repositories.Statuses
use hse_project_2026_chronos.Server.Repositories.Tasks
use hse_project_2026_chronos.Server.Handlers.{method_is, require_int_param, catching}
use hse_project_2026_chronos.Server.Handlers.Owned.{not_found, owned_board, delete_failure}
use hse_project_2026_chronos.Server.Handlers.Boards.{board_to_json, create_failure}
use hse_project_2026_chronos.Server.Handlers.Statuses.{status_to_json}
use hse_project_2026_chronos.Server.Handlers.Tasks.{task_to_json, task_members}

abbrev pub json_array : List Json → Json
json_array js = array (items js)

-- The names of statuses that a listing has looked up.
unfoldable pub cached_name : ℕ → List (ℕ × Text) → Option Text
cached_name id [] = none
cached_name id ((i, name) ∷ cache) = if i == id then some name else cached_name id cache

-- The name of a status of this board, or nothing.
unfoldable pub name_on_board : ℕ → Option Status → Text
name_on_board board_id none = []
name_on_board board_id (some s) = if s.board_id == board_id then s.name else []

-- `parse_int_param` of status/v1/get_all.cpp and of task/v1/get_all.cpp, for a parameter that is
-- there: they differ in the exceptions of `std::stoll`.
unfoldable pub int_in_range : Text → Text → ℤ → ℕ → Result ℕ
int_in_range key value n chars =
    if not (chars == length value)
    then failed (bad_type key)
    else if leb_ℤ n (pos 0) || not (ltb_ℤ n (pos id_limit))
    then failed (bad_value key)
    else ok (pos_part n)

unfoldable pub status_param : Text → Text → Number → Result ℕ
unfolding int_in_range
status_param key value (parsed n chars) = int_in_range key value n chars
status_param key value not_a_number = failed (bad_type key)
status_param key value out_of_range = failed (bad_value key)

unfoldable pub task_param : Text → Text → Number → Result ℕ
unfolding int_in_range
task_param key value (parsed n chars) = int_in_range key value n chars
task_param key value not_a_number = failed (invalid_argument (codes "stoll"))
task_param key value out_of_range = failed (bad_type key)

unfoldable pub optional_param :
    (Text → Number) → (Text → Text → Number → Result ℕ) → Text → Option Text → Result (Option ℕ)
optional_param stoll convert key none = ok none
optional_param stoll convert key (some value) = some_of (convert key value (stoll value))
  where
    some_of : Result ℕ → Result (Option ℕ)
    some_of (ok n) = ok (some n)
    some_of (failed f) = failed f

abbrev pub given : Option ℕ → Bool
given none = false
given (some n) = true

module _ (lib : Libraries) where
  unfoldable pub get_failure : Failure → Response
  get_failure (missing_field k) =
      build_error_response 400 "MISSING_FIELD" (codes "Missing required field")
        (field "board_id" (str "Missing required field") end)
  get_failure (bad_type k) =
      build_error_response 400 "INVALID_FORMAT" (codes "Invalid field format")
        (field "board_id" (str "Invalid board_id format") end)
  get_failure (bad_value k) =
      build_error_response 400 "VALIDATION_ERROR" (codes "Validation failed")
        (field "board_id" (str "Board id must be positive") end)
  get_failure f = create_failure lib f

  unfoldable pub get_board : Request → ℕ → M Response
  get_board req user_id = do
    reject_if (not (method_is req.method get_method)) 405 "DUPLICATE_RESOURCE" "Method not allowed"
        end
    board_id ← lift (require_int_param lib req "board_id")
    board ← owned_board lib "BOARD_NOT_FOUND" "Board not found" user_id board_id
    pure (ok_response (board_to_json lib board))

  unfoldable pub handle_get_board : Request → ℕ → World → Response × World
  handle_get_board req user_id w = catching get_failure (get_board req user_id w)

  unfoldable pub get_all_boards : Request → ℕ → M Response
  get_all_boards req user_id = do
    reject_if (not (method_is req.method get_method)) 405 "DUPLICATE_RESOURCE" "Method not allowed"
        end
    boards ← Boards.find_all_by_user_id lib user_id
    pure (ok_response (json_array (map (board_to_json lib) boards)))

  unfoldable pub handle_get_all_boards : Request → ℕ → World → Response × World
  handle_get_all_boards req user_id w = catching (create_failure lib) (get_all_boards req user_id w)

  unfoldable pub task_with_name : Task → Text → Json
  task_with_name task name =
      if is_empty name
      then task_to_json lib task
      else object (task_members lib task (field "status_name" (string name) end))

  unfoldable pub name_of_found : ℕ → List (ℕ × Text) → ℕ → Option Text → M (Text × List (ℕ × Text))
  name_of_found board_id cache id (some name) = pure (name, cache)
  name_of_found board_id cache id none = do
    status ← Statuses.find_by_id lib id
    let name = name_on_board board_id status
    pure (name, (id, name) ∷ cache)

  -- The loop over the tasks, with the cache of names.
  unfoldable pub tasks_json : ℕ → List (ℕ × Text) → List Task → M (List Json)
  tasks_json board_id cache [] = pure []
  tasks_json board_id cache (task ∷ tasks) = do
    named ← name_of_found board_id cache task.status_id (cached_name task.status_id cache)
    rest ← tasks_json board_id named.1 tasks
    pure (task_with_name task named.0 ∷ rest)

  unfoldable pub tasks_failure : Failure → Response
  tasks_failure (other_exception t) = build_error_response 500 "INTERNAL_ERROR" t end
  tasks_failure f = delete_failure lib f

  unfoldable pub get_board_tasks : Request → ℕ → M Response
  get_board_tasks req user_id = do
    reject_if (not (method_is req.method get_method)) 405 "METHOD_NOT_ALLOWED"
        "Only GET is supported for this endpoint" end
    board_id ← lift (require_int_param lib req "board_id")
    owned_board lib "BOARD_NOT_FOUND" "Board not found" user_id board_id
    tasks ← Tasks.find_by_board_id lib board_id
    listed ← tasks_json board_id [] tasks
    pure (ok_response (json_array listed))

  unfoldable pub handle_get_board_tasks : Request → ℕ → World → Response × World
  handle_get_board_tasks req user_id w = catching tasks_failure (get_board_tasks req user_id w)

  -- The query of the target, or an answer.
  unfoldable pub query : Option (List (Text × Text)) → M (List (Text × Text))
  query none = do
    reject_if true 400 "INVALID_FORMAT" "Invalid field format"
        (field "query" (str "Invalid query format") end)
    pure []
  query (some params) = pure params

  unfoldable pub statuses_failure : Failure → Response
  statuses_failure (runtime_error t) =
      build_error_response 500 "DATABASE_ERROR" (codes "Database error") end
  statuses_failure f = delete_failure lib f

  unfoldable pub statuses_of : ℕ → Option ℕ → M (List Status)
  statuses_of user_id none = Statuses.find_by_user_id lib user_id
  statuses_of user_id (some board_id) = do
    owned_board lib "BOARD_NOT_FOUND" "Board not found" user_id board_id
    Statuses.find_by_board_id lib board_id

  unfoldable pub get_all_statuses : Request → ℕ → M Response
  get_all_statuses req user_id = do
    reject_if (not (method_is req.method get_method)) 405 "METHOD_NOT_ALLOWED"
        "Only GET is supported for this endpoint" end
    params ← query req.params
    board_id ← lift (
        optional_param lib.stoll status_param (codes "board_id")
          (find_param (codes "board_id") params))
    statuses ← statuses_of user_id board_id
    pure (ok_response (json_array (map status_to_json statuses)))

  unfoldable pub handle_get_all_statuses : Request → ℕ → World → Response × World
  handle_get_all_statuses req user_id w = catching statuses_failure (get_all_statuses req user_id w)

  unfoldable pub tasks_on_board : ℕ → Option ℕ → M (List Task)
  tasks_on_board board_id none = Tasks.find_by_board_id lib board_id
  tasks_on_board board_id (some status_id) = do
    found ← Statuses.find_by_id lib status_id
    status ← found_or found (not_found "STATUS_NOT_FOUND" "Status not found")
    reject_if (not (status.board_id == board_id)) 400 "VALIDATION_ERROR" "Invalid field value"
        (field "status_id" (str "status_id must reference a status from this board") end)
    Tasks.find_by_board_and_status_id lib board_id status_id

  unfoldable pub tasks_of : ℕ → Option ℕ → Option ℕ → M (List Task)
  tasks_of user_id none status_id = Tasks.find_by_user_id lib user_id
  tasks_of user_id (some board_id) status_id = do
    owned_board lib "BOARD_NOT_FOUND" "Board not found" user_id board_id
    tasks_on_board board_id status_id

  unfoldable pub get_all_tasks : Request → ℕ → M Response
  get_all_tasks req user_id = do
    reject_if (not (method_is req.method get_method)) 405 "METHOD_NOT_ALLOWED"
        "Only GET is supported for this endpoint" end
    params ← query req.params
    board_id ← lift (
        optional_param lib.stoll task_param (codes "board_id")
          (find_param (codes "board_id") params))
    status_id ← lift (
        optional_param lib.stoll task_param (codes "status_id")
          (find_param (codes "status_id") params))
    reject_if (given status_id && not (given board_id)) 400 "VALIDATION_ERROR" "Invalid field value"
        (field "status_id" (str "status_id can be used only with board_id") end)
    tasks ← tasks_of user_id board_id status_id
    pure (ok_response (json_array (map (task_to_json lib) tasks)))

  unfoldable pub handle_get_all_tasks : Request → ℕ → World → Response × World
  handle_get_all_tasks req user_id w = catching tasks_failure (get_all_tasks req user_id w)
