-- ===== src/Server/Handlers/Tasks.antt =====
-- backend/src/server/task/v1: the handlers that write tasks.
use Prim.Native.String.{String}
use hse_project_2026_chronos.Base.{
  ℕ, Bool, false, not, Option, none, some, List, [], ◌∷◌, ◌++◌, ltb, ◌==◌, codes, length, text_eq,
  if◌then◌else◌,
}
use hse_project_2026_chronos.Base.Int.{ℤ, pos, leb_ℤ, ltb_ℤ, pos_part}
use hse_project_2026_chronos.Json.{Json, Members, null, bool, string, object, end, get}
use hse_project_2026_chronos.Server.Rows.{Text, Task, task_error, bad_size}
use hse_project_2026_chronos.Server.Http.{
  Request, Response, Libraries, post, patch, delete_method, str, field, number,
  build_error_response, ok_response, no_content,
}
use hse_project_2026_chronos.Server.Action.{
  World, M, Result, Failure, ok, failed, missing_field, bad_type, bad_value, invalid_argument,
  length_error, other_exception, pure, lift, fail_if, reject_if, found_or, construct, what, ◌>>=◌,
  ◌>>◌,
}
use hse_project_2026_chronos.Server.Repositories.Statuses
use hse_project_2026_chronos.Server.Repositories.Tasks
use hse_project_2026_chronos.Server.Handlers.{
  method_is, object_body, collect_missing_fields, fields_present, require_positive_int_field,
  require_string_field, optional_string_field, catching, detail,
}
use hse_project_2026_chronos.Server.Handlers.Owned.{not_found, owned_board, delete_failure}

-- `value.substr(0, value.size() - 1)` and `value.back()`.
unfoldable pub before_last : Text → Text
before_last [] = []
before_last (c ∷ []) = []
before_last (c ∷ d ∷ cs) = c ∷ before_last (d ∷ cs)

unfoldable pub last_is : ℕ → Text → Bool
last_is x [] = false
last_is x (c ∷ []) = c == x
last_is x (c ∷ d ∷ cs) = last_is x (d ∷ cs)

-- `body["is_completed"]`, where it is a boolean.
unfoldable pub completed_flag : Option Json → Bool
completed_flag (some (bool b)) = b
completed_flag _ = false

abbrev pub edit_keys : List String
edit_keys = "task_id" ∷ "title" ∷ "description" ∷ "status_id" ∷ "priority_color" ∷ []

module _ (lib : Libraries) where
  unfoldable pub not_before_epoch : Option ℤ → Result ℤ
  not_before_epoch none = failed (bad_value (codes "deadline"))
  not_before_epoch (some t) =
      if ltb_ℤ t (pos 0) then failed (bad_value (codes "deadline")) else ok t

  unfoldable pub parse_iso8601_utc : Text → Result ℤ
  unfolding not_before_epoch before_last last_is
  parse_iso8601_utc value =
      if not (last_is 90 value)
      then failed (bad_value (codes "deadline"))
      else not_before_epoch (lib.get_time (before_last value))

  unfoldable pub deadline_of : Result ℤ → Result (Option ℤ)
  deadline_of (ok t) = ok (some t)
  deadline_of (failed f) = failed f

  unfoldable pub deadline_value : Option Json → Result (Option ℤ)
  unfolding deadline_of parse_iso8601_utc
  deadline_value none = ok none
  deadline_value (some null) = ok none
  deadline_value (some (string t)) = deadline_of (parse_iso8601_utc t)
  deadline_value (some _) = failed (bad_type (codes "deadline"))

  abbrev json_deadline : Option ℤ → Json
  json_deadline none = null
  json_deadline (some t) = string (lib.iso8601 t)

  -- `model_to_json`, before more members.
  unfoldable pub task_members : Task → Members → Members
  task_members t rest = field "id" (number t.id) (
      field "board_id" (number t.board_id) (
        field "title" (string t.title) (
          field "description" (string t.description) (
            field "status_id" (number t.status_id) (
              field "priority_color" (string t.priority_color) (
                field "is_completed" (bool t.is_completed) (
                  field "created_at" (string (lib.iso8601 (pos t.created_at))) (
                    field "updated_at" (string (lib.iso8601 (pos t.updated_at)))
                      (field "deadline" (json_deadline t.deadline) rest)))))))))

  unfoldable pub task_to_json : Task → Json
  unfolding task_members
  task_to_json t = object (task_members t end)

  unfoldable pub create_failure : Failure → Response
  create_failure (bad_value k) =
      build_error_response 400 "VALIDATION_ERROR" (codes "Invalid field value") (
        detail k (
          if text_eq k (codes "deadline")
          then codes "Field deadline must be a valid ISO 8601 UTC datetime"
          else codes "Field " ++ k ++ codes " must be a positive integer"))
  create_failure (other_exception t) = build_error_response 500 "INTERNAL_ERROR" t end
  create_failure f = delete_failure lib f

  unfoldable pub create : Request → ℕ → M Response
  create req user_id = do
    reject_if (not (method_is req.method post)) 405 "METHOD_NOT_ALLOWED"
        "Only POST is supported for this endpoint" end
    body ← lift (
        object_body "Request body contains invalid JSON" "Request body must be a JSON object"
          req.body)
    board_id ← lift (require_positive_int_field lib body "board_id")
    title ← lift (require_string_field body "title")
    description ← lift (optional_string_field body "description")
    status_id ← lift (require_positive_int_field lib body "status_id")
    priority_color ← lift (require_string_field body "priority_color")
    deadline ← lift (deadline_value (get (codes "deadline") body))
    reject_if (bad_size 100 title) 400 "VALIDATION_ERROR" "Invalid field value"
        (field "title" (str "Title must be between 1 and 100 characters") end)
    reject_if (ltb 1000 (length description)) 400 "VALIDATION_ERROR" "Invalid field value"
        (field "description" (str "Description cannot exceed 1000 characters") end)
    reject_if (bad_size 500 priority_color) 400 "VALIDATION_ERROR" "Invalid field value"
        (field "priority_color" (str "Priority color must be between 1 and 50 characters") end)
    owned_board lib "BOARD_NOT_FOUND" "Board not found" user_id board_id
    found ← Statuses.find_by_id lib status_id
    status ← found_or found (not_found "STATUS_NOT_FOUND" "Status not found")
    reject_if (not (status.board_id == board_id)) 400 "VALIDATION_ERROR" "Invalid field value"
        (field "status_id" (str "status_id must reference a status from this board") end)
    new_task ← construct task_error (record {
      id = 0;
      board_id = board_id;
      title = title;
      description = description;
      deadline = deadline;
      status_id = status_id;
      priority_color = priority_color;
      is_completed = completed_flag (get (codes "is_completed") body);
      created_at = 0;
      updated_at = 0;
    })
    created ← Tasks.save lib new_task
    pure (ok_response (task_to_json created))

  unfoldable pub handle_create : Request → ℕ → World → Response × World
  handle_create req user_id w = catching create_failure (create req user_id w)

  -- A task on a board of the user.
  unfoldable pub owned_task : String → String → ℕ → ℕ → M Task
  owned_task code message user_id task_id = do
    found ← Tasks.find_by_id lib task_id
    task ← found_or found (not_found "TASK_NOT_FOUND" "Task not found")
    owned_board lib code message user_id task.board_id
    pure task

  -- `get<std::string>`, `get<int>` and `get<bool>`, whose type_error the handler does not name.
  unfoldable pub get_string : Json → Result Text
  get_string (string t) = ok t
  get_string _ = failed (other_exception lib.type_error)

  unfoldable pub get_bool : Json → Result Bool
  get_bool (bool b) = ok b
  get_bool _ = failed (other_exception lib.type_error)

  unfoldable pub or_type_error : Option ℤ → Result ℤ
  or_type_error none = failed (other_exception lib.type_error)
  or_type_error (some n) = ok n

  unfoldable pub edited_title : Text → Option Json → M Text
  edited_title existing none = pure existing
  edited_title existing (some v) = do
    title ← lift (get_string v)
    reject_if (bad_size 100 title) 400 "VALIDATION_ERROR" "Validation failed"
        (field "title" (str "Title must be between 1 and 100 characters") end)
    pure title

  unfoldable pub edited_description : Text → Option Json → M Text
  edited_description existing none = pure existing
  edited_description existing (some v) = do
    description ← lift (get_string v)
    reject_if (ltb 1000 (length description)) 400 "VALIDATION_ERROR" "Validation failed"
        (field "description" (str "Description cannot exceed 1000 characters") end)
    pure description

  unfoldable pub edited_status : Task → Option Json → M ℕ
  edited_status existing none = pure existing.status_id
  edited_status existing (some v) = do
    status_id ← lift (or_type_error (lib.get_int v))
    reject_if (leb_ℤ status_id (pos 0)) 400 "VALIDATION_ERROR" "Validation failed"
        (field "status_id" (str "Field must be a positive integer") end)
    found ← Statuses.find_by_id lib (pos_part status_id)
    status ← found_or found (not_found "STATUS_NOT_FOUND" "Status not found")
    reject_if (not (status.board_id == existing.board_id)) 400 "VALIDATION_ERROR"
        "Validation failed"
        (field "status_id" (str "status_id must reference a status from this board") end)
    pure (pos_part status_id)

  unfoldable pub edited_color : Text → Option Json → M Text
  edited_color existing none = pure existing
  edited_color existing (some v) = do
    color ← lift (get_string v)
    reject_if (bad_size 50 color) 400 "VALIDATION_ERROR" "Validation failed"
        (field "priority_color" (str "Priority color must be between 1 and 50 characters") end)
    pure color

  unfoldable pub edited_flag : Bool → Option Json → Result Bool
  unfolding get_bool
  edited_flag existing none = ok existing
  edited_flag existing (some v) = get_bool v

  unfoldable pub edited_deadline : Option ℤ → Option Json → Result (Option ℤ)
  unfolding deadline_value
  edited_deadline existing none = ok existing
  edited_deadline existing (some v) = deadline_value (some v)

  unfoldable pub edit_failure : Failure → Response
  edit_failure (missing_field k) =
      build_error_response 400 "MISSING_FIELD" (codes "Missing required fields")
        (detail k (codes "Missing required field"))
  edit_failure (bad_type k) =
      build_error_response 400 "INVALID_FORMAT" (codes "Invalid field format")
        (detail k (codes "Invalid " ++ k ++ codes " format"))
  edit_failure (bad_value k) =
      build_error_response 400 "VALIDATION_ERROR" (codes "Validation failed")
        (detail k (codes "Field must be a positive integer"))
  edit_failure (invalid_argument t) =
      build_error_response 400 "VALIDATION_ERROR" (codes "Validation failed") end
  edit_failure (other_exception t) =
      build_error_response 500 "INTERNAL_ERROR" (codes "Internal server error") end
  edit_failure length_error =
      build_error_response 500 "INTERNAL_ERROR" (codes "Internal server error") end
  edit_failure _ = build_error_response 500 "DATABASE_ERROR" (codes "Database error") end

  unfoldable pub edit : Request → ℕ → M Response
  edit req user_id = do
    reject_if (not (method_is req.method patch)) 405 "DUPLICATE_RESOURCE" "Method not allowed" end
    body ← lift (object_body "Invalid JSON format" "Invalid JSON format" req.body)
    lift (fields_present (collect_missing_fields edit_keys body))
    task_id ← lift (require_positive_int_field lib body "task_id")
    existing ← owned_task "BOARD_NOT_FOUND" "Board not found" user_id task_id
    title ← edited_title existing.title (get (codes "title") body)
    description ← edited_description existing.description (get (codes "description") body)
    status_id ← edited_status existing (get (codes "status_id") body)
    priority_color ← edited_color existing.priority_color (get (codes "priority_color") body)
    is_completed ← lift (edited_flag existing.is_completed (get (codes "is_completed") body))
    deadline ← lift (edited_deadline existing.deadline (get (codes "deadline") body))
    task_to_save ← construct task_error (record existing {
      title = title;
      description = description;
      deadline = deadline;
      status_id = status_id;
      priority_color = priority_color;
      is_completed = is_completed;
    })
    updated_task ← Tasks.save lib task_to_save
    pure (ok_response (task_to_json updated_task))

  unfoldable pub handle_edit : Request → ℕ → World → Response × World
  handle_edit req user_id w = catching edit_failure (edit req user_id w)

  unfoldable pub delete_task_failure : Failure → Response
  delete_task_failure (other_exception t) = build_error_response 500 "DATABASE_ERROR" t end
  delete_task_failure length_error =
      build_error_response 500 "DATABASE_ERROR" (what lib length_error) end
  delete_task_failure f = delete_failure lib f

  unfoldable pub delete : Request → ℕ → M Response
  delete req user_id = do
    reject_if (not (method_is req.method delete_method)) 405 "DUPLICATE_RESOURCE"
        "Method not allowed" end
    body ← lift (
        object_body "Request body contains invalid JSON" "Request body must be a JSON object"
          req.body)
    task_id ← lift (require_positive_int_field lib body "task_id")
    owned_task "TASK_NOT_FOUND" "Task not found" user_id task_id
    deleted ← Tasks.delete_by_id lib task_id
    fail_if (not deleted) (not_found "TASK_NOT_FOUND" "Task not found")
    pure no_content

  unfoldable pub handle_delete : Request → ℕ → World → Response × World
  handle_delete req user_id w = catching delete_task_failure (delete req user_id w)
