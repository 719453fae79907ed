-- ===== src/Server/Handlers/Statuses.antt =====
-- backend/src/server/status/v1: the handlers of statuses.
use hse_project_2026_chronos.Base.{
  ℕ, Bool, true, false, not, Option, none, some, [], ◌∷◌, ◌++◌, ◌==◌, codes, text_eq, if◌then◌else◌,
}
use hse_project_2026_chronos.Json.{Json, string, object, end}
use hse_project_2026_chronos.Server.Rows.{Text, Status, status_error, bad_size}
use hse_project_2026_chronos.Server.Http.{
  Request, Response, Libraries, post, patch, delete_method, str, field, number,
  build_error_response, ok_response, no_content,
}
use hse_project_2026_chronos.Server.Action.{
  World, M, Failure, missing_field, bad_type, bad_value, length_error, unique_violation,
  sql_failure, runtime_error, other_exception, pure, fail_if, lift, reject_if, found_or, construct,
  ◌>>=◌, ◌>>◌,
}
use hse_project_2026_chronos.Server.Repositories.Statuses
use hse_project_2026_chronos.Server.Handlers.{
  method_is, object_body, collect_missing_fields, fields_present, require_positive_int_field,
  require_non_negative_int_field, require_string_field, catching, detail,
}
use hse_project_2026_chronos.Server.Handlers.Owned.{not_found, owned_board, delete_failure}

unfoldable pub status_to_json : Status → Json
status_to_json s = object (
    field "id" (number s.id) (
      field "board_id" (number s.board_id)
        (field "name" (string s.name) (field "position" (number s.position) end))))

abbrev pub has_other_id : Option Status → ℕ → Bool
has_other_id none id = false
has_other_id (some s) id = not (s.id == id)

abbrev pub is_there : Option Status → Bool
is_there none = false
is_there (some s) = true

-- `catch (const std::invalid_argument& e)` of `create` and `edit`, which differ in the id's name.
unfoldable pub argument_failure : Text → Failure → Response
argument_failure id_detail (missing_field k) =
    build_error_response 400 "MISSING_FIELD" (codes "Missing required fields")
      (detail k (codes "Missing required field"))
argument_failure id_detail (bad_type k) =
    build_error_response 400 "INVALID_FORMAT" (codes "Invalid field format")
      (detail k (codes "Invalid " ++ k ++ codes " format"))
argument_failure id_detail (bad_value k) =
    build_error_response 400 "VALIDATION_ERROR" (codes "Validation failed") (
      detail k (
        if text_eq k (codes "position")
        then codes "Position must be greater than or equal to 0"
        else id_detail))
argument_failure id_detail _ =
    build_error_response 400 "VALIDATION_ERROR" (codes "Validation failed") end

unfoldable pub create_failure : Failure → Response
create_failure unique_violation =
    build_error_response 409 "DUPLICATE_RESOURCE" (codes "Status with this name already exists")
      (field "name" (str "already exists") end)
create_failure sql_failure = build_error_response 500 "DATABASE_ERROR" (codes "Database error") end
create_failure (runtime_error t) =
    build_error_response 500 "INTERNAL_ERROR" (codes "Internal error") end
create_failure (other_exception t) =
    build_error_response 500 "INTERNAL_ERROR" (codes "Internal error") end
create_failure length_error = build_error_response 500 "INTERNAL_ERROR" (codes "Internal error") end
create_failure f = argument_failure (codes "Board id must be positive") f

module _ (lib : Libraries) where
  unfoldable pub edit_failure : Failure → Response
  edit_failure unique_violation =
      build_error_response 405 "DUPLICATE_RESOURCE" (codes "Status with this name already exists")
        (field "name" (str "already exists") end)
  edit_failure sql_failure = build_error_response 500 "DATABASE_ERROR" (codes "Database error") end
  edit_failure (runtime_error t) = build_error_response 500 "DATABASE_ERROR" t end
  edit_failure (other_exception t) =
      build_error_response 500 "INTERNAL_ERROR" (codes "Internal server error") end
  edit_failure length_error =
      build_error_response 500 "INTERNAL_ERROR" (codes "Internal server error") end
  edit_failure f = argument_failure (codes "Status id must be positive") f

  unfoldable pub create : Request → ℕ → M Response
  create req user_id = do
    reject_if (not (method_is req.method post)) 405 "DUPLICATE_RESOURCE" "Method not allowed" end
    body ← lift (object_body "Invalid JSON format" "Invalid JSON format" req.body)
    lift (fields_present (collect_missing_fields ("board_id" ∷ "name" ∷ "position" ∷ []) body))
    board_id ← lift (require_positive_int_field lib body "board_id")
    name ← lift (require_string_field body "name")
    position ← lift (require_non_negative_int_field lib body "position")
    reject_if (bad_size 50 name) 400 "VALIDATION_ERROR" "Validation failed"
        (field "name" (str "Name length must be between 1 and 50 symbols") end)
    owned_board lib "BOARD_NOT_FOUND" "Board not found" user_id board_id
    existing_status ← Statuses.find_by_board_and_name lib board_id name
    reject_if (is_there existing_status) 409 "DUPLICATE_RESOURCE"
        "Status with this name already exists" (field "name" (str "already exists") end)
    new_status ←
        construct status_error
          (record { id = 0; board_id = board_id; name = name; position = position })
    created_status ← Statuses.save lib new_status
    pure (ok_response (status_to_json created_status))

  unfoldable pub handle_create : Request → ℕ → World → Response × World
  handle_create req user_id w = catching create_failure (create req user_id w)

  -- A status on a board of the user.
  unfoldable pub owned_status : ℕ → ℕ → M Status
  owned_status user_id status_id = do
    found ← Statuses.find_by_id lib status_id
    status ← found_or found (not_found "STATUS_NOT_FOUND" "Status not found")
    owned_board lib "STATUS_NOT_FOUND" "Status not found" user_id status.board_id
    pure status

  unfoldable pub edit : Request → ℕ → M Response
  edit req user_id = do
    reject_if (not (method_is req.method patch)) 405 "DUPLICATE_RESOURCE" "Method not allowed" end
    body ← lift (object_body "Invalid JSON format" "Invalid JSON format" req.body)
    lift (fields_present (collect_missing_fields ("status_id" ∷ "name" ∷ "position" ∷ []) body))
    status_id ← lift (require_positive_int_field lib body "status_id")
    name ← lift (require_string_field body "name")
    position ← lift (require_non_negative_int_field lib body "position")
    reject_if (bad_size 50 name) 400 "VALIDATION_ERROR" "Validation failed"
        (field "name" (str "Name length must be between 1 and 50 symbols") end)
    old_status ← owned_status user_id status_id
    existing_status ← Statuses.find_by_board_and_name lib old_status.board_id name
    reject_if (has_other_id existing_status status_id) 405 "DUPLICATE_RESOURCE"
        "Status with this name already exists" (field "name" (str "already exists") end)
    status_to_save ← construct status_error (record {
      id = status_id;
      board_id = old_status.board_id;
      name = name;
      position = position;
    })
    updated_status ← Statuses.save lib status_to_save
    pure (ok_response (status_to_json updated_status))

  unfoldable pub handle_edit : Request → ℕ → World → Response × World
  handle_edit req user_id w = catching edit_failure (edit req user_id w)

  unfoldable pub delete : Request → ℕ → M Response
  delete req user_id = do
    reject_if (not (method_is req.method delete_method)) 405 "DUPLICATE_RESOURCE"
        "Method not allowed" end
    body ← lift (
        object_body "Request body contains invalid JSON" "Request body must be a JSON object"
          req.body)
    status_id ← lift (require_positive_int_field lib body "status_id")
    owned_status user_id status_id
    deleted ← Statuses.delete_by_id lib status_id
    fail_if (not deleted) (not_found "STATUS_NOT_FOUND" "Status not found")
    pure no_content

  unfoldable pub handle_delete : Request → ℕ → World → Response × World
  handle_delete req user_id w = catching (delete_failure lib) (delete req user_id w)
