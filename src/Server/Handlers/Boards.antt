-- ===== src/Server/Handlers/Boards.antt =====
-- backend/src/server/board/v1: the handlers of boards. The last argument of each is the user that
-- `with_auth` gives.
use hse_project_2026_chronos.Base.{ℕ, not, [], ◌∷◌, ◌++◌, ltb, codes, length}
use hse_project_2026_chronos.Base.Int.{pos}
use hse_project_2026_chronos.Json.{Json, string, object, end}
use hse_project_2026_chronos.Server.Rows.{Board, board_error, bad_size}
use hse_project_2026_chronos.Server.Http.{
  Request, Response, Libraries, post, patch, delete_method, str, field, number,
  build_error_response, ok_response, no_content,
}
use hse_project_2026_chronos.Server.Action.{
  World, M, Failure, missing_field, bad_type, bad_value, invalid_argument, length_error,
  other_exception, pure, lift, fail_if, reject_if, construct, ◌>>=◌, ◌>>◌,
}
use hse_project_2026_chronos.Server.Repositories.Boards
use hse_project_2026_chronos.Server.Handlers.Owned.{not_found, owned_board, delete_failure}
use hse_project_2026_chronos.Server.Handlers.{
  method_is, object_body, collect_missing_fields, fields_present, require_positive_int_field,
  require_string_field, optional_string_field, catching, detail,
}

module _ (lib : Libraries) where
  -- `model_to_json`.
  unfoldable pub board_to_json : Board → Json
  board_to_json b = object (
      field "id" (number b.id) (
        field "user_id" (number b.user_id) (
          field "title" (string b.title) (
            field "description" (string b.description) (
              field "created_at" (string (lib.iso8601 (pos b.created_at)))
                (field "updated_at" (string (lib.iso8601 (pos b.updated_at))) end))))))

  unfoldable pub create_failure : Failure → Response
  create_failure (missing_field k) =
      build_error_response 400 "MISSING_FIELD" (codes "Missing required fields")
        (detail k (codes "Missing required field"))
  create_failure (bad_type k) =
      build_error_response 400 "INVALID_FORMAT" (codes "Invalid field format")
        (detail k (codes "Invalid " ++ k ++ codes " format"))
  create_failure (bad_value k) =
      build_error_response 400 "VALIDATION_ERROR" (codes "Validation failed") end
  create_failure (invalid_argument t) =
      build_error_response 400 "VALIDATION_ERROR" (codes "Validation failed") end
  create_failure (other_exception t) =
      build_error_response 500 "INTERNAL_ERROR" (codes "Internal server error") end
  create_failure length_error =
      build_error_response 500 "INTERNAL_ERROR" (codes "Internal server error") end
  create_failure _ = build_error_response 500 "DATABASE_ERROR" (codes "Database error") end

  unfoldable pub create : Request → ℕ → M Response
  create req user_id = do
    reject_if (not (method_is req.method post)) 405 "DUPLICATE_RESOURCE" "Method not allowed" end
    body ← lift (object_body "Invalid JSON format" "Invalid JSON format" req.body)
    lift (fields_present (collect_missing_fields ("title" ∷ []) body))
    title ← lift (require_string_field body "title")
    description ← lift (optional_string_field body "description")
    reject_if (bad_size 100 title) 400 "VALIDATION_ERROR" "Validation failed"
        (field "title" (str "Title length must be between 1 and 100 symbols") end)
    reject_if (ltb 1000 (length description)) 400 "VALIDATION_ERROR" "Validation failed"
        (field "description" (str "Description cannot exceed 1000 symbols") end)
    new_board ← construct board_error (record {
      id = 0;
      user_id = user_id;
      title = title;
      description = description;
      created_at = 0;
      updated_at = 0;
    })
    created_board ← Boards.save lib new_board
    pure (ok_response (board_to_json created_board))

  unfoldable pub handle_create : Request → ℕ → World → Response × World
  handle_create req user_id w = catching create_failure (create req user_id w)

  unfoldable pub edit_failure : Failure → Response
  edit_failure (bad_value k) =
      build_error_response 400 "VALIDATION_ERROR" (codes "Validation failed")
        (detail k (codes "Field must be a positive integer"))
  edit_failure f = create_failure f

  unfoldable pub edit : Request → ℕ → M Response
  edit req user_id = do
    reject_if (not (method_is req.method patch)) 405 "DUPLICATE_RESOURCE" "Method not allowed" end
    body ← lift (object_body "Invalid JSON format" "Invalid JSON format" req.body)
    lift (fields_present (collect_missing_fields ("board_id" ∷ "title" ∷ "description" ∷ []) body))
    board_id ← lift (require_positive_int_field lib body "board_id")
    existing_board ← owned_board lib "BOARD_NOT_FOUND" "Board not found" user_id board_id
    title ← lift (require_string_field body "title")
    reject_if (bad_size 100 title) 400 "VALIDATION_ERROR" "Validation failed"
        (field "title" (str "Title must be between 1 and 100 characters") end)
    description ← lift (require_string_field body "description")
    reject_if (ltb 1000 (length description)) 400 "VALIDATION_ERROR" "Validation failed"
        (field "description" (str "Description cannot exceed 1000 characters") end)
    board_to_save ←
        construct board_error (record existing_board { title = title; description = description })
    updated_board ← Boards.save lib board_to_save
    pure (ok_response (board_to_json updated_board))

  unfoldable pub handle_edit : Request → ℕ → World → Response × World
  handle_edit req user_id w = catching edit_failure (edit req user_id w)

  unfoldable pub delete : Request → ℕ → M Response
  delete req user_id = do
    reject_if (not (method_is req.method delete_method)) 405 "DUPLICATE_RESOURCE"
        "Method not allowed" end
    body ← lift (
        object_body "Request body contains invalid JSON" "Request body must be a JSON object"
          req.body)
    board_id ← lift (require_positive_int_field lib body "board_id")
    owned_board lib "BOARD_NOT_FOUND" "Board not found" user_id board_id
    deleted ← Boards.delete_by_id lib board_id
    fail_if (not deleted) (not_found "BOARD_NOT_FOUND" "Board not found")
    pure no_content

  unfoldable pub handle_delete : Request → ℕ → World → Response × World
  handle_delete req user_id w = catching (delete_failure lib) (delete req user_id w)
