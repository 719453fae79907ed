-- ===== src/Forms.antt =====
-- frontend/include/validation_utils.h, the fields of boards, statuses and tasks, and
-- `BoardCreateScreen::onCreateBoardRequest` of frontend/src/board_create_screen.cpp.
pub mod Fields
pub mod CreateBoard
mod Tests
use hse_project_2026_chronos.Base.{
  ℕ, ◌+◌, Bool, true, false, Option, none, some, [], ◌∷◌, ltb, if◌then◌else◌, is_empty,
}
use hse_project_2026_chronos.Base.Int.{ℤ, pos, ltb_ℤ}
use hse_project_2026_chronos.Local.Rows.{Env, Text, LocalBoard, pending}
use hse_project_2026_chronos.Local.Db.{Db, M, pure, ◌>>◌, try_catch}
use hse_project_2026_chronos.Local.Boards.{create_local_id, save}

-- The messages, by what they say; `none` is the empty message.
pub data FieldError : Type 0 where
  title_missing title_length description_length : FieldError

-- `QString::length`: a character beyond the basic plane is two units of UTF-16. SQLite's length()
-- counts it once.
unfoldable pub utf16_length : Text → ℕ
utf16_length [] = 0
utf16_length (c ∷ cs) = (if ltb c 65536 then 1 else 2) + utf16_length cs

unfoldable pub validate_board_fields : Env → Text → Text → Option FieldError
unfolding utf16_length
validate_board_fields env title description =
    if is_empty (env.trimmed title)
    then some title_missing
    else if ltb 100 (utf16_length (env.trimmed title))
    then some title_length
    else if ltb 1000 (utf16_length (env.trimmed description))
    then some description_length
    else none

unfoldable pub validate_status_name : Env → Text → Option FieldError
unfolding utf16_length
validate_status_name env name =
    if is_empty (env.trimmed name)
    then some title_missing
    else if ltb 50 (utf16_length (env.trimmed name))
    then some title_length
    else none

unfoldable pub validate_task_fields : Env → Text → Text → Option FieldError
unfolding utf16_length
validate_task_fields env title description =
    if is_empty (env.trimmed title)
    then some title_missing
    else if ltb 100 (utf16_length (env.trimmed title))
    then some title_length
    else if ltb 1000 (utf16_length (env.trimmed description))
    then some description_length
    else none

-- What the screen shows: the form closes, a message on a field, the message that the board could not
-- be saved, or nothing.
pub data Outcome : Type 0 where
  created : Outcome
  invalid : FieldError → Outcome
  not_saved : Outcome
  no_user : Outcome

unfoldable pub new_board : ℤ → Text → Text → Db → LocalBoard
new_board user_id title description db = record {
  id = create_local_id db;
  user_id = user_id;
  title = title;
  description = description;
  created_at = [];
  updated_at = [];
  deleted_at = [];
  sync_status = pending;
  server_version = pos 0;
}

after_validation : Env → ℤ → Text → Text → Option FieldError → M Outcome
after_validation env user_id title description (some e) db = pure (invalid e) db
after_validation env user_id title description none db =
    if ltb_ℤ (pos 0) user_id
    then try_catch (save env (new_board user_id title description db) >> pure created)
        (pure not_saved) db
    else pure no_user db

-- The request for a sync of the boards, which follows a board that is created, is left out.
unfoldable pub create_board : Env → ℤ → Text → Text → M Outcome
unfolding after_validation
create_board env user_id title_input description_input =
    after_validation env user_id (env.trimmed title_input) (env.trimmed description_input)
      (validate_board_fields env (env.trimmed title_input) (env.trimmed description_input))
