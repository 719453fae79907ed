-- ===== src/Forms/CreateBoard.antt =====
-- A board that is made on frontend/src/board_create_screen.cpp and its row in the local database.
use hse_project_2026_chronos.Base.{
  ◌≡◌, refl, ap, subst, ◌∙◌, true, false, none, some, leb, is_empty, length,
}
use hse_project_2026_chronos.Base.Int.{ℤ, pos, eq_ℤ, ltb_ℤ}
use hse_project_2026_chronos.Local.Rows.{Env, Text, LocalBoard, pending}
use hse_project_2026_chronos.Local.Table.{find_row, find_row-eq-none}
use hse_project_2026_chronos.Local.Schema.{has_board_id, board_checks}
use hse_project_2026_chronos.Local.Db.{
  Db, Result, ok, thrown, is_ok, pure, catch_with, continue_with,
}
use hse_project_2026_chronos.Local.Boards.{
  create_local_id, insert_board_row, update_board_row, save,
}
use hse_project_2026_chronos.Local.Boards.Save.{saved_row, save_stores}
use hse_project_2026_chronos.Local.NewIds.{create_local_id-fresh}
use hse_project_2026_chronos.Forms.Fields.{board_fields}
use hse_project_2026_chronos.Forms.{
  validate_board_fields, new_board, created, not_saved, after_validation, create_board,
}

created_end :
    (end : Result LocalBoard × Db)
    → is_ok end.0 ≡ true
    → catch_with
        (continue_with end.0 end.1 (λ _. pure created)).0
        (continue_with end.0 end.1 (λ _. pure created)).1
        (pure not_saved)
      ≡ (ok created, end.1)
created_end (ok b, db) h = refl
created_end (thrown, db) h = cc

module _ (env : Env) (user_id : ℤ) (title_input description_input : Text) (db : Db)
    (once_title : env.trimmed (env.trimmed title_input) ≡ env.trimmed title_input)
    (once_description : env.trimmed (env.trimmed description_input) ≡ env.trimmed description_input)
    (logged_in : ltb_ℤ (pos 0) user_id ≡ true)
    (accepted : validate_board_fields env (env.trimmed title_input) (env.trimmed description_input)
      ≡ none) where
  row : LocalBoard
  row = new_board user_id (env.trimmed title_input) (env.trimmed description_input) db

  row-filled : is_empty (env.trimmed row.title) ≡ false
  unfolding row new_board
  row-filled =
      (board_fields env (env.trimmed title_input) (env.trimmed description_input) accepted).0

  row-checked : board_checks (update_board_row env row) ≡ true
  unfolding row new_board board_checks update_board_row
  row-checked =
      let fields =
        board_fields env (env.trimmed title_input) (env.trimmed description_input) accepted in
      rw (fields.1, fields.2) (subst (λ d. leb (length d) 1000 ≡ true) once_description fields.3)

  row-new : find_row (has_board_id (create_local_id db)) db.boards ≡ none
  row-new =
      find_row-eq-none (has_board_id (create_local_id db)) db.boards (create_local_id-fresh db).0.1

  create_board-eq :
      is_ok (save env row db).0 ≡ true
      → create_board env user_id title_input description_input db
        ≡ (ok created, (save env row db).1)
  unfolding create_board after_validation row
  create_board-eq h = rw accepted (rw logged_in (created_end (save env row db) h))

  -- A board whose fields the form accepts is created, for a user who is logged in: the database then
  -- has, under the id of `createLocalId`, a row for this user with the trimmed fields, which waits to
  -- be sent to the server as a new one; a board with another id and all statuses and tasks stay as
  -- they were. Trimming a trimmed field again is taken to change nothing.
  pub create_board_stores :
      (j : ℤ)
      → eq_ℤ (create_local_id db) j ≡ false
      → ((create_board env user_id title_input description_input db).0 ≡ ok created)
        × ((stored : LocalBoard) × (find_row
                (has_board_id (create_local_id db))
                (create_board env user_id title_input description_input db).1.boards
              ≡ some stored)
            × (stored.user_id ≡ user_id)
            × (stored.title ≡ env.trimmed title_input)
            × (stored.description ≡ env.trimmed description_input)
            × (stored.sync_status ≡ pending)
            × (stored.server_version ≡ pos 0))
        × (find_row
              (has_board_id j)
              (create_board env user_id title_input description_input db).1.boards
            ≡ find_row (has_board_id j) db.boards)
        × ((create_board env user_id title_input description_input db).1.statuses ≡ db.statuses)
        × ((create_board env user_id title_input description_input db).1.tasks ≡ db.tasks)
  unfolding row new_board insert_board_row
  create_board_stores j apart =
      let saved = save_stores env row db row-filled j apart row-checked in
      rw (create_board-eq saved.0) (
        refl,
        (
          saved_row env row none,
          saved.1 ∙ ap (λ found. some (saved_row env row found)) row-new,
          refl,
          once_title,
          refl,
          refl,
          refl,
        ),
        saved.2,
        saved.3,
        saved.4,
      )
