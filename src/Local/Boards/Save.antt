-- ===== src/Local/Boards/Save.antt =====
-- What `LocalBoardRepository::save` leaves in the table of boards, for a new row and for a known one.
use hse_project_2026_chronos.Base.{
  ◌≡◌, refl, true, false, not, ◌||◌, Option, none, some, [], ◌∷◌, ◌++◌, is_empty, Option-cases,
  Bool-cases, if◌then◌else◌, text_eq, subst, inl, inr, arith,
}
use hse_project_2026_chronos.Base.Int.{ℤ, eq_ℤ, eq_ℤ_iff}
use hse_project_2026_chronos.Local.Rows.{Env, Text, LocalBoard, processing_timestamp}
use hse_project_2026_chronos.Local.Table.{
  find_row, all_rows, all_rows-append, all_rows-update_where, update_where, find_row-update_where,
  find_row-append, find_row-update_where_other, find_row-append_other, any_row-of_none,
  all_rows-of_all,
}
use hse_project_2026_chronos.Local.Schema.{
  has_board_id, board_checks, touch_board, insert_into_boards, update_boards,
}
use hse_project_2026_chronos.Local.Schema.Updates.{
  insert_into_boards-eq-some, update_boards-eq-some,
}
use hse_project_2026_chronos.Local.Db.{Db, Result, ok, is_ok, exec_or_throw-pure}
use hse_project_2026_chronos.Local.Boards.{
  insert_board_row, update_board_row, find_by_id, insert, update, save,
}

-- A timestamp that is written: the time now in place of an empty one.
abbrev pub stamp : Env → Text → Text
stamp env time = if is_empty time then env.now_iso else time

-- A row with the content of a board, under trimmed title, that was changed at this time.
abbrev pub row_of : Env → LocalBoard → Text → LocalBoard
row_of env board changed_at = record {
  id = board.id;
  user_id = board.user_id;
  title = env.trimmed board.title;
  description = board.description;
  created_at = stamp env board.created_at;
  updated_at = changed_at;
  deleted_at = board.deleted_at;
  sync_status = board.sync_status;
  server_version = board.server_version;
}

-- The row in the table after `save`, where `found` is the row before it: a new row has the time of
-- its creation where the board has no time of a change; the trigger dates a known row whose time
-- stays the same.
abbrev pub saved_row : Env → LocalBoard → Option LocalBoard → LocalBoard
saved_row env board none =
    row_of env board (
      stamp env
        (if is_empty board.updated_at then stamp env board.created_at else board.updated_at))
saved_row env board (some old) = row_of env board (
    if text_eq (stamp env board.updated_at) old.updated_at
    then env.now_sql
    else stamp env board.updated_at)

-- The row that the statements write.
abbrev written_row : Env → LocalBoard → Option LocalBoard → LocalBoard
written_row env board none = insert_board_row env board
written_row env board (some old) = touch_board env old (update_board_row env board)

written_row-saved_row :
    (env : Env) (board : LocalBoard) (found : Option LocalBoard)
    → written_row env board found ≡ saved_row env board found
unfolding insert_board_row update_board_row touch_board processing_timestamp
written_row-saved_row env board none = refl
written_row-saved_row env board (some old) =
    elim (Bool-cases (text_eq (stamp env board.updated_at) old.updated_at)) [
      | inl same ↦ rw same refl
      | inr other ↦ rw other refl
    ]

module _ (env : Env) (board : LocalBoard) (db : Db) where
  touched-id : (b : LocalBoard) → (touch_board env b (update_board_row env board)).id ≡ board.id
  unfolding touch_board update_board_row
  touched-id b = ground arith

  touched_found :
      (b : LocalBoard)
      → has_board_id board.id (touch_board env b (update_board_row env board)) ≡ true
  touched_found b = rw (touched-id b) ((eq_ℤ_iff board.id board.id).1 refl)

  inserted-id : has_board_id board.id (insert_board_row env board) ≡ true
  unfolding insert_board_row
  inserted-id = (eq_ℤ_iff board.id board.id).1 refl

  inserted_other :
      (j : ℤ) → eq_ℤ board.id j ≡ false → has_board_id j (insert_board_row env board) ≡ false
  unfolding insert_board_row
  inserted_other j apart = apart

  touched_other :
      (j : ℤ)
      → eq_ℤ board.id j ≡ false
      → (b : LocalBoard) → has_board_id board.id b ≡ true
      → (has_board_id j b ≡ false)
        × (has_board_id j (touch_board env b (update_board_row env board)) ≡ false)
  touched_other j apart b h = rw (touched-id b) (grind (arith, eq_ℤ_iff b.id board.id), apart)

  inserted_checks :
      board_checks (update_board_row env board) ≡ true
      → board_checks (insert_board_row env board) ≡ true
  unfolding board_checks insert_board_row update_board_row
  inserted_checks h = h

  module _ (title : is_empty (env.trimmed board.title) ≡ false) where
    insert-eq :
        find_row (has_board_id board.id) db.boards ≡ none
        → board_checks (insert_board_row env board) ≡ true
        → insert env board db ≡ (
          ok (insert_board_row env board),
          record db { boards = db.boards ++ insert_board_row env board ∷ [] },
        )
    unfolding insert insert_board_row
    insert-eq missing checks = rw title (
        exec_or_throw-pure (insert_into_boards (insert_board_row env board))
          (insert_board_row env board) db
          (record db { boards = db.boards ++ insert_board_row env board ∷ [] })
          (insert_into_boards-eq-some (insert_board_row env board) db
            (any_row-of_none (has_board_id board.id) db.boards missing) checks))

    update-eq :
        board_checks (update_board_row env board) ≡ true
        → update env board db ≡ (
          ok board,
          record db {
            boards =
                update_where
                  (has_board_id board.id)
                  (λ b. touch_board env b (update_board_row env board))
                  db.boards;
          },
        )
    unfolding update
    update-eq checks = rw title (
        exec_or_throw-pure
          (update_boards env (has_board_id board.id) (λ _. update_board_row env board)) board db
          (record db {
            boards =
                update_where (has_board_id board.id)
                  (λ b. touch_board env b (update_board_row env board)) db.boards;
          })
          (update_boards-eq-some env (has_board_id board.id) (λ _. update_board_row env board) db
            (all_rows-of_all
              (λ b. not (has_board_id board.id b) || board_checks (update_board_row env board))
              (λ b. ground (arith, checks)) db.boards)))

    save-insert :
        find_row (has_board_id board.id) db.boards ≡ none → save env board db ≡ insert env board db
    unfolding save find_by_id
    save-insert missing = rw missing

    save-update :
        (b : LocalBoard)
        → find_row (has_board_id board.id) db.boards ≡ some b
        → save env board db ≡ update env board db
    unfolding save find_by_id
    save-update b found = rw found

    abbrev StoredAs : ℤ → Result LocalBoard × Db → LocalBoard → Type 0
    StoredAs j end row =
        (is_ok end.0 ≡ true)
        × (find_row (has_board_id board.id) end.1.boards ≡ some row)
        × (find_row (has_board_id j) end.1.boards ≡ find_row (has_board_id j) db.boards)
        × (end.1.statuses ≡ db.statuses)
        × (end.1.tasks ≡ db.tasks)

    abbrev Stored : ℤ → Result LocalBoard × Db → Option LocalBoard → Type 0
    Stored j end found = StoredAs j end (written_row env board found)

    insert_stores :
        (j : ℤ)
        → eq_ℤ board.id j ≡ false
        → find_row (has_board_id board.id) db.boards ≡ none
        → board_checks (insert_board_row env board) ≡ true
        → Stored j (insert env board db) none
    insert_stores j apart missing checks = rw (insert-eq missing checks) (
      refl,
      find_row-append (has_board_id board.id) db.boards (insert_board_row env board) missing
          (inserted-id),
      find_row-append_other (has_board_id j) (insert_board_row env board) (inserted_other j apart)
          db.boards,
      refl,
      refl,
    )

    update_stores :
        (j : ℤ)
        → eq_ℤ board.id j ≡ false
        → (b : LocalBoard) → find_row (has_board_id board.id) db.boards ≡ some b
        → board_checks (update_board_row env board) ≡ true
        → Stored j (update env board db) (some b)
    update_stores j apart b found checks = rw (update-eq checks) (
      refl,
      find_row-update_where (has_board_id board.id)
          (λ x. touch_board env x (update_board_row env board)) db.boards b found (touched_found b),
      find_row-update_where_other (has_board_id board.id) (has_board_id j)
          (λ x. touch_board env x (update_board_row env board)) (touched_other j apart) db.boards,
      refl,
      refl,
    )

    save-Stored :
        (j : ℤ)
        → eq_ℤ board.id j ≡ false
        → board_checks (update_board_row env board) ≡ true
        → Stored j (save env board db) (find_row (has_board_id board.id) db.boards)
    save-Stored j apart checks = elim (Option-cases (find_row (has_board_id board.id) db.boards)) [
      | inl missing ↦
          rw (missing, save-insert missing) (insert_stores j apart missing (inserted_checks checks))
      | inr (b, found) ↦ rw (found, save-update b found) (update_stores j apart b found checks)
    ]

    -- A board whose trimmed title is not empty and whose title and description are short enough is
    -- saved: the table then has it under its id, with the trimmed title, its other fields as they are
    -- and its times filled in; a board with another id and the other tables stay as they were.
    pub save_stores :
        (j : ℤ)
        → eq_ℤ board.id j ≡ false
        → board_checks (update_board_row env board) ≡ true
        → (is_ok (save env board db).0 ≡ true)
          × (find_row (has_board_id board.id) (save env board db).1.boards
              ≡ some (saved_row env board (find_row (has_board_id board.id) db.boards)))
          × (find_row (has_board_id j) (save env board db).1.boards
              ≡ find_row (has_board_id j) db.boards)
          × ((save env board db).1.statuses ≡ db.statuses)
          × ((save env board db).1.tasks ≡ db.tasks)
    save_stores j apart checks =
        subst (λ row. StoredAs j (save env board db) row)
          (written_row-saved_row env board (find_row (has_board_id board.id) db.boards))
          (save-Stored j apart checks)

    touched_checks :
        board_checks (update_board_row env board) ≡ true
        → (b : LocalBoard) → board_checks (touch_board env b (update_board_row env board)) ≡ true
    unfolding board_checks touch_board update_board_row
    touched_checks checks b = ground (arith, checks)

    -- The table still passes its checks.
    pub save-checked :
        board_checks (update_board_row env board) ≡ true
        → all_rows board_checks db.boards ≡ true
        → all_rows board_checks (save env board db).1.boards ≡ true
    unfolding all_rows
    save-checked checks all = elim (Option-cases (find_row (has_board_id board.id) db.boards)) [
      | inl missing ↦
          rw
            (
              save-insert missing,
              insert-eq missing (inserted_checks checks),
              all_rows-append board_checks db.boards (insert_board_row env board ∷ []),
              all,
              inserted_checks checks,
            )
            refl
      | inr (b, found) ↦
          rw (save-update b found, update-eq checks)
            (all_rows-update_where board_checks (has_board_id board.id)
              (λ x. touch_board env x (update_board_row env board)) (λ x _. touched_checks checks x)
              db.boards all)
    ]
