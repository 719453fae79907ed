-- ===== src/Sync/Boards/LostEdit.antt =====
-- A board that is edited again between a request and its reply, at
-- `BoardSyncManager::handlePushResponse`.
use hse_project_2026_chronos.Base.{◌≡◌, refl, ◌∙◌, true, false, not, ◌||◌, some, is_empty, arith}
use hse_project_2026_chronos.Base.Int.{ℤ, pos, negsuc, eq_ℤ}
use hse_project_2026_chronos.Json.{Json}
use hse_project_2026_chronos.Local.Rows.{Env, LocalBoard, synced, conflict}
use hse_project_2026_chronos.Local.Table.{
  find_row, all_rows, update_where, all_rows_mono, find_row-update_where, find_row-holds,
}
use hse_project_2026_chronos.Local.Schema.{has_board_id, board_checks, touch_board, update_boards}
use hse_project_2026_chronos.Local.Schema.Updates.{update_boards-eq-some, touch_board-same}
use hse_project_2026_chronos.Local.Db.{
  Db, ok, is_ok, pure, continue-ok, ◌>>◌, exec_or_throw-some, drop_value-db,
}
use hse_project_2026_chronos.Local.Boards.{update_board_row, save, mark_synced}
use hse_project_2026_chronos.Local.Boards.Save.{save-checked}
use hse_project_2026_chronos.Sync.Wire.{Operation, code_is_error, response_data}
use hse_project_2026_chronos.Sync.Boards.{
  board_from_json, save_from_server, keeps_local, handle_push_response,
}
use hse_project_2026_chronos.Sync.Boards.Merge.{local_change_kept, merge-kept}

abbrev as_synced : Env → LocalBoard → LocalBoard
as_synced env b = touch_board env b (record b { sync_status = synced })

as_synced-eq :
    (env : Env) (b : LocalBoard)
    → as_synced env b ≡ record b { sync_status = synced; updated_at = env.now_sql }
as_synced-eq env b = touch_board-same env b (record b { sync_status = synced }) refl

module _ (env : Env) (i : ℤ) where
  still_checked :
      (b : LocalBoard)
      → board_checks b ≡ true
      → (not (has_board_id i b) || board_checks (record b { sync_status = synced })) ≡ true
  unfolding board_checks
  still_checked b h = ground (arith, h)

  mark_synced-eq :
      (db : Db)
      → all_rows board_checks db.boards ≡ true
      → mark_synced env i db
        ≡ (ok tt, record db { boards = update_where (has_board_id i) (as_synced env) db.boards })
  unfolding mark_synced
  mark_synced-eq db checks =
      exec_or_throw-some
        (update_boards env (has_board_id i) (λ b. record b { sync_status = synced })) db
        (record db { boards = update_where (has_board_id i) (as_synced env) db.boards })
        (update_boards-eq-some env (has_board_id i) (λ b. record b { sync_status = synced }) db
          (all_rows_mono board_checks
            (λ b. not (has_board_id i b) || board_checks (record b { sync_status = synced }))
            still_checked db.boards checks))

  mark_synced-is_ok :
      (db : Db) → all_rows board_checks db.boards ≡ true → is_ok (mark_synced env i db).0 ≡ true
  mark_synced-is_ok db checks = rw (mark_synced-eq db checks) refl

  mark_synced-found :
      (db : Db) (b : LocalBoard)
      → all_rows board_checks db.boards ≡ true
      → find_row (has_board_id i) db.boards ≡ some b
      → find_row (has_board_id i) (mark_synced env i db).1.boards ≡ some (as_synced env b)
  mark_synced-found db b checks found = rw (mark_synced-eq db checks) (
      find_row-update_where (has_board_id i) (as_synced env) db.boards b found
        (rw (as_synced-eq env b) (find_row-holds (has_board_id i) db.boards b found)))

-- What the reply to an update does, once the server's row is merged.
after_merge :
    (env : Env) (response : Json) (code i : ℤ) (db : Db) (board : LocalBoard)
    → code_is_error code ≡ false
    → board_from_json env (response_data response) ≡ board
    → is_ok (save_from_server env board db).0 ≡ true
    → all_rows board_checks (save_from_server env board db).1.boards ≡ true
    → handle_push_response env response code i Operation.update db
      ≡ (ok true, (mark_synced env i (save_from_server env board db).1).1)
unfolding handle_push_response
after_merge env response code i db board fine received merged checks =
    let saved = save_from_server env board db in
    rw (fine, received)
      (continue-ok saved (mark_synced env i >> pure true) merged
        ∙ continue-ok (mark_synced env i saved.1) (pure true)
            (mark_synced-is_ok env i saved.1 checks))

merged-checks :
    (env : Env) (board existing : LocalBoard) (db : Db)
    → find_row (has_board_id board.id) db.boards ≡ some existing
    → keeps_local existing board ≡ true
    → is_empty (env.trimmed existing.title) ≡ false
    → board_checks (update_board_row env existing) ≡ true
    → all_rows board_checks db.boards ≡ true
    → all_rows board_checks (save_from_server env board db).1.boards ≡ true
unfolding board_checks update_board_row
merged-checks env board existing db found newer title short checks =
    let kept = record existing { sync_status = conflict } in
    rw (merge-kept env board db existing found newer, drop_value-db (save env kept db))
      (save-checked env kept db title short checks)

-- Some other id.
another : ℤ → ℤ
another (pos n) = negsuc 0
another (negsuc n) = pos 0

another-apart : (i : ℤ) → eq_ℤ i (another i) ≡ false
unfolding another
another-apart (pos n) = refl
another-apart (negsuc n) = refl

-- A change of a board that is made between an update request and its reply, and is newer than the
-- server's row in the reply, stays in the table, but its row is marked as synced and not as a
-- conflict, and the handler reports success. The changed title and description are fit to be
-- saved and the boards satisfy their checks.
pub newer_edit_marked_synced :
    (env : Env) (response : Json) (code : ℤ) (db : Db) (board existing : LocalBoard)
    → code_is_error code ≡ false
    → board_from_json env (response_data response) ≡ board
    → find_row (has_board_id board.id) db.boards ≡ some existing
    → keeps_local existing board ≡ true
    → is_empty (env.trimmed existing.title) ≡ false
    → board_checks (update_board_row env existing) ≡ true
    → all_rows board_checks db.boards ≡ true
    → ((handle_push_response env response code board.id Operation.update db).0 ≡ ok true)
      × ((row : LocalBoard) × (find_row
              (has_board_id board.id)
              (handle_push_response env response code board.id Operation.update db).1.boards
            ≡ some row)
          × (row.title ≡ env.trimmed existing.title)
          × (row.description ≡ existing.description)
          × (row.sync_status ≡ synced))
newer_edit_marked_synced env response code db board existing fine received found newer title short
      checks =
    let merged =
      local_change_kept env board db existing (another board.id) found newer
        (another-apart board.id) title short in
    let checked = merged-checks env board existing db found newer title short checks in
    let row = merged.1.0 in
    rw (after_merge env response code board.id db board fine received merged.0 checked) (
      refl,
      (
        as_synced env row,
        mark_synced-found env board.id (save_from_server env board db).1 row checked merged.1.1,
        rw (as_synced-eq env row) merged.1.2.1,
        rw (as_synced-eq env row) merged.1.2.2,
        rw (as_synced-eq env row) refl,
      ),
    )
