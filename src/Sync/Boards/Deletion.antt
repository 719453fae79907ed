-- ===== src/Sync/Boards/Deletion.antt =====
-- A board that is deleted here (`LocalBoardRepository::markDeletedById`) while the server still has
-- it, and the server's row arriving at `BoardSyncManager::saveFromServer`.
use hse_project_2026_chronos.Base.{
  ◌≡◌, refl, true, false, not, ◌||◌, some, [], ◌∷◌, ◌++◌, is_empty, inl, arith,
}
use hse_project_2026_chronos.Base.Int.{ℤ, eq_ℤ}
use hse_project_2026_chronos.Local.Rows.{Env, Text, LocalBoard, text_lt, pending}
use hse_project_2026_chronos.Local.Table.{
  find_row, all_rows, update_where, all_rows_mono, find_row-update_where, find_row-holds,
}
use hse_project_2026_chronos.Local.Schema.{has_board_id, board_checks, touch_board, update_boards}
use hse_project_2026_chronos.Local.Schema.Updates.{update_boards-eq-some, touch_board-same}
use hse_project_2026_chronos.Local.Db.{Db, ok, exec_or_throw-some}
use hse_project_2026_chronos.Local.Boards.{update_board_row, mark_deleted_by_id}
use hse_project_2026_chronos.Sync.Boards.{save_from_server, keeps_local}
use hse_project_2026_chronos.Sync.Boards.Merge.{Merged, server_row_stored}

-- A timestamp of SQLite has a space (32) after the day, one of ISO 8601 a T (84).
abbrev pub sql_time : Text → Text → Text
sql_time day time = day ++ 32 ∷ time

abbrev pub iso_time : Text → Text → Text
iso_time day time = day ++ 84 ∷ time

text_lt-same_day : (day t u : Text) → text_lt (iso_time day t) (sql_time day u) ≡ false
unfolding text_lt
text_lt-same_day [] t u = refl
text_lt-same_day (x ∷ xs) t u = ground (arith, text_lt-same_day xs t u)

abbrev marked : Env → LocalBoard → LocalBoard
marked env b = touch_board env b (record b { deleted_at = env.now_sql; sync_status = pending })

marked-eq :
    (env : Env) (b : LocalBoard)
    → marked env b
      ≡ record b { deleted_at = env.now_sql; sync_status = pending; updated_at = env.now_sql }
marked-eq env b =
    touch_board-same env b (record b { deleted_at = env.now_sql; sync_status = pending }) refl

module _ (env : Env) (db : Db) (i : ℤ) where
  still_checked :
      (b : LocalBoard)
      → board_checks b ≡ true
      → (not (has_board_id i b)
          || board_checks (record b { deleted_at = env.now_sql; sync_status = pending }))
        ≡ true
  unfolding board_checks
  still_checked b h = ground (arith, h)

  mark_deleted-eq :
      all_rows board_checks db.boards ≡ true
      → mark_deleted_by_id env i db
        ≡ (ok tt, record db { boards = update_where (has_board_id i) (marked env) db.boards })
  unfolding mark_deleted_by_id
  mark_deleted-eq checks =
      exec_or_throw-some
        (update_boards env (has_board_id i)
          (λ b. record b { deleted_at = env.now_sql; sync_status = pending }))
        db (record db { boards = update_where (has_board_id i) (marked env) db.boards })
        (update_boards-eq-some env (has_board_id i)
          (λ b. record b { deleted_at = env.now_sql; sync_status = pending }) db
          (all_rows_mono board_checks
            (λ b.
              not (has_board_id i b)
              || board_checks (record b { deleted_at = env.now_sql; sync_status = pending }))
            still_checked db.boards checks))

  mark_deleted-found :
      (b : LocalBoard)
      → all_rows board_checks db.boards ≡ true
      → find_row (has_board_id i) db.boards ≡ some b
      → find_row (has_board_id i) (mark_deleted_by_id env i db).1.boards ≡ some (marked env b)
  mark_deleted-found b checks found = rw (mark_deleted-eq checks) (
      find_row-update_where (has_board_id i) (marked env) db.boards b found
        (rw (marked-eq env b) (find_row-holds (has_board_id i) db.boards b found)))

older :
    (env : Env) (board b : LocalBoard) (day deleted_time server_time : Text)
    → env.now_sql ≡ sql_time day deleted_time
    → board.updated_at ≡ iso_time day server_time
    → keeps_local (marked env b) board ≡ false
unfolding keeps_local
older env board b day deleted_time server_time now server =
    rw (marked-eq env b, now, server) (text_lt-same_day day server_time deleted_time)

-- A board that is deleted here is undone by the server's row of the same day, even one that was
-- written at an earlier hour: the database writes a space where the server writes a T, so the row
-- of the server counts as the newer one, and it is stored with its own deletion mark and its own
-- state; a board with another id, the statuses and the tasks stay in that. The boards satisfy
-- their checks, and the title and description of the server's row are fit to be saved.
pub deletion_undone :
    (env : Env) (db : Db) (board b : LocalBoard) (day deleted_time server_time : Text) (j : ℤ)
    → env.now_sql ≡ sql_time day deleted_time
    → board.updated_at ≡ iso_time day server_time
    → all_rows board_checks db.boards ≡ true
    → find_row (has_board_id board.id) db.boards ≡ some b
    → eq_ℤ board.id j ≡ false
    → is_empty (env.trimmed board.title) ≡ false
    → board_checks (update_board_row env board) ≡ true
    → Merged env board
        (mark_deleted_by_id env board.id db).1
        j
        board
        (save_from_server env board (mark_deleted_by_id env board.id db).1)
deletion_undone env db board b day deleted_time server_time j now server checks found apart title
      short =
    server_row_stored env board (mark_deleted_by_id env board.id db).1 j
      (inl (
        marked env b,
        mark_deleted-found env db board.id b checks found,
        older env board b day deleted_time server_time now server,
      ))
      apart title short
