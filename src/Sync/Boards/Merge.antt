-- ===== src/Sync/Boards/Merge.antt =====
-- What `BoardSyncManager::saveFromServer` makes of a board that the server sends.
use hse_project_2026_chronos.Base.{
  ◌≡◌, refl, sym, ap, ◌∙◌, subst, true, false, Option, none, some, is_empty, inl, inr, ◌⊎◌, arith,
}
use hse_project_2026_chronos.Base.Int.{ℤ, eq_ℤ, eq_ℤ_iff}
use hse_project_2026_chronos.Local.Rows.{Env, LocalBoard, conflict}
use hse_project_2026_chronos.Local.Table.{find_row, find_row-holds}
use hse_project_2026_chronos.Local.Schema.{has_board_id, board_checks, touch_board}
use hse_project_2026_chronos.Local.Db.{
  Db, Result, is_ok, pure, ◌>>◌, drop_value-db, drop_value-is_ok,
}
use hse_project_2026_chronos.Local.Boards.{find_by_id, insert_board_row, update_board_row, save}
use hse_project_2026_chronos.Local.Boards.Save.{saved_row, save_stores}
use hse_project_2026_chronos.Sync.Boards.{save_from_server, keeps_local}

-- The parts of a board that a merge is about.
abbrev pub SameContent : Env → LocalBoard → LocalBoard → Type 0
SameContent env row board =
    (row.id ≡ board.id)
    × (row.title ≡ env.trimmed board.title)
    × (row.description ≡ board.description)
    × (row.deleted_at ≡ board.deleted_at)
    × (row.sync_status ≡ board.sync_status)
    × (row.server_version ≡ board.server_version)

saved_row-SameContent :
    (env : Env) (board : LocalBoard) (found : Option LocalBoard)
    → SameContent env (saved_row env board found) board
unfolding insert_board_row update_board_row touch_board
saved_row-SameContent env board none = (refl, refl, refl, refl, refl, refl)
saved_row-SameContent env board (some old) = ground arith

module _ (env : Env) (board : LocalBoard) (db : Db) where
  pub merge-kept :
      (existing : LocalBoard)
      → find_row (has_board_id board.id) db.boards ≡ some existing
      → keeps_local existing board ≡ true
      → save_from_server env board db
        ≡ (save env (record existing { sync_status = conflict }) >> pure tt) db
  unfolding save_from_server find_by_id
  merge-kept existing found keeps = rw (found, keeps)

  merge-taken :
      (existing : LocalBoard)
      → find_row (has_board_id board.id) db.boards ≡ some existing
      → keeps_local existing board ≡ false
      → save_from_server env board db ≡ (save env board >> pure tt) db
  unfolding save_from_server find_by_id
  merge-taken existing found keeps = rw (found, keeps)

  merge-new :
      find_row (has_board_id board.id) db.boards ≡ none
      → save_from_server env board db ≡ (save env board >> pure tt) db
  unfolding save_from_server find_by_id
  merge-new missing = rw missing

  abbrev pub Merged : ℤ → LocalBoard → Result (Unit {0}) × Db → Type 0
  Merged j content end =
      (is_ok end.0 ≡ true)
      × ((row : LocalBoard) × (find_row (has_board_id board.id) end.1.boards ≡ some row)
          × SameContent env row content)
      × (find_row (has_board_id j) end.1.boards ≡ find_row (has_board_id j) db.boards)
      × (end.1.statuses ≡ db.statuses)
      × (end.1.tasks ≡ db.tasks)

  save_merges :
      (content : LocalBoard) (j : ℤ)
      → content.id ≡ board.id
      → eq_ℤ content.id j ≡ false
      → is_empty (env.trimmed content.title) ≡ false
      → board_checks (update_board_row env content) ≡ true
      → Merged j content ((save env content >> pure tt) db)
  save_merges content j same apart title checks =
      let stored = save_stores env content db title j apart checks in
      let drop = drop_value-db (save env content db) in
      (
        drop_value-is_ok (save env content db) ∙ stored.0,
        (
          saved_row env content (find_row (has_board_id content.id) db.boards),
          subst
              (λ i.
                find_row (has_board_id i) ((save env content >> pure tt) db).1.boards
                ≡ some (saved_row env content (find_row (has_board_id content.id) db.boards)))
              same (ap (λ d. find_row (has_board_id content.id) d.boards) drop ∙ stored.1),
          saved_row-SameContent env content (find_row (has_board_id content.id) db.boards),
        ),
        ap (λ d. find_row (has_board_id j) d.boards) drop ∙ stored.2,
        ap (λ d. d.statuses) drop ∙ stored.3,
        ap (λ d. d.tasks) drop ∙ stored.4,
      )

  -- A local change that the server has not seen and that is newer than the server's board
  -- survives as a conflict, where its own title and description are fit to be saved: the row
  -- keeps the local title, description, deletion mark and version, and a board with another id,
  -- the statuses and the tasks stay.
  pub local_change_kept :
      (existing : LocalBoard) (j : ℤ)
      → find_row (has_board_id board.id) db.boards ≡ some existing
      → keeps_local existing board ≡ true
      → eq_ℤ board.id j ≡ false
      → is_empty (env.trimmed existing.title) ≡ false
      → board_checks (update_board_row env existing) ≡ true
      → Merged j (record existing { sync_status = conflict }) (save_from_server env board db)
  unfolding update_board_row board_checks
  local_change_kept existing j found keeps apart title checks =
      let same =
        (eq_ℤ_iff existing.id board.id).0
          (find_row-holds (has_board_id board.id) db.boards existing found) in
      rw (merge-kept existing found keeps) (
        save_merges (record existing { sync_status = conflict }) j same
          (subst (λ i. eq_ℤ i j ≡ false) (sym same) apart) title checks)

  -- In every other case a board of the server whose title and description are fit to be saved is
  -- stored as it came: a local row that is not pending, or is not newer, is overwritten, and a
  -- board that was not there is added. A board with another id, the statuses and the tasks stay.
  pub server_row_stored :
      (j : ℤ)
      → ((existing : LocalBoard) × (find_row (has_board_id board.id) db.boards ≡ some existing)
          × (keeps_local existing board ≡ false))
        ⊎ (find_row (has_board_id board.id) db.boards ≡ none)
      → eq_ℤ board.id j ≡ false
      → is_empty (env.trimmed board.title) ≡ false
      → board_checks (update_board_row env board) ≡ true
      → Merged j board (save_from_server env board db)
  server_row_stored j (inl (existing, found, older)) apart title checks =
      rw (merge-taken existing found older) (save_merges board j refl apart title checks)
  server_row_stored j (inr missing) apart title checks =
      rw (merge-new missing) (save_merges board j refl apart title checks)
