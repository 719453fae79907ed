-- ===== src/Local/Boards/Moved.antt =====
-- The rows that `LocalBoardRepository::replaceId` writes.
use hse_project_2026_chronos.Base.{
  ◌≡◌, refl, true, false, ◌&&◌, List, [], ◌∷◌, inl, inr, Bool-cases, if◌then◌else◌, text_eq, arith,
}
use hse_project_2026_chronos.Base.Int.{ℤ, eq_ℤ, eq_ℤ_iff}
use hse_project_2026_chronos.Local.Rows.{Text, Env, LocalBoard, LocalStatus, LocalTask}
use hse_project_2026_chronos.Local.Table.{any_row, update_where}
use hse_project_2026_chronos.Local.Schema.{
  on_board, task_on_board, unique_names, touch_board, touch_status, touch_task,
}
use hse_project_2026_chronos.Local.Schema.Updates.{
  touch_status-same, touch_task-same, touch_board-same,
}

abbrev pub moved_status : Env → ℤ → LocalStatus → LocalStatus
moved_status env new s = touch_status env s (record s { board_id = new })

-- The row with another board, changed at the time `now`.
abbrev pub status_on : ℤ → Text → LocalStatus → LocalStatus
status_on new now s = record s { board_id = new; updated_at = now }

abbrev pub task_on : ℤ → Text → LocalTask → LocalTask
task_on new now t = record t { board_id = new; updated_at = now }

abbrev pub moved_task : Env → ℤ → LocalTask → LocalTask
moved_task env new t = touch_task env t (record t { board_id = new })

abbrev pub renamed_board : Env → ℤ → LocalBoard → LocalBoard
renamed_board env new b = touch_board env b (record b { id = new })

module _ (env : Env) (old new : ℤ) where
  pub status-moved :
      (s : LocalStatus)
      → moved_status env new s ≡ record s { board_id = new; updated_at = env.now_sql }
  status-moved s = touch_status-same env s (record s { board_id = new }) refl

  pub task-moved :
      (t : LocalTask) → moved_task env new t ≡ record t { board_id = new; updated_at = env.now_sql }
  task-moved t = touch_task-same env t (record t { board_id = new }) refl

  pub board-renamed :
      (b : LocalBoard) → renamed_board env new b ≡ record b { id = new; updated_at = env.now_sql }
  board-renamed b = touch_board-same env b (record b { id = new }) refl

  pub on_board-moved :
      eq_ℤ old new ≡ false → (s : LocalStatus) → on_board old (moved_status env new s) ≡ false
  on_board-moved h s = rw (status-moved s) (grind (arith, eq_ℤ_iff old new, eq_ℤ_iff new old))

  pub task_on_board-moved :
      eq_ℤ old new ≡ false → (t : LocalTask) → task_on_board old (moved_task env new t) ≡ false
  task_on_board-moved h t = rw (task-moved t) (grind (arith, eq_ℤ_iff old new, eq_ℤ_iff new old))

  pub on_new-moved : (s : LocalStatus) → on_board new (moved_status env new s) ≡ true
  on_new-moved s = rw (status-moved s) ((eq_ℤ_iff new new).1 refl)

  -- Two statuses that an update moves to an empty board have one name after it only if they had
  -- one before.
  names_apart :
      (s : LocalStatus) (ss : List LocalStatus)
      → any_row (on_board new) (s ∷ ss) ≡ false
      → any_row (λ t. eq_ℤ t.board_id s.board_id && text_eq t.name s.name) ss ≡ false
      → any_row
          (λ t.
            eq_ℤ t.board_id (if on_board old s then new else s.board_id) && text_eq t.name s.name)
          (update_where (on_board old) (moved_status env new) ss)
        ≡ false
  unfolding any_row update_where
  names_apart s [] free h = refl
  names_apart s (t ∷ ts) free h = elim (Bool-cases (on_board old t)) [
    | inl here ↦
        rw (here, status-moved t)
          (grind (
            arith,
            eq_ℤ_iff t.board_id old,
            eq_ℤ_iff s.board_id old,
            eq_ℤ_iff t.board_id s.board_id,
            eq_ℤ_iff new s.board_id,
            eq_ℤ_iff s.board_id new,
            names_apart s ts,
          ))
    | inr there ↦ rw (there) (
        grind (
          arith,
          eq_ℤ_iff t.board_id new,
          eq_ℤ_iff s.board_id old,
          eq_ℤ_iff t.board_id s.board_id,
          names_apart s ts,
        ))
  ]

  pub unique_names-moved :
      (ss : List LocalStatus)
      → any_row (on_board new) ss ≡ false
      → unique_names ss ≡ true
      → unique_names (update_where (on_board old) (moved_status env new) ss) ≡ true
  unfolding any_row update_where unique_names
  unique_names-moved [] free h = refl
  unique_names-moved (s ∷ ss) free h = elim (Bool-cases (on_board old s)) [
    | inl here ↦
        rw (here, status-moved s) (ground (arith, here, names_apart s ss, unique_names-moved ss))
    | inr there ↦ rw there (ground (arith, there, names_apart s ss, unique_names-moved ss))
  ]
