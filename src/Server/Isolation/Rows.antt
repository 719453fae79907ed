-- ===== src/Server/Isolation/Rows.antt =====
-- No write for a user changes what another user can see.
use hse_project_2026_chronos.Base.{
  ℕ, ◌≡◌, ◌≢◌, refl, sym, ap, subst, ◌∙◌, true, false, not, ◌&&◌, ◌||◌, some, List, [], ◌∷◌, ◌==◌,
  ==_iff, arith, inl, inr, Option-cases,
}
use hse_project_2026_chronos.Local.Table.{
  find_row, any_row, all_rows, any_row-append, any_row-of_none, all_rows_mono, all_rows-of_all,
}
use hse_project_2026_chronos.Server.Rows.{Board, Status, Task}
use hse_project_2026_chronos.Server.Tables.{
  Tables, NextIds, board_has_id, status_has_id, task_has_id, delete_board, delete_status, add_board,
  add_status, add_task, edit_board, edit_status, edit_task, delete_task,
}
use hse_project_2026_chronos.Server.Repositories.Statuses.{owns}
use hse_project_2026_chronos.Server.Repositories.Boards.{board_of_user}
use hse_project_2026_chronos.Server.Steps.{status_on_board}
use hse_project_2026_chronos.Server.Steps.Owned.{owns-of_found}
use hse_project_2026_chronos.Server.Selections.{
  select_where-update_where_other, select_where-delete_where_other, any_row-update_where_other,
  any_row-delete_where_other, select_where-append_other, ascending_unique, any_row_mono,
}
use hse_project_2026_chronos.Server.Invariant.{WellFormed}
use hse_project_2026_chronos.Server.Isolation.{view, view_ext, owner_unique, one_owner, one_board}

status_found :
    (id board_id : ℕ) (statuses : List Status)
    → status_on_board id board_id statuses ≡ true
    → (s : Status) × (find_row (status_has_id id) statuses ≡ some s)
unfolding status_on_board
status_found id board_id statuses h = elim (Option-cases (find_row (status_has_id id) statuses)) [
  | inl missing ↦ absurd (
      ground (
        arith,
        any_row-of_none (status_has_id id) statuses missing,
        any_row_mono (λ s. s.id == id && s.board_id == board_id) (status_has_id id)
            (λ s. ground arith) statuses h,
      ))
  | inr found ↦ found
]

module _ (t : Tables) (n : NextIds) (wf : WellFormed t n) (user other : ℕ)
    (apart : other ≢ user) where
  not_theirs : (id : ℕ) → owns user id t.boards ≡ true → owns other id t.boards ≡ false
  not_theirs id owned =
      one_owner other id user apart t.boards
        (owner_unique 1 n.board id user t.boards wf.boards_ascend owned)

  -- The status of a task is on one board.
  same_board :
      (id board_id board_id' : ℕ)
      → status_on_board id board_id t.statuses ≡ true
      → status_on_board id board_id' t.statuses ≡ true
      → board_id' ≡ board_id
  same_board id board_id board_id' h h' =
      let (s, found) = status_found id board_id t.statuses h in
      let unique =
        ascending_unique (λ (s : Status). s.id) 1 n.status id (λ r. r.board_id == s.board_id) s
          (ground arith) t.statuses wf.statuses_ascend found in
      one_board id s.board_id board_id' t.statuses unique h'
      ∙ sym (one_board id s.board_id board_id t.statuses unique h)

  pub board_added-view :
      (row : Board) → row.user_id ≡ user → view other (add_board row t) ≡ view other t
  unfolding owns any_row
  board_added-view row owner =
      let theirs : (row.user_id == other) ≡ false = ground (arith, owner, apart) in
      view_ext other t (add_board row t)
        (select_where-append_other (board_of_user other) row theirs t.boards)
        (λ id.
          any_row-append (λ b. b.id == id && b.user_id == other) t.boards (row ∷ [])
          ∙ ground (arith, theirs))
        refl refl

  pub status_added-view :
      (row : Status)
      → owns user row.board_id t.boards ≡ true
      → view other (add_status row t) ≡ view other t
  status_added-view row owned =
      view_ext other t (add_status row t) refl (λ id. refl)
        (select_where-append_other (λ s. owns other s.board_id t.boards) row
          (not_theirs row.board_id owned) t.statuses)
        refl

  pub task_added-view :
      (row : Task)
      → owns user row.board_id t.boards ≡ true
      → view other (add_task row t) ≡ view other t
  task_added-view row owned =
      view_ext other t (add_task row t) refl (λ id. refl) refl
        (select_where-append_other (λ k. owns other k.board_id t.boards) row
          (not_theirs row.board_id owned) t.tasks)

  -- The rows of a found id are the user's, so another test of theirs passes on none of them.
  module _ (id : ℕ) (old : Board) (found : find_row (board_has_id id) t.boards ≡ some old)
      (owner : old.user_id ≡ user) where
    board_apart :
        all_rows (λ b. not (board_has_id id b) || not (board_of_user other b)) t.boards ≡ true
    board_apart =
        ascending_unique (λ (b : Board). b.id) 1 n.board id (λ b. not (board_of_user other b)) old
          (ground (arith, owner, apart)) t.boards wf.boards_ascend found

    board_apart_on :
        (i : ℕ)
        → all_rows (λ b. not (board_has_id id b) || not (b.id == i && b.user_id == other)) t.boards
          ≡ true
    board_apart_on i = all_rows_mono _ _ (λ b. ground arith) t.boards board_apart

    pub board_edited-view :
        (row : Board)
        → row.id ≡ id
        → row.user_id ≡ user
        → view other (edit_board row t) ≡ view other t
    unfolding owns
    board_edited-view row same mine =
        let edited = λ (b : Board). record row { id = b.id; created_at = b.created_at } in
        let theirs : (row.user_id == other) ≡ false = ground (arith, mine, apart) in
        let at = λ (P : ℕ → Type 0) (h : P id). subst P (sym same) h in
        view_ext other t (edit_board row t)
          (select_where-update_where_other (board_has_id row.id) (board_of_user other) edited
            (λ b h k. theirs) t.boards
            (at
              (λ i.
                all_rows (λ b. not (board_has_id i b) || not (board_of_user other b)) t.boards
                ≡ true)
              board_apart))
          (λ i.
            any_row-update_where_other (board_has_id row.id) (λ b. b.id == i && b.user_id == other)
              edited (λ b h k. ground (arith, theirs)) t.boards
              (at
                (λ j.
                  all_rows (λ b. not (board_has_id j b) || not (b.id == i && b.user_id == other))
                    t.boards
                  ≡ true)
                (board_apart_on i)))
          refl refl

    -- What is on this board is the user's.
    not_on_board : (i : ℕ) → (i == id) ≡ true → owns other i t.boards ≡ false
    not_on_board i here =
        subst (λ j. owns other j t.boards ≡ false) (sym ((==_iff i id).0 here))
          (not_theirs id (owns-of_found user id t.boards old found owner))

    statuses_apart :
        all_rows (λ s. not (s.board_id == id) || not (owns other s.board_id t.boards)) t.statuses
        ≡ true
    statuses_apart = all_rows-of_all _ (λ s. ground (arith, not_on_board s.board_id)) t.statuses

    tasks_apart :
        all_rows
          (λ k.
            not (k.board_id == id || status_on_board k.status_id id t.statuses)
            || not (owns other k.board_id t.boards))
          t.tasks
        ≡ true
    tasks_apart =
        all_rows_mono _ _
          (λ k placed.
            ground (arith, not_on_board k.board_id, same_board k.status_id id k.board_id, placed))
          t.tasks wf.tasks_in_statuses

    pub board_deleted-view : view other (delete_board id t) ≡ view other t
    unfolding owns delete_board status_on_board
    board_deleted-view =
        view_ext other t (delete_board id t)
          (select_where-delete_where_other (board_has_id id) (board_of_user other) t.boards
            board_apart)
          (λ i.
            any_row-delete_where_other (board_has_id id) (λ b. b.id == i && b.user_id == other)
              t.boards (board_apart_on i))
          (select_where-delete_where_other (λ s. s.board_id == id)
            (λ s. owns other s.board_id t.boards) t.statuses statuses_apart)
          (select_where-delete_where_other
            (λ k. k.board_id == id || status_on_board k.status_id id t.statuses)
            (λ k. owns other k.board_id t.boards) t.tasks tasks_apart)

  module _ (id : ℕ) (old : Status) (found : find_row (status_has_id id) t.statuses ≡ some old)
      (owned : owns user old.board_id t.boards ≡ true) where
    status_apart :
        all_rows (λ s. not (status_has_id id s) || not (owns other s.board_id t.boards)) t.statuses
        ≡ true
    status_apart =
        ascending_unique (λ (s : Status). s.id) 1 n.status id
          (λ s. not (owns other s.board_id t.boards)) old (ap not (not_theirs old.board_id owned))
          t.statuses wf.statuses_ascend found

    pub status_edited-view :
        (row : Status) → row.id ≡ id → view other (edit_status row t) ≡ view other t
    status_edited-view row same =
        view_ext other t (edit_status row t) refl (λ i. refl)
          (select_where-update_where_other (status_has_id row.id)
            (λ s. owns other s.board_id t.boards)
            (λ s. record s { name = row.name; position = row.position }) (λ s h k. k) t.statuses
            (subst
              (λ i.
                all_rows (λ s. not (status_has_id i s) || not (owns other s.board_id t.boards))
                  t.statuses
                ≡ true)
              (sym same) status_apart))
          refl

    statuses_unique :
        all_rows (λ s. not (s.id == id) || s.board_id == old.board_id) t.statuses ≡ true
    statuses_unique =
        ascending_unique (λ (s : Status). s.id) 1 n.status id (λ s. s.board_id == old.board_id) old
          (ground arith) t.statuses wf.statuses_ascend found

    task_apart_in :
        (k : Task)
        → status_on_board k.status_id k.board_id t.statuses ≡ true
        → (k.status_id == id) ≡ true
        → owns other k.board_id t.boards ≡ false
    task_apart_in k placed here =
        let placed' =
          subst (λ i. status_on_board i k.board_id t.statuses ≡ true)
            ((==_iff k.status_id id).0 here) placed in
        subst (λ b. owns other b t.boards ≡ false)
          (sym (one_board id old.board_id k.board_id t.statuses statuses_unique placed'))
          (not_theirs old.board_id owned)

    tasks_in_apart :
        all_rows (λ k. not (k.status_id == id) || not (owns other k.board_id t.boards)) t.tasks
        ≡ true
    tasks_in_apart =
        all_rows_mono _ _ (λ k placed. ground (arith, task_apart_in k placed)) t.tasks
          wf.tasks_in_statuses

    pub status_deleted-view : view other (delete_status id t) ≡ view other t
    unfolding delete_status
    status_deleted-view =
        view_ext other t (delete_status id t) refl (λ i. refl)
          (select_where-delete_where_other (status_has_id id) (λ s. owns other s.board_id t.boards)
            t.statuses status_apart)
          (select_where-delete_where_other (λ k. k.status_id == id)
            (λ k. owns other k.board_id t.boards) t.tasks tasks_in_apart)

  module _ (id : ℕ) (old : Task) (found : find_row (task_has_id id) t.tasks ≡ some old)
      (owned : owns user old.board_id t.boards ≡ true) where
    task_apart :
        all_rows (λ k. not (task_has_id id k) || not (owns other k.board_id t.boards)) t.tasks
        ≡ true
    task_apart =
        ascending_unique (λ (k : Task). k.id) 1 n.task id
          (λ k. not (owns other k.board_id t.boards)) old (ap not (not_theirs old.board_id owned))
          t.tasks wf.tasks_ascend found

    pub task_edited-view :
        (row : Task)
        → row.id ≡ id
        → row.board_id ≡ old.board_id
        → view other (edit_task row t) ≡ view other t
    task_edited-view row same same_board =
        let theirs =
          subst (λ b. owns other b t.boards ≡ false) (sym same_board)
            (not_theirs old.board_id owned) in
        view_ext other t (edit_task row t) refl (λ i. refl) refl
          (select_where-update_where_other (task_has_id row.id)
            (λ k. owns other k.board_id t.boards)
            (λ k. record row { id = k.id; created_at = k.created_at }) (λ k h l. theirs) t.tasks
            (subst
              (λ i.
                all_rows (λ k. not (task_has_id i k) || not (owns other k.board_id t.boards))
                  t.tasks
                ≡ true)
              (sym same) task_apart))

    pub task_deleted-view : view other (delete_task id t) ≡ view other t
    task_deleted-view =
        view_ext other t (delete_task id t) refl (λ i. refl) refl
          (select_where-delete_where_other (task_has_id id) (λ k. owns other k.board_id t.boards)
            t.tasks task_apart)
