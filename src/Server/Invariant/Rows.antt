-- ===== src/Server/Invariant/Rows.antt =====
-- Each kind of write keeps the tables well formed.
use hse_project_2026_chronos.Base.{
  ℕ, ◌≡◌, refl, ap, ◌∙◌, Bool, true, false, not, ◌&&◌, ◌||◌, none, List, [], ◌∷◌, ◌++◌, ◌==◌, arith,
}
use hse_project_2026_chronos.Local.Table.{
  any_row, all_rows, delete_where, any_row-append, all_rows-append, all_rows-update_where,
  all_rows-select_where, all_rows_mono, all_rows-of_all,
}
use hse_project_2026_chronos.Server.Rows.{Board, Status, Task, board_error}
use hse_project_2026_chronos.Server.Tables.{
  Tables, NextIds, board_has_id, status_has_id, task_has_id, board_exists, delete_board,
  delete_status, add_board, add_status, add_task, edit_board, edit_status, edit_task, delete_task,
}
use hse_project_2026_chronos.Server.Action.Worlds.{LaterIds, Fresh}
use hse_project_2026_chronos.Server.Repositories.Statuses.{owns}
use hse_project_2026_chronos.Server.Steps.{status_on_board}
use hse_project_2026_chronos.Server.Selections.{
  ascending-append, ascending_mono, ascending-select_where, ascending-update_where,
  any_row-update_where_same, any_row-delete_where_other, all_rows-delete_where, any_row_mono,
}
use hse_project_2026_chronos.Server.Invariant.{WellFormed, board_valid, no_error}

abbrev board_id_of : Board → ℕ
board_id_of b = b.id

abbrev status_id_of : Status → ℕ
status_id_of s = s.id

abbrev task_id_of : Task → ℕ
task_id_of k = k.id

-- A row of the list that a test passes is still found in a longer list.
any_row-longer :
    {A : Type 0} (q : A → Bool) (xs ys : List A) → any_row q xs ≡ true → any_row q (xs ++ ys) ≡ true
any_row-longer q xs ys h = ground (arith, any_row-append q xs ys)

all_rows-one_more :
    {A : Type 0} (q : A → Bool) (xs : List A) (x : A)
    → all_rows q xs ≡ true
    → q x ≡ true
    → all_rows q (xs ++ x ∷ []) ≡ true
unfolding all_rows
all_rows-one_more q xs x h k = ground (arith, all_rows-append q xs (x ∷ []))

module _ (t : Tables) (n n' : NextIds) (wf : WellFormed t n) (later : LaterIds n n') where
  pub later-WellFormed : WellFormed t n'
  later-WellFormed = record {
    boards_ascend =
        ascending_mono board_id_of 1 1 _ _ (omega arith) later.boards_later _ wf.boards_ascend;
    statuses_ascend =
        ascending_mono status_id_of 1 1 _ _ (omega arith) later.statuses_later _ wf.statuses_ascend;
    tasks_ascend =
        ascending_mono task_id_of 1 1 _ _ (omega arith) later.tasks_later _ wf.tasks_ascend;
    statuses_on_boards = wf.statuses_on_boards;
    tasks_in_statuses = wf.tasks_in_statuses;
    boards_valid = wf.boards_valid;
  }

owns-board_exists :
    (user id : ℕ) (t : Tables) → owns user id t.boards ≡ true → board_exists id t ≡ true
unfolding owns board_exists
owns-board_exists user id t owned =
    any_row_mono (λ b. b.id == id && b.user_id == user) (board_has_id id) (λ b. ground arith) _
      owned

-- A row with another id stays where the rows of an id are deleted.
any_row-delete_other_id :
    {A : Type 0} (p q : A → Bool) (xs : List A)
    → ((x : A) → p x ≡ true → q x ≡ false)
    → any_row q xs ≡ true
    → any_row q (delete_where p xs) ≡ true
any_row-delete_other_id p q xs apart h =
    any_row-delete_where_other p q xs
      (all_rows-of_all (λ x. not (p x) || not (q x)) (λ x. ground (arith, apart x)) xs)
    ∙ h

module _ (t : Tables) (n n' : NextIds) (wf : WellFormed t n) where
  pub board_added-WellFormed :
      (row : Board)
      → Fresh (λ n. n.board) n n' row.id
      → board_error row ≡ none
      → WellFormed (add_board row t) n'
  unfolding board_exists
  board_added-WellFormed row fresh valid =
      let later = later-WellFormed t n n' wf fresh.later in
      record {
        boards_ascend =
            ascending-append board_id_of 1 _ _ row fresh.not_below fresh.below _ wf.boards_ascend;
        statuses_ascend = later.statuses_ascend;
        tasks_ascend = later.tasks_ascend;
        statuses_on_boards =
            all_rows_mono _ _ (λ s. any_row-longer (board_has_id s.board_id) t.boards (row ∷ [])) _
              wf.statuses_on_boards;
        tasks_in_statuses = wf.tasks_in_statuses;
        boards_valid =
            all_rows-one_more board_valid t.boards row wf.boards_valid (ap no_error valid);
      }

  pub status_added-WellFormed :
      (row : Status) (user : ℕ)
      → Fresh (λ n. n.status) n n' row.id
      → owns user row.board_id t.boards ≡ true
      → WellFormed (add_status row t) n'
  unfolding status_on_board board_exists
  status_added-WellFormed row user fresh owned =
      let later = later-WellFormed t n n' wf fresh.later in
      record {
        boards_ascend = later.boards_ascend;
        statuses_ascend =
            ascending-append status_id_of 1 _ _ row fresh.not_below fresh.below _
              wf.statuses_ascend;
        tasks_ascend = later.tasks_ascend;
        statuses_on_boards =
            all_rows-one_more (λ s. board_exists s.board_id t) t.statuses row wf.statuses_on_boards
              (owns-board_exists user row.board_id t owned);
        tasks_in_statuses =
            all_rows_mono _ _
              (λ k.
                any_row-longer (λ s. s.id == k.status_id && s.board_id == k.board_id) t.statuses
                  (row ∷ []))
              _ wf.tasks_in_statuses;
        boards_valid = wf.boards_valid;
      }

  pub task_added-WellFormed :
      (row : Task)
      → Fresh (λ n. n.task) n n' row.id
      → status_on_board row.status_id row.board_id t.statuses ≡ true
      → WellFormed (add_task row t) n'
  unfolding board_exists
  task_added-WellFormed row fresh placed =
      let later = later-WellFormed t n n' wf fresh.later in
      record {
        boards_ascend = later.boards_ascend;
        statuses_ascend = later.statuses_ascend;
        tasks_ascend =
            ascending-append task_id_of 1 _ _ row fresh.not_below fresh.below _ wf.tasks_ascend;
        statuses_on_boards = wf.statuses_on_boards;
        tasks_in_statuses =
            all_rows-one_more (λ k. status_on_board k.status_id k.board_id t.statuses) t.tasks row
              wf.tasks_in_statuses placed;
        boards_valid = wf.boards_valid;
      }

  pub board_edited-WellFormed :
      (row : Board) → board_error row ≡ none → WellFormed (edit_board row t) n
  unfolding board_exists board_error
  board_edited-WellFormed row valid =
      let edited = λ (b : Board). record row { id = b.id; created_at = b.created_at } in
      record {
        boards_ascend =
            ascending-update_where board_id_of (board_has_id row.id) edited (λ b. refl) 1 _ _
              wf.boards_ascend;
        statuses_ascend = wf.statuses_ascend;
        tasks_ascend = wf.tasks_ascend;
        statuses_on_boards =
            all_rows_mono _ _
              (λ s h.
                any_row-update_where_same (board_has_id row.id) (board_has_id s.board_id) edited
                  (λ b. refl) t.boards
                ∙ h)
              _ wf.statuses_on_boards;
        tasks_in_statuses = wf.tasks_in_statuses;
        boards_valid =
            all_rows-update_where board_valid (board_has_id row.id) edited
              (λ b h. ap no_error valid) _ wf.boards_valid;
      }

  pub status_edited-WellFormed : (row : Status) → WellFormed (edit_status row t) n
  unfolding status_on_board board_exists
  status_edited-WellFormed row =
      let edited = λ (s : Status). record s { name = row.name; position = row.position } in
      record {
        boards_ascend = wf.boards_ascend;
        statuses_ascend =
            ascending-update_where status_id_of (status_has_id row.id) edited (λ s. refl) 1 _ _
              wf.statuses_ascend;
        tasks_ascend = wf.tasks_ascend;
        statuses_on_boards =
            all_rows-update_where (λ s. board_exists s.board_id t) (status_has_id row.id) edited
              (λ s h. h) _ wf.statuses_on_boards;
        tasks_in_statuses =
            all_rows_mono _ _
              (λ k h.
                any_row-update_where_same (status_has_id row.id)
                  (λ s. s.id == k.status_id && s.board_id == k.board_id) edited (λ s. refl)
                  t.statuses
                ∙ h)
              _ wf.tasks_in_statuses;
        boards_valid = wf.boards_valid;
      }

  pub task_edited-WellFormed :
      (row : Task)
      → status_on_board row.status_id row.board_id t.statuses ≡ true
      → WellFormed (edit_task row t) n
  unfolding board_exists
  task_edited-WellFormed row placed =
      let edited = λ (k : Task). record row { id = k.id; created_at = k.created_at } in
      record {
        boards_ascend = wf.boards_ascend;
        statuses_ascend = wf.statuses_ascend;
        tasks_ascend =
            ascending-update_where task_id_of (task_has_id row.id) edited (λ k. refl) 1 _ _
              wf.tasks_ascend;
        statuses_on_boards = wf.statuses_on_boards;
        tasks_in_statuses =
            all_rows-update_where (λ k. status_on_board k.status_id k.board_id t.statuses)
              (task_has_id row.id) edited (λ k h. placed) _ wf.tasks_in_statuses;
        boards_valid = wf.boards_valid;
      }

  pub board_deleted-WellFormed : (id : ℕ) → WellFormed (delete_board id t) n
  unfolding delete_board delete_where status_on_board board_exists
  board_deleted-WellFormed id = record {
    boards_ascend = ascending-select_where board_id_of _ 1 _ _ wf.boards_ascend;
    statuses_ascend = ascending-select_where status_id_of _ 1 _ _ wf.statuses_ascend;
    tasks_ascend = ascending-select_where task_id_of _ 1 _ _ wf.tasks_ascend;
    statuses_on_boards =
        all_rows-delete_where (λ s. s.board_id == id) (λ s. board_exists s.board_id t)
          (λ s. any_row (board_has_id s.board_id) (delete_where (board_has_id id) t.boards))
          (λ s left h.
            any_row-delete_other_id (board_has_id id) (board_has_id s.board_id) t.boards
              (λ b. ground (arith, left)) h)
          _ wf.statuses_on_boards;
    tasks_in_statuses =
        all_rows-delete_where (λ k. k.board_id == id || status_on_board k.status_id id t.statuses)
          (λ k. status_on_board k.status_id k.board_id t.statuses)
          (λ k.
            status_on_board k.status_id k.board_id
              (delete_where (λ s. s.board_id == id) t.statuses))
          (λ k left h.
            any_row-delete_other_id (λ s. s.board_id == id)
              (λ s. s.id == k.status_id && s.board_id == k.board_id) t.statuses
              (λ s. ground (arith, left)) h)
          _ wf.tasks_in_statuses;
    boards_valid = all_rows-select_where board_valid _ _ wf.boards_valid;
  }

  pub status_deleted-WellFormed : (id : ℕ) → WellFormed (delete_status id t) n
  unfolding delete_status delete_where status_on_board board_exists
  status_deleted-WellFormed id = record {
    boards_ascend = wf.boards_ascend;
    statuses_ascend = ascending-select_where status_id_of _ 1 _ _ wf.statuses_ascend;
    tasks_ascend = ascending-select_where task_id_of _ 1 _ _ wf.tasks_ascend;
    statuses_on_boards =
        all_rows-select_where (λ s. board_exists s.board_id t) (λ s. not (status_has_id id s))
          t.statuses wf.statuses_on_boards;
    tasks_in_statuses =
        all_rows-delete_where (λ k. k.status_id == id)
          (λ k. status_on_board k.status_id k.board_id t.statuses)
          (λ k. status_on_board k.status_id k.board_id (delete_where (status_has_id id) t.statuses))
          (λ k left h.
            any_row-delete_other_id (status_has_id id)
              (λ s. s.id == k.status_id && s.board_id == k.board_id) t.statuses
              (λ s. ground (arith, left)) h)
          _ wf.tasks_in_statuses;
    boards_valid = wf.boards_valid;
  }

  pub task_deleted-WellFormed : (id : ℕ) → WellFormed (delete_task id t) n
  unfolding delete_where board_exists
  task_deleted-WellFormed id = record {
    boards_ascend = wf.boards_ascend;
    statuses_ascend = wf.statuses_ascend;
    tasks_ascend = ascending-select_where task_id_of _ 1 _ _ wf.tasks_ascend;
    statuses_on_boards = wf.statuses_on_boards;
    tasks_in_statuses = all_rows-select_where _ _ _ wf.tasks_in_statuses;
    boards_valid = wf.boards_valid;
  }
