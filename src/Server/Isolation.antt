-- ===== src/Server/Isolation.antt =====
-- What a user can see of the tables, and that no step for another user changes it.
pub mod Rows
pub mod Steps
use hse_project_2026_chronos.Base.{
  ℕ, suc, inl, inr, Bool-cases, ◌≡◌, ◌≢◌, ◌<◌, refl, sym, ap, subst, ◌∙◌, Bool, true, false, not,
  ◌&&◌, ◌||◌, Option, none, some, List, [], ◌∷◌, ◌++◌, ◌==◌, ==_iff, arith,
}
use hse_project_2026_chronos.Local.Table.{
  find_row, any_row, all_rows, select_where, update_where, delete_where, any_row-append,
  all_rows_mono, all_rows-of_all,
}
use hse_project_2026_chronos.Server.Rows.{Board, Status, Task, board_error}
use hse_project_2026_chronos.Server.Tables.{
  Tables, NextIds, board_has_id, status_has_id, task_has_id, delete_board, delete_status, add_board,
  add_status, add_task, edit_board, edit_status, edit_task, delete_task,
}
use hse_project_2026_chronos.Server.Repositories.Statuses.{owns}
use hse_project_2026_chronos.Server.Repositories.Boards.{board_of_user}
use hse_project_2026_chronos.Server.Steps.{status_on_board}
use hse_project_2026_chronos.Server.Selections.{
  select_where_ext, select_where-update_where_other, select_where-delete_where_other,
  any_row-update_where_other, any_row-delete_where_other, select_where-append_other, ascending,
  ascending-head, ascending-not_below, ascending_unique,
}
use hse_project_2026_chronos.Server.Invariant.{WellFormed}

-- The rows that the handlers give to this user.
pub record View : Type 0 where
  pub boards : List Board
  pub statuses : List Status
  pub tasks : List Task

unfoldable pub view : ℕ → Tables → View
view user t = record {
  boards = select_where (board_of_user user) t.boards;
  statuses = select_where (λ s. owns user s.board_id t.boards) t.statuses;
  tasks = select_where (λ k. owns user k.board_id t.boards) t.tasks;
}

-- Views are equal where the boards are and each other table has the same rows on owned boards.
pub view_ext :
    (user : ℕ) (t t' : Tables)
    → select_where (board_of_user user) t'.boards ≡ select_where (board_of_user user) t.boards
    → ((id : ℕ) → owns user id t'.boards ≡ owns user id t.boards)
    → select_where (λ s. owns user s.board_id t.boards) t'.statuses
      ≡ select_where (λ s. owns user s.board_id t.boards) t.statuses
    → select_where (λ k. owns user k.board_id t.boards) t'.tasks
      ≡ select_where (λ k. owns user k.board_id t.boards) t.tasks
    → view user t' ≡ view user t
unfolding view
view_ext user t t' boards owned statuses tasks i = record {
  boards = boards i;
  statuses =
      (select_where_ext (λ s. owns user s.board_id t'.boards) (λ s. owns user s.board_id t.boards)
            (λ s. owned s.board_id) t'.statuses
          ∙ statuses)
        i;
  tasks =
      (select_where_ext (λ k. owns user k.board_id t'.boards) (λ k. owns user k.board_id t.boards)
            (λ k. owned k.board_id) t'.tasks
          ∙ tasks)
        i;
}

no_other :
    (boards : List Board) (id user : ℕ)
    → all_rows (λ b. not (b.id == id) || false) boards ≡ true
    → owns user id boards ≡ false
unfolding owns any_row all_rows
no_other [] id user h = refl
no_other (b ∷ boards) id user h = ground (arith, no_other boards id user)

-- A board has one owner.
pub owner_unique :
    (low high id user : ℕ) (boards : List Board)
    → ascending (λ (b : Board). b.id) low boards high ≡ true
    → owns user id boards ≡ true
    → all_rows (λ b. not (b.id == id) || b.user_id == user) boards ≡ true
unfolding owns any_row all_rows
owner_unique low high id user [] a owned = refl
owner_unique low high id user (b ∷ boards) a owned =
    let board_id = λ (b : Board). b.id in
    let (_, rest) = ascending-head board_id low high b boards a in
    elim (Bool-cases (b.id == id)) [
      | inl here ↦
          let below : id < suc b.id = omega (arith, (==_iff b.id id).0 here) in
          ground (
            arith,
            no_other boards id user
                (ascending-not_below board_id (suc b.id) high id below (λ _. false) boards rest),
            ascending-not_below board_id (suc b.id) high id below (λ b. b.user_id == user) boards
                rest,
          )
      | inr elsewhere ↦ ground (arith, owner_unique (suc b.id) high id user boards rest)
    ]

pub one_owner :
    (other id user : ℕ)
    → other ≢ user
    → (boards : List Board) → all_rows (λ b. not (b.id == id) || b.user_id == user) boards ≡ true
    → owns other id boards ≡ false
unfolding owns any_row all_rows
one_owner other id user apart [] h = refl
one_owner other id user apart (b ∷ boards) h = ground (arith, one_owner other id user apart boards)

-- A status has one board.
pub one_board :
    (id board_id board_id' : ℕ) (statuses : List Status)
    → all_rows (λ s. not (s.id == id) || s.board_id == board_id) statuses ≡ true
    → status_on_board id board_id' statuses ≡ true
    → board_id' ≡ board_id
unfolding status_on_board any_row all_rows
one_board id board_id board_id' [] h k = cc
one_board id board_id board_id' (s ∷ statuses) h k =
    ground (arith, one_board id board_id board_id' statuses)
