-- ===== src/Server/NewBoard.antt =====
-- backend/src/server/board/v1/create.cpp and board_repository.cpp: a board that is created, with its
-- first statuses.
pub mod Created
pub mod Listed
use hse_project_2026_chronos.Base.{
  ℕ, suc, ◌≡◌, ◌≤◌, ◌<◌, refl, sym, ap, Bool-cases, inl, inr, ==_iff, ◌+◌, subst, ◌∙◌, Bool, true,
  false, not, ◌&&◌, List, [], ◌∷◌, ◌++◌, ltb, leb, ◌==◌, codes, length, is_empty, text_eq, arith,
}
use hse_project_2026_chronos.Local.Table.{any_row, all_rows, all_rows_mono, any_row-append}
use hse_project_2026_chronos.Server.Rows.{Text, Board, Status}
use hse_project_2026_chronos.Server.Tables.{
  Tables, NextIds, board_checks, status_checks, name_taken, board_exists, user_exists, add_board,
  add_status, has_board_and_name,
}
use hse_project_2026_chronos.Server.Http.{Libraries}
use hse_project_2026_chronos.Server.Action.{
  World, M, ok, pure, fail_if, nextval, get_tables, get_world, put_tables, id_limit, ◌>>=◌, ◌>>◌,
}
use hse_project_2026_chronos.Server.Repositories.Statuses.{insert_status_row, next_status_id}
use hse_project_2026_chronos.Server.Repositories.Boards.{
  insert_board_row, next_board_id, insert_with_statuses,
}
use hse_project_2026_chronos.Server.Selections.{ascending, ascending-fresh}
use hse_project_2026_chronos.Server.Invariant.{WellFormed}
use hse_project_2026_chronos.Server.Listings.{then_ok, pure_lem, fail_if-passes}

-- A text has at most as many characters as bytes, and a text that is not empty has one.
pub record CountsCharacters (lib : Libraries) : Type 0 where
  pub no_more : (t : Text) → lib.char_length t ≤ length t
  pub not_none : (t : Text) → is_empty t ≡ false → 1 ≤ lib.char_length t

-- The worlds after the INSERT of a row whose id is the next one.
abbrev pub with_board : Board → World → World
with_board row w = record w {
  tables = add_board row w.tables;
  next_ids = record w.next_ids { board = suc w.next_ids.board };
}

abbrev pub with_status : Status → World → World
with_status row w = record w {
  tables = add_status row w.tables;
  next_ids = record w.next_ids { status = suc w.next_ids.status };
}

abbrev pub new_board : World → Board → Board
new_board w board = record board { id = w.next_ids.board; created_at = w.now; updated_at = w.now }

abbrev pub new_status : World → ℕ → Text → ℕ → Status
new_status w board_id name position = record {
  id = w.next_ids.status;
  board_id = board_id;
  name = name;
  position = position;
}

nextval_lem :
    (sequence : NextIds → ℕ) (bump : NextIds → NextIds) (w : World)
    → sequence w.next_ids < id_limit
    → nextval sequence bump w ≡ (ok (sequence w.next_ids), record w { next_ids = bump w.next_ids })
unfolding nextval
nextval_lem sequence bump w room =
    let below : ltb (sequence w.next_ids) id_limit ≡ true = ground (arith, room) in rw below refl

pub insert_status_row_lem :
    (lib : Libraries) (board_id : ℕ) (name : Text) (position : ℕ) (w : World)
    → w.next_ids.status < id_limit
    → status_checks lib.char_length (new_status w board_id name position) ≡ true
    → board_exists board_id w.tables ≡ true
    → name_taken (new_status w board_id name position) w.tables ≡ false
    → insert_status_row lib board_id name position w ≡ (
      ok (new_status w board_id name position),
      with_status (new_status w board_id name position) w,
    )
unfolding insert_status_row get_tables put_tables pure next_status_id
insert_status_row_lem lib board_id name position w room checks there free =
    then_ok next_status_id _ (nextval_lem _ _ w room)
    ∙ then_ok get_tables _ refl
    ∙ then_ok (fail_if _ _) _ (fail_if-passes _ _ _ (ground (arith, checks, there)))
    ∙ then_ok (fail_if _ _) _ (fail_if-passes _ _ _ free)
    ∙ then_ok (put_tables _) _ refl

pub insert_board_row_lem :
    (lib : Libraries) (board : Board) (w : World)
    → w.next_ids.board < id_limit
    → board_checks lib.char_length board ≡ true
    → user_exists board.user_id w.tables ≡ true
    → insert_board_row lib board w ≡ (ok (new_board w board), with_board (new_board w board) w)
unfolding insert_board_row get_world put_tables pure next_board_id board_checks
insert_board_row_lem lib board w room checks there =
    then_ok next_board_id _ (nextval_lem _ _ w room)
    ∙ then_ok get_world _ refl
    ∙ then_ok (fail_if _ _) _ (fail_if-passes _ _ _ (ground (arith, checks, there)))
    ∙ then_ok (put_tables _) _ refl

-- A status of this name is on this board.
abbrev taken_on : ℕ → Text → List Status → Bool
taken_on board_id name statuses = any_row (has_board_and_name board_id name) statuses

name_taken-taken_on :
    (s : Status) (t : Tables)
    → taken_on s.board_id s.name t.statuses ≡ false
    → name_taken s t ≡ false
unfolding name_taken any_row
name_taken-taken_on s t h = go t.statuses h
  where
    go :
        (statuses : List Status)
        → taken_on s.board_id s.name statuses ≡ false
        → any_row (λ r. not (r.id == s.id) && has_board_and_name s.board_id s.name r) statuses
          ≡ false
    go [] h = refl
    go (r ∷ rest) h = ground (arith, go rest)

none_on_new_board :
    (name : Text) (board_id : ℕ) (boards : List Board) (statuses : List Status)
    → any_row (λ b. b.id == board_id) boards ≡ false
    → all_rows (λ s. any_row (λ b. b.id == s.board_id) boards) statuses ≡ true
    → taken_on board_id name statuses ≡ false
unfolding any_row all_rows
none_on_new_board name board_id boards [] new h = refl
none_on_new_board name board_id boards (s ∷ statuses) new h =
    let there : any_row (λ b. b.id == s.board_id) boards ≡ true = ground (arith, h) in
    let rest : all_rows (λ s. any_row (λ b. b.id == s.board_id) boards) statuses ≡ true =
      ground (arith, h) in
    elim (Bool-cases (s.board_id == board_id)) [
      | inl here ↦
          let same =
            ap (λ i. any_row (λ b. b.id == i) boards) ((==_iff s.board_id board_id).0 here) in
          absurd (cc)
      | inr elsewhere ↦
          ground (arith, elsewhere, none_on_new_board name board_id boards statuses new rest)
    ]

module _ (row : Board) where
  -- The world after each of the three statuses of a new board.
  abbrev with_to_do : World → World
  with_to_do w = with_status (new_status w row.id (codes "To do") 0) w

  abbrev with_in_progress : World → World
  with_in_progress w = with_status (new_status w row.id (codes "In progress") 1) w

  abbrev with_done : World → World
  with_done w = with_status (new_status w row.id (codes "Done") 2) w

-- The world after a board with its statuses has been inserted.
abbrev pub with_new_board : Board → World → World
with_new_board board w =
    let row = new_board w board in
    with_done row (with_in_progress row (with_to_do row (with_board row w)))

taken_on-append :
    (board_id : ℕ) (name : Text) (statuses : List Status) (s : Status)
    → taken_on board_id name statuses ≡ false
    → text_eq s.name name ≡ false
    → taken_on board_id name (statuses ++ s ∷ []) ≡ false
unfolding any_row
taken_on-append board_id name statuses s free other =
    any_row-append (has_board_and_name board_id name) statuses (s ∷ [])
    ∙ ground (arith, free, other)

status_checks_short :
    (lib : Libraries)
    → CountsCharacters lib
    → (s : Status) → is_empty s.name ≡ false
    → length s.name ≤ 50
    → status_checks lib.char_length s ≡ true
unfolding status_checks
status_checks_short lib counts s filled short =
    ground (arith, counts.not_none s.name filled, counts.no_more s.name, short)

pub insert_with_statuses_lem :
    (lib : Libraries) (board : Board) (w : World)
    → CountsCharacters lib
    → WellFormed w.tables w.next_ids
    → w.next_ids.board < id_limit
    → w.next_ids.status + 2 < id_limit
    → board_checks lib.char_length board ≡ true
    → user_exists board.user_id w.tables ≡ true
    → insert_with_statuses lib board w ≡ (ok (new_board w board), with_new_board board w)
unfolding insert_with_statuses board_exists any_row text_eq pure
insert_with_statuses_lem lib board w counts wf board_room room checks there =
    let row = new_board w board in
    let w1 = with_board row w in
    let w2 = with_to_do row w1 in
    let w3 = with_in_progress row w2 in
    let exists : board_exists row.id w1.tables ≡ true =
      any_row-append (λ b. b.id == row.id) w.tables.boards (row ∷ []) ∙ ground arith in
    let free = λ (name : Text).
      none_on_new_board name row.id w.tables.boards w.tables.statuses
        (ascending-fresh (λ (b : Board). b.id) 1 w.next_ids.board row.id (omega arith)
          w.tables.boards wf.boards_ascend)
        wf.statuses_on_boards in
    then_ok (insert_board_row lib board) _
      (insert_board_row_lem lib board w board_room checks there)
    ∙ then_ok (insert_status_row lib row.id (codes "To do") 0) _ (
        insert_status_row_lem lib row.id (codes "To do") 0 w1 (omega (arith, room))
          (status_checks_short lib counts _ refl (omega arith)) exists
          (name_taken-taken_on _ _ (free (codes "To do"))))
    ∙ then_ok (insert_status_row lib row.id (codes "In progress") 1) _ (
        insert_status_row_lem lib row.id (codes "In progress") 1 w2 (omega (arith, room))
          (status_checks_short lib counts _ refl (omega arith)) exists
          (name_taken-taken_on _ _ (
            taken_on-append row.id (codes "In progress") w1.tables.statuses
              (new_status w1 row.id (codes "To do") 0) (free (codes "In progress")) refl)))
    ∙ then_ok (insert_status_row lib row.id (codes "Done") 2) _ (
        insert_status_row_lem lib row.id (codes "Done") 2 w3 (omega (arith, room))
          (status_checks_short lib counts _ refl (omega arith)) exists
          (name_taken-taken_on _ _ (
            taken_on-append row.id (codes "Done") w2.tables.statuses
              (new_status w2 row.id (codes "In progress") 1)
              (taken_on-append row.id (codes "Done") w1.tables.statuses
                (new_status w1 row.id (codes "To do") 0) (free (codes "Done")) refl)
              refl)))
