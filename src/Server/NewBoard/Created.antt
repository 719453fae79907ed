-- ===== src/Server/NewBoard/Created.antt =====
-- backend/src/server/board/v1/create.cpp: a request for a new board that is granted.
use hse_project_2026_chronos.Base.{
  ℕ, ◌≡◌, ◌≢◌, ◌≤◌, ◌<◌, ◌+◌, refl, ap, ◌∙◌, true, false, not, none, some, [], ◌∷◌, codes, length,
  arith,
}
use hse_project_2026_chronos.Json.{Members, string, object, get, end}
use hse_project_2026_chronos.Server.Rows.{Text, Board, board_error, bad_size}
use hse_project_2026_chronos.Server.Tables.{board_checks, user_exists}
use hse_project_2026_chronos.Server.Http.{Request, Libraries, post, contains, ok_response}
use hse_project_2026_chronos.Server.Action.{
  World, M, Result, ok, pure, lift, construct, fail_if, transaction, roll_back, acquire, rewrap,
  rewrapping, id_limit,
}
use hse_project_2026_chronos.Server.Repositories.Boards.{insert, save, insert_with_statuses}
use hse_project_2026_chronos.Server.Handlers.{
  catching, method_is, object_body, collect_missing_fields, fields_present, require_string_field,
  string_value, optional_string_field,
}
use hse_project_2026_chronos.Server.Handlers.Boards.{
  create, handle_create, create_failure, board_to_json,
}
use hse_project_2026_chronos.Server.Invariant.{WellFormed}
use hse_project_2026_chronos.Server.Listings.{then_ok, fail_if-passes, acquire_up, construct_valid}
use hse_project_2026_chronos.Server.NewBoard.{
  CountsCharacters, new_board, with_new_board, insert_with_statuses_lem,
}

transaction_ok :
    {A : Type 0} (lib : Libraries) (m : M A) (w : World) (outcome : Result A × World)
    → w.outages ≡ []
    → m w ≡ outcome
    → transaction lib m w ≡ roll_back w.tables outcome
unfolding transaction
transaction_ok lib m w outcome up h =
    ap (roll_back w.tables) (then_ok (acquire lib) _ (acquire_up lib w up) ∙ h)

lift_ok : {A : Type 0} (r : Result A) (a : A) (w : World) → r ≡ ok a → lift r w ≡ (ok a, w)
unfolding lift
lift_ok r a w h = ap (λ r. (r, w)) h

board_error-valid :
    (b : Board)
    → b.user_id ≢ 0
    → bad_size 100 b.title ≡ false
    → length b.description ≤ 1000
    → board_error b ≡ none
unfolding board_error
board_error-valid b user title description = ground (arith, user, title, description)

board_checks-valid :
    (lib : Libraries)
    → CountsCharacters lib
    → (b : Board) → bad_size 100 b.title ≡ false
    → length b.description ≤ 1000
    → board_checks lib.char_length b ≡ true
unfolding board_checks
board_checks-valid lib counts b title description = ground (
  arith,
  title,
  description,
  counts.no_more b.title,
  counts.not_none b.title,
  counts.no_more b.description,
)

-- A request for a new board of this user that nothing stands against.
pub record Granted (lib : Libraries) (req : Request) (user : ℕ) (w : World)
    (title description : Text) : Type 0 where
  pub body : Members
  pub is_post : req.method ≡ post
  pub has_body : req.body ≡ some (object body)
  pub has_title : get (codes "title") body ≡ some (string title)
  pub has_description : optional_string_field body "description" ≡ ok description
  pub title_size : bad_size 100 title ≡ false
  pub description_size : length description ≤ 1000
  pub user_there : user_exists user w.tables ≡ true
  pub user_positive : user ≢ 0
  pub board_ids_left : w.next_ids.board < id_limit
  pub status_ids_left : w.next_ids.status + 2 < id_limit
  pub connected : w.outages ≡ []

abbrev pub asked_board : ℕ → Text → Text → Board
asked_board user title description = record {
  id = 0;
  user_id = user;
  title = title;
  description = description;
  created_at = 0;
  updated_at = 0;
}

module _ (lib : Libraries) (req : Request) (user : ℕ) (w : World) (title description : Text)
    (counts : CountsCharacters lib) (wf : WellFormed w.tables w.next_ids)
    (granted : Granted lib req user w title description) where
  abbrev asked : Board
  asked = asked_board user title description

  abbrev row : Board
  row = new_board w asked

  save_lem : save lib asked w ≡ (ok row, with_new_board asked w)
  unfolding save rewrapping insert
  save_lem = ap (rewrap lib "Failed to save Board: ") (
      then_ok (transaction lib (insert_with_statuses lib asked)) _ (
        transaction_ok lib (insert_with_statuses lib asked) w _ granted.connected (
          insert_with_statuses_lem lib asked w counts wf granted.board_ids_left
            granted.status_ids_left
            (board_checks-valid lib counts asked granted.title_size granted.description_size)
            granted.user_there))
      ∙ construct_valid board_error _ row
          (board_error-valid row granted.user_positive granted.title_size granted.description_size))

  nothing_missing : collect_missing_fields ("title" ∷ []) granted.body ≡ end
  unfolding collect_missing_fields contains
  nothing_missing = rw granted.has_title refl

  title_read : require_string_field granted.body "title" ≡ ok title
  unfolding require_string_field string_value
  title_read = simp (require_string_field, granted.has_title)

  create_lem :
      create lib req user w ≡ (ok (ok_response (board_to_json lib row)), with_new_board asked w)
  unfolding create pure object_body fields_present
  create_lem =
      then_ok (fail_if _ _) _
        (fail_if-passes _ _ w (ap (λ m. not (method_is m post)) granted.is_post))
      ∙ then_ok (lift _) _ (
          lift_ok _ granted.body w
            (ap (object_body "Invalid JSON format" "Invalid JSON format") granted.has_body))
      ∙ then_ok (lift _) _ (lift_ok _ tt w (ap fields_present nothing_missing))
      ∙ then_ok (lift _) _ (lift_ok _ title w title_read)
      ∙ then_ok (lift _) _ (lift_ok _ description w granted.has_description)
      ∙ then_ok (fail_if _ _) _ (fail_if-passes _ _ w granted.title_size)
      ∙ then_ok (fail_if _ _) _ (fail_if-passes _ _ w (ground (arith, granted.description_size)))
      ∙ then_ok (construct board_error asked) _ (
          construct_valid board_error w asked (
            board_error-valid asked granted.user_positive granted.title_size
              granted.description_size))
      ∙ then_ok (save lib asked) _ save_lem

-- A valid request for a new board is answered with the board under the next id; the board and its
-- three statuses "To do", "In progress" and "Done" are added to the tables, and nothing else changes.
pub create-Granted :
    (lib : Libraries) (req : Request) (user : ℕ) (w : World) (title description : Text)
    → CountsCharacters lib
    → WellFormed w.tables w.next_ids
    → Granted lib req user w title description
    → handle_create lib req user w ≡ (
      ok_response (board_to_json lib (new_board w (asked_board user title description))),
      with_new_board (asked_board user title description) w,
    )
unfolding handle_create catching
create-Granted lib req user w title description counts wf granted =
    ap (catching (create_failure lib))
      (create_lem lib req user w title description counts wf granted)
