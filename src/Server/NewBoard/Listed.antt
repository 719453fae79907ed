-- ===== src/Server/NewBoard/Listed.antt =====
-- backend/src/server/board/v1: a board that has been created, in the listing of the user's boards.
use hse_project_2026_chronos.Base.{
  ℕ, ◌≡◌, refl, ap, subst, ◌∙◌, Bool, true, List, [], ◌∷◌, ◌++◌, map, ==_iff, arith,
}
use hse_project_2026_chronos.Local.Table.{select_where}
use hse_project_2026_chronos.Server.Rows.{Text}
use hse_project_2026_chronos.Server.Http.{Request, Response, Libraries, get_method, ok_response}
use hse_project_2026_chronos.Server.Action.{World}
use hse_project_2026_chronos.Server.Repositories.Boards.{board_of_user}
use hse_project_2026_chronos.Server.Handlers.Boards.{handle_create, board_to_json}
use hse_project_2026_chronos.Server.Handlers.Queries.{handle_get_all_boards, json_array}
use hse_project_2026_chronos.Server.Router.{handler, board_create}
use hse_project_2026_chronos.Server.Steps.{Steps}
use hse_project_2026_chronos.Server.Invariant.{WellFormed}
use hse_project_2026_chronos.Server.Invariant.Steps.{Steps-WellFormed}
use hse_project_2026_chronos.Server.Isolation.{view}
use hse_project_2026_chronos.Server.Requests.{handler-Handled}
use hse_project_2026_chronos.Server.Listings.{get_all_boards-view}
use hse_project_2026_chronos.Server.NewBoard.{CountsCharacters, new_board, with_new_board}
use hse_project_2026_chronos.Server.NewBoard.Created.{Granted, asked_board, create-Granted}

select_where-append_own :
    {A : Type 0} (q : A → Bool) (x : A)
    → q x ≡ true
    → (xs : List A) → select_where q (xs ++ x ∷ []) ≡ select_where q xs ++ x ∷ []
unfolding select_where
select_where-append_own q x h [] = ground (arith, h)
select_where-append_own q x h (y ∷ ys) = ground (arith, select_where-append_own q x h ys)

-- After a valid request for a new board, the listing of the user's boards has this board behind the
-- ones that were there before.
pub handle_get_all_boards-handle_create :
    (lib : Libraries) (req listing : Request) (user : ℕ) (w : World) (title description : Text)
    → CountsCharacters lib
    → WellFormed w.tables w.next_ids
    → Granted lib req user w title description
    → listing.method ≡ get_method
    → (handle_get_all_boards lib listing user (handle_create lib req user w).1).0
      ≡ ok_response (
          json_array (
            map (board_to_json lib) (
              (view user w.tables).boards
              ++ new_board w (asked_board user title description) ∷ [])))
unfolding view handler
handle_get_all_boards-handle_create lib req listing user w title description counts wf granted
      is_get =
    let asked = asked_board user title description in
    let w' = with_new_board asked w in
    let created = create-Granted lib req user w title description counts wf granted in
    let steps : Steps user w w' =
      subst (λ (r : Response × World). Steps user w r.1) created
        (handler-Handled lib req user w board_create).0 in
    let listed =
      get_all_boards-view lib listing user w' (Steps-WellFormed steps wf) granted.connected
        is_get in
    ap (λ w. (handle_get_all_boards lib listing user w).0) (ap (λ r. r.1) created)
    ∙ ap (λ r. r.0) listed
    ∙ ap (λ boards. ok_response (json_array (map (board_to_json lib) boards)))
        (select_where-append_own (board_of_user user) (new_board w asked)
          ((==_iff user user).1 refl) w.tables.boards)
