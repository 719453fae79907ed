-- ===== src/Server/Listings.antt =====
-- backend/src/server/board/v1/get_all.cpp: the boards that a user is shown.
use hse_project_2026_chronos.Base.{
  ℕ, suc, ◌≡◌, ◌<◌, refl, sym, ap, subst, ◌∙◌, Bool, true, false, not, Option, none, some, List, [],
  ◌∷◌, map, arith,
}
use hse_project_2026_chronos.Local.Table.{select_where, all_rows, all_rows-select_where}
use hse_project_2026_chronos.Server.Rows.{Text, Board, board_error}
use hse_project_2026_chronos.Server.Http.{Request, Libraries, get_method, ok_response}
use hse_project_2026_chronos.Server.Action.{
  World, M, ok, pure, construct, transaction, rewrapping, rewrap, get_tables, acquire,
  continue_with, constructed, ◌>>=◌, fail_if, Failure,
}
use hse_project_2026_chronos.Server.Repositories.{construct_all, order_by, insert_ordered}
use hse_project_2026_chronos.Server.Repositories.Boards.{
  find_all_by_user_id, board_of_user, board_before,
}
use hse_project_2026_chronos.Server.Handlers.{catching, method_is}
use hse_project_2026_chronos.Server.Handlers.Boards.{board_to_json, create_failure}
use hse_project_2026_chronos.Server.Handlers.Queries.{
  get_all_boards, handle_get_all_boards, json_array,
}
use hse_project_2026_chronos.Server.Selections.{ascending, ascending-select_where, ascending-head}
use hse_project_2026_chronos.Server.Invariant.{WellFormed, board_valid, no_error}
use hse_project_2026_chronos.Server.Isolation.{view}

-- An action that ends well goes on with its value.
pub then_ok :
    {A B : Type 0} (m : M A) (k : A → M B) {w w' : World} {a : A}
    → m w ≡ (ok a, w')
    → (m >>= k) w ≡ k a w'
unfolding ◌>>=◌
then_ok m k h = ap (λ r. continue_with r.0 r.1 k) h

pub acquire_up : (lib : Libraries) (w : World) → w.outages ≡ [] → acquire lib w ≡ (ok tt, w)
unfolding acquire
acquire_up lib w h =
    subst
      (λ outages.
        acquire lib (record w { outages = outages }) ≡ (ok tt, record w { outages = outages }))
      (sym h) refl

-- A query without a failing connection.
pub transaction-get_tables :
    (lib : Libraries) (w : World) → w.outages ≡ [] → transaction lib get_tables w ≡ (ok w.tables, w)
unfolding transaction get_tables acquire ◌>>=◌
transaction-get_tables lib w h =
    subst
      (λ outages.
        transaction lib get_tables (record w { outages = outages })
        ≡ (ok w.tables, record w { outages = outages }))
      (sym h) refl

pub pure_lem : {A : Type 0} (a : A) (w : World) → pure a w ≡ (ok a, w)
unfolding pure
pure_lem a w = refl

no_error-none : (error : Option Text) → no_error error ≡ true → error ≡ none
no_error-none none h = refl
no_error-none (some t) h = cc

pub construct_valid :
    {A : Type 0} (error : A → Option Text) (w : World) (a : A)
    → error a ≡ none
    → construct error a w ≡ (ok a, w)
unfolding construct
construct_valid error w a h = ap (λ e. (constructed a e, w)) h

pub construct_all-valid :
    {A : Type 0} (error : A → Option Text) (w : World) (rows : List A)
    → all_rows (λ a. no_error (error a)) rows ≡ true
    → construct_all error rows w ≡ (ok rows, w)
unfolding construct_all all_rows pure
construct_all-valid error w [] h = refl
construct_all-valid error w (a ∷ rows) h =
    let first : error a ≡ none = no_error-none (error a) (ground (arith, h)) in
    let others : all_rows (λ a. no_error (error a)) rows ≡ true = ground (arith, h) in
    then_ok (construct error a) _ (construct_valid error w a first)
    ∙ then_ok (construct_all error rows) _ (construct_all-valid error w rows others)
    ∙ pure_lem (a ∷ rows) w

insert_ordered-first :
    (a : Board) (low high : ℕ) (rows : List Board)
    → a.id < low
    → ascending (λ (b : Board). b.id) low rows high ≡ true
    → insert_ordered board_before a rows ≡ a ∷ rows
unfolding insert_ordered ascending
insert_ordered-first a low high [] h s = refl
insert_ordered-first a low high (b ∷ rows) h s = ground (arith, h, s)

pub order_by-ascending :
    (low high : ℕ) (rows : List Board)
    → ascending (λ (b : Board). b.id) low rows high ≡ true
    → order_by board_before rows ≡ rows
unfolding order_by
order_by-ascending low high [] s = refl
order_by-ascending low high (a ∷ rows) s =
    let (_, rest) = ascending-head (λ (b : Board). b.id) low high a rows s in
    ap (insert_ordered board_before a) (order_by-ascending (suc a.id) high rows rest)
    ∙ insert_ordered-first a (suc a.id) high rows (omega arith) rest

pub fail_if-passes : (b : Bool) (f : Failure) (w : World) → b ≡ false → fail_if b f w ≡ (ok tt, w)
unfolding fail_if
fail_if-passes b f w h = rw h refl

module _ (lib : Libraries) (user : ℕ) (w : World) (wf : WellFormed w.tables w.next_ids)
    (up : w.outages ≡ []) where
  abbrev own : List Board
  own = select_where (board_of_user user) w.tables.boards

  own_in_order : order_by board_before own ≡ own
  own_in_order = order_by-ascending 1 w.next_ids.board own (
      ascending-select_where (λ (b : Board). b.id) (board_of_user user) 1 w.next_ids.board
        w.tables.boards wf.boards_ascend)

  pub find_all_by_user_id-own : find_all_by_user_id lib user w ≡ (ok own, w)
  unfolding find_all_by_user_id rewrapping
  find_all_by_user_id-own = ap (rewrap lib "Failed to find Boards by user id: ") (
      then_ok (transaction lib get_tables) _ (transaction-get_tables lib w up)
      ∙ ap (λ boards. construct_all board_error boards w) own_in_order
      ∙ construct_all-valid board_error w own
          (all_rows-select_where board_valid (board_of_user user) w.tables.boards wf.boards_valid))

-- Where no connection fails, board/v1/get_all answers a GET of a user with all boards that are the
-- user's, each once and in the order of their ids, and with no others.
pub get_all_boards-view :
    (lib : Libraries) (req : Request) (user : ℕ) (w : World)
    → WellFormed w.tables w.next_ids
    → w.outages ≡ []
    → req.method ≡ get_method
    → handle_get_all_boards lib req user w
      ≡ (ok_response (json_array (map (board_to_json lib) (view user w.tables).boards)), w)
unfolding handle_get_all_boards get_all_boards view catching pure
get_all_boards-view lib req user w wf up is_get = ap (catching (create_failure lib)) (
    then_ok (fail_if _ _) _ (fail_if-passes _ _ w (ap (λ m. not (method_is m get_method)) is_get))
    ∙ then_ok (find_all_by_user_id lib user) _ (find_all_by_user_id-own lib user w wf up))
