-- ===== src/Server/Steps/Owned.antt =====
-- The check that a board is the user's, and what follows from it.
use Prim.Native.String.{String}
use hse_project_2026_chronos.Base.{ℕ, ◌≡◌, sym, ◌∙◌, subst, ◌<◌, true, some, ==_iff, arith}
use hse_project_2026_chronos.Local.Table.{find_row, find_row-holds}
use hse_project_2026_chronos.Server.Rows.{Board}
use hse_project_2026_chronos.Server.Tables.{board_has_id}
use hse_project_2026_chronos.Server.Http.{Response, Libraries}
use hse_project_2026_chronos.Server.Action.{World}
use hse_project_2026_chronos.Server.Action.Worlds.{Same}
use hse_project_2026_chronos.Server.Action.Runs.{Post, Post-bind, Post-pure, Post-check, Post-found}
use hse_project_2026_chronos.Server.Steps.{Steps}
use hse_project_2026_chronos.Server.Steps.Reads.{find_board-Reads}
use hse_project_2026_chronos.Server.Handlers.Owned.{owned_board}
use hse_project_2026_chronos.Local.Table.{any_row}
use hse_project_2026_chronos.Base.{List, [], ◌∷◌}
use hse_project_2026_chronos.Server.Rows.{Status}
use hse_project_2026_chronos.Server.Tables.{status_has_id}
use hse_project_2026_chronos.Server.Repositories.Statuses.{owns}
use hse_project_2026_chronos.Server.Steps.{status_on_board}

-- A handler returns with a success and after steps of the specification, or throws and has changed
-- no table.
abbrev pub Done : ℕ → World → Response → World → Type 0
Done user w response w' = Steps user w w' × (response.status < 400)

pub owned_board-Reads :
    (lib : Libraries) (code message : String) (user board_id : ℕ) (w : World)
    → Post
        (owned_board lib code message user board_id)
        w
        (λ b w'.
          Same w w'
          × (find_row (board_has_id board_id) w.tables.boards ≡ some b)
          × (b.user_id ≡ user))
        (Same w)
unfolding owned_board
owned_board-Reads lib code message user board_id w =
    Post-bind (find_board-Reads lib w board_id) (λ _ s. s)
      λ o w1 (same, e). Post-found same _ _ λ board there.
        Post-check same _ _ _ λ mine. Post-pure _ (same, sym e ∙ there, ground (arith, mine))

-- The board that was found is still there where only connections have changed.
pub still :
    (id : ℕ) {w w' : World} {b : Board}
    → Same w w'
    → find_row (board_has_id id) w.tables.boards ≡ some b
    → find_row (board_has_id id) w'.tables.boards ≡ some b
still id {w} {w'} {b} same =
    subst (λ t. find_row (board_has_id id) t.boards ≡ some b) (sym same.tables_same)

pub still_own :
    (id : ℕ) {w w' : World} {b : Board}
    → Same w w'
    → find_row (board_has_id id) w.tables.boards ≡ some b
    → find_row (board_has_id b.id) w'.tables.boards ≡ some b
still_own id {w} {w'} {b} same found =
    let same_id = (==_iff b.id id).0 (find_row-holds (board_has_id id) w.tables.boards b found) in
    subst (λ i. find_row (board_has_id i) w'.tables.boards ≡ some b) (sym same_id)
      (still id same found)

pub owns-of_found :
    (user id : ℕ) (boards : List Board) (b : Board)
    → find_row (board_has_id id) boards ≡ some b
    → b.user_id ≡ user
    → owns user id boards ≡ true
unfolding owns any_row find_row
owns-of_found user id [] b h mine = cc
owns-of_found user id (x ∷ boards) b h mine = ground (arith, owns-of_found user id boards b)

pub status_on_board-of_found :
    (status_id board_id : ℕ) (statuses : List Status) (s : Status)
    → find_row (status_has_id status_id) statuses ≡ some s
    → s.board_id ≡ board_id
    → status_on_board status_id board_id statuses ≡ true
unfolding status_on_board any_row find_row
status_on_board-of_found status_id board_id [] s h there = cc
status_on_board-of_found status_id board_id (x ∷ statuses) s h there =
    ground (arith, status_on_board-of_found status_id board_id statuses s)
