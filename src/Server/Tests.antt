-- ===== src/Server/Tests.antt =====
-- Runs of the server.
use hse_project_2026_chronos.Base.{
  ℕ, false, true, ◌≡◌, ◌≤◌, refl, sym, ap, ◌∙◌, subst, codes, some, List, [], ◌∷◌, text_eq, ◌++◌,
  inl, inr, length, map, is_empty, arith,
}
use hse_project_2026_chronos.Base.Int.{pos}
use hse_project_2026_chronos.Json.{end, get}
use hse_project_2026_chronos.Auth.Jwt.{returns, valid, parse_and_validate_token}
use hse_project_2026_chronos.Auth.Jwt.Checks.{parse_and_validate_token_iff}
use hse_project_2026_chronos.Auth.Jwt.TestData.{library, environment, made_token}
use hse_project_2026_chronos.Auth.WithAuth.{with_auth}
use hse_project_2026_chronos.Server.Router.{
  handle_request, refusal_response, serve_all, routed, board_delete,
}
use hse_project_2026_chronos.Server.Http.{
  ok_response, field, str, Libraries, Request, build_error_response, parsed, find_param,
}
use hse_project_2026_chronos.Server.Requests.{error_changes_nothing, routed-Steps}
use hse_project_2026_chronos.Server.Requests.Histories.{
  NotFrom, serve_all-WellFormed, serve_all-view,
}
use hse_project_2026_chronos.Server.Invariant.Steps.{IsWellFormed}
use hse_project_2026_chronos.Server.Isolation.{view}
use hse_project_2026_chronos.Server.Action.{
  ok, failed, runtime_error, rewrapping, transaction, ◌>>=◌, acquire, nextval, get_tables, fail_if,
  what,
}
use hse_project_2026_chronos.Server.Rows.{Status}
use hse_project_2026_chronos.Server.Exceptions.{IsRuntimeError, save-IsRuntimeError}
use hse_project_2026_chronos.Server.Repositories.Statuses
use hse_project_2026_chronos.Local.Table.{any_row}
use hse_project_2026_chronos.Server.Tables.{user_exists, status_checks, board_exists, name_taken}
use hse_project_2026_chronos.Server.Handlers.Boards.{board_to_json, handle_create}
use hse_project_2026_chronos.Server.Handlers.Queries.{handle_get_all_boards, json_array, tasks_json}
use hse_project_2026_chronos.Server.Listings.{get_all_boards-view}
use hse_project_2026_chronos.Server.NameCache.{named_tasks, tasks_json-named_tasks}
use hse_project_2026_chronos.Server.NewBoard.{CountsCharacters, new_board, with_new_board}
use hse_project_2026_chronos.Server.NewBoard.Listed.{handle_get_all_boards-handle_create}
use hse_project_2026_chronos.Server.NewBoard.Created.{Granted, asked_board, create-Granted}
use hse_project_2026_chronos.Server.Handlers.{
  require_int_param, optional_string_field, optional_string,
}
use hse_project_2026_chronos.Server.Params.{require_int_param_iff}
use hse_project_2026_chronos.Server.Steps.{Steps}
use hse_project_2026_chronos.Server.TestData.{
  libraries, world, world-WellFormed, delete_board_1, without_token, arrivals, status_1, board_1,
  task_1, tables, list_boards, new_board_request,
}

refused :
    (handle_request libraries library environment (pos 15) without_token world).0
    ≡ some (build_error_response 401 "UNAUTHORIZED" (codes "User is not authorized") end)
unfolding handle_request with_auth refusal_response
refused = refl

refusal_is_error :
    400 ≤ (build_error_response 401 "UNAUTHORIZED" (codes "User is not authorized") end).status
unfolding build_error_response
refusal_is_error = omega arith

error_changes_nothing_example :
    (handle_request libraries library environment (pos 15) without_token world).1.tables
    ≡ world.tables
error_changes_nothing_example =
    error_changes_nothing libraries library environment (pos 15) without_token world
      (build_error_response 401 "UNAUTHORIZED" (codes "User is not authorized") end) refused
      refusal_is_error

serve_all-WellFormed_example : IsWellFormed (serve_all libraries library environment arrivals world)
serve_all-WellFormed_example =
    serve_all-WellFormed libraries library environment arrivals world world-WellFormed

tail : List ℕ → List ℕ
tail [] = []
tail (c ∷ cs) = cs

behind_bearer : List ℕ → List ℕ
behind_bearer text = tail (tail (tail (tail (tail (tail (tail text))))))

-- The first request is of the user 3, and the second has no token.
NotFrom-4 :
    NotFrom libraries library environment 4
      (record { time = 15; outages = false ∷ true ∷ []; call = delete_board_1 })
unfolding behind_bearer tail
NotFrom-4 token header accepts =
    let same : made_token.0 ≡ token = ap behind_bearer header in
    let both : returns (valid (pos 3)) ≡ returns (valid (pos 4)) =
      sym made_token.2
      ∙ subst
          (λ t. parse_and_validate_token library environment (pos 15) t ≡ returns (valid (pos 4)))
          (sym same)
          ((parse_and_validate_token_iff library environment (pos 15) token (pos 4)).1 accepts) in
    cc

serve_all-view_example :
    view 4 (serve_all libraries library environment arrivals world).tables ≡ view 4 world.tables
serve_all-view_example =
    serve_all-view libraries library environment 4 arrivals world world-WellFormed
      (NotFrom-4, (λ token header accepts. absurd (cc), tt))

routed-Steps_example :
    Steps 3 world (routed libraries board_delete delete_board_1.request 3 world).1
routed-Steps_example = routed-Steps libraries delete_board_1.request 3 world board_delete

abbrev query_of_7 : Request
query_of_7 = record delete_board_1.request { params = some ((codes "board_id", codes "7") ∷ []) }

abbrev reading : Libraries
reading = record libraries { stoll = λ t. parsed (pos 7) (length t) }

require_int_param_iff_example : require_int_param reading query_of_7 "board_id" ≡ ok 7
unfolding find_param text_eq
require_int_param_iff_example =
    (require_int_param_iff reading query_of_7 "board_id" 7).1
      ((codes "7", refl, refl), omega arith, omega arith)

get_all_boards-view_example :
    handle_get_all_boards libraries list_boards 3 world
    ≡ (ok_response (json_array (map (board_to_json libraries) (view 3 tables).boards)), world)
get_all_boards-view_example =
    get_all_boards-view libraries list_boards 3 world world-WellFormed refl refl

tasks_json-named_tasks_example :
    tasks_json libraries 1 [] tables.tasks world ≡ named_tasks libraries 1 tables.tasks world
tasks_json-named_tasks_example = tasks_json-named_tasks libraries 1 tables.tasks world refl

characters : CountsCharacters libraries
characters = record { no_more = λ t. omega arith; not_none = one_byte }
  where
    one_byte : (t : List ℕ) → is_empty t ≡ false → 1 ≤ length t
    one_byte [] h = cc
    one_byte (c ∷ cs) h = omega arith

week-Granted : Granted libraries new_board_request 3 world (codes "Week") []
unfolding user_exists any_row get text_eq optional_string_field optional_string
week-Granted = record {
  body = field "title" (str "Week") end;
  is_post = refl;
  has_body = refl;
  has_title = refl;
  has_description = refl;
  title_size = refl;
  description_size = omega arith;
  user_there = refl;
  user_positive = λ h. omega (arith, h);
  board_ids_left = omega arith;
  status_ids_left = omega arith;
  connected = refl;
}

create-Granted_example : handle_create libraries new_board_request 3 world ≡ (
  ok_response (board_to_json libraries (new_board world (asked_board 3 (codes "Week") []))),
  with_new_board (asked_board 3 (codes "Week") []) world,
)
create-Granted_example =
    create-Granted libraries new_board_request 3 world (codes "Week") [] characters world-WellFormed
      week-Granted

-- A second status with the name of the first.
abbrev second_done : Status
second_done = record status_1 { id = 0 }

second_done_thrown :
    (Statuses.save libraries second_done world).0
    ≡ failed (runtime_error (codes "Failed to save Status: "))
unfolding Statuses.save Statuses.insert rewrapping transaction ◌>>=◌ acquire
    Statuses.insert_status_row Statuses.next_status_id nextval get_tables fail_if status_checks
    board_exists any_row name_taken text_eq what
second_done_thrown = refl

save-IsRuntimeError_example : IsRuntimeError (runtime_error (codes "Failed to save Status: "))
save-IsRuntimeError_example =
    save-IsRuntimeError libraries board_1 second_done task_1 world
      (runtime_error (codes "Failed to save Status: ")) (inr (inl second_done_thrown))

handle_get_all_boards-handle_create_example :
    (handle_get_all_boards libraries list_boards 3
      (handle_create libraries new_board_request 3 world).1).0
    ≡ ok_response (
        json_array (
          map
            (board_to_json libraries)
            ((view 3 tables).boards ++ new_board world (asked_board 3 (codes "Week") []) ∷ [])))
handle_get_all_boards-handle_create_example =
    handle_get_all_boards-handle_create libraries new_board_request list_boards 3 world
      (codes "Week") [] characters world-WellFormed week-Granted refl
