-- ===== src/Sync/Coordinator/Tests.antt =====
-- Runs of the coordinator's load cycle.
use hse_project_2026_chronos.Base.{
  ◌≡◌, refl, true, false, none, some, [], ◌∷◌, codes, text_eq, is_empty,
}
use hse_project_2026_chronos.Base.Int.{pos}
use hse_project_2026_chronos.Json.{
  Members, integer, string, object, array, nil, cons, member, end, get,
}
use hse_project_2026_chronos.Local.Db.{ok, thrown}
use hse_project_2026_chronos.Local.Table.{find_row}
use hse_project_2026_chronos.Local.Schema.{has_board_id}
use hse_project_2026_chronos.Local.TestData.{morning, home}
use hse_project_2026_chronos.Sync.Wire.{to_int, to_text, code_is_error}
use hse_project_2026_chronos.Sync.Boards
use hse_project_2026_chronos.Sync.Statuses
use hse_project_2026_chronos.Sync.Tasks
use hse_project_2026_chronos.Sync.Coordinator.{
  Coordinator, boards_get_all_url, statuses_get_all_url, tasks_get_all_url, starts_with,
  handle_response, store_payload, payload_of, by_kind,
}
use hse_project_2026_chronos.Sync.Coordinator.Cycle.{IsCycle, load, reply, tick, run, run-IsCycle}
use hse_project_2026_chronos.Sync.Coordinator.Progress.{
  Answer, answer_to, state_after, load_cycle_ends,
}
use hse_project_2026_chronos.Sync.Coordinator.Failing.{blank_board_thrown}

abbrev idle : Coordinator
idle = record {
  db = home (pos 3) true;
  pending_password = [];
  waiting_initial_boards = false;
  waiting_initial_statuses = false;
  waiting_initial_tasks = false;
  remote_loading = false;
  emit_initial_after_load = false;
  current_user_id = pos 5;
  out = [];
}

abbrev loading : Coordinator
loading = record idle { waiting_initial_boards = true; remote_loading = true }

abbrev empty_answer : Answer
empty_answer = record {
  env = morning;
  document = some (object (member (codes "data") (array nil) end));
  code = pos 200;
}

run-IsCycle_example : IsCycle (
    run
      ((morning, load true)
        ∷ (morning, reply boards_get_all_url none (pos 500))
        ∷ (morning, tick true)
        ∷ [])
      idle)
run-IsCycle_example =
    run-IsCycle
      ((morning, load true)
        ∷ (morning, reply boards_get_all_url none (pos 500))
        ∷ (morning, tick true)
        ∷ [])
      idle refl

boards_returns : (answer_to boards_get_all_url empty_answer loading).0 ≡ ok tt
unfolding handle_response code_is_error payload_of get text_eq store_payload by_kind starts_with
    Boards.parse
boards_returns = refl

statuses_returns :
    (answer_to statuses_get_all_url empty_answer
      (state_after boards_get_all_url empty_answer loading)).0
    ≡ ok tt
unfolding handle_response code_is_error payload_of get text_eq store_payload by_kind starts_with
    Boards.parse Statuses.parse
statuses_returns = refl

tasks_returns :
    (answer_to tasks_get_all_url empty_answer (
      state_after statuses_get_all_url empty_answer
        (state_after boards_get_all_url empty_answer loading))).0
    ≡ ok tt
unfolding handle_response code_is_error payload_of get text_eq store_payload by_kind starts_with
    Boards.parse Statuses.parse Tasks.parse
tasks_returns = refl

load_cycle_ends_example :
    (state_after tasks_get_all_url empty_answer (
      state_after statuses_get_all_url empty_answer
        (state_after boards_get_all_url empty_answer loading))).remote_loading
    ≡ false
load_cycle_ends_example =
    load_cycle_ends loading empty_answer empty_answer empty_answer refl refl refl boards_returns
      statuses_returns tasks_returns

abbrev blank_board : Members
blank_board = member (codes "id") (integer (pos 4)) (member (codes "title") (string []) end)

abbrev blank_root : Members
blank_root = member (codes "data") (array (cons (object blank_board) nil)) end

blank_data : get (codes "data") blank_root ≡ some (array (cons (object blank_board) nil))
unfolding get text_eq
blank_data = refl

blank_title : is_empty (to_text (get (codes "title") blank_board)) ≡ true
unfolding get text_eq to_text
blank_title = refl

blank_missing :
    find_row (has_board_id (Boards.board_from_json morning blank_board).id) loading.db.boards ≡ none
unfolding find_row Boards.board_from_json to_int get text_eq
blank_missing = refl

blank_fine : code_is_error (pos 200) ≡ false
unfolding code_is_error
blank_fine = refl

blank_board_thrown_example :
    handle_response morning boards_get_all_url (some (object blank_root)) (pos 200) loading
    ≡ (thrown, loading)
blank_board_thrown_example =
    blank_board_thrown morning blank_root blank_board nil (pos 200) loading blank_fine blank_data
      blank_title blank_missing
