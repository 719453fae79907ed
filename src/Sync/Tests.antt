-- ===== src/Sync/Tests.antt =====
-- Runs of the sync managers.
use hse_project_2026_chronos.Base.{
  ◌≡◌, refl, true, false, not, ◌||◌, none, some, [], ◌∷◌, codes, text_eq, All, inr,
}
use hse_project_2026_chronos.Base.Int.{pos, eq_ℤ}
use hse_project_2026_chronos.Json.{
  Json, Items, Members, integer, string, object, nil, cons, member, end, get, at,
}
use hse_project_2026_chronos.Local.Rows.{LocalBoard, text_lt, synced, conflict}
use hse_project_2026_chronos.Local.Table.{find_row, any_row, all_rows}
use hse_project_2026_chronos.Local.Schema.{has_board_id, board_checks}
use hse_project_2026_chronos.Local.Db.{Db, ok}
use hse_project_2026_chronos.Local.Boards.{update_board_row, mark_deleted_by_id}
use hse_project_2026_chronos.Local.TestData.{morning, home_board, home}
use hse_project_2026_chronos.Sync.Wire.{
  Operation, to_int, to_text, to_object, response_data, or_fallback, json_timestamp, code_is_error,
}
use hse_project_2026_chronos.Sync.Boards
use hse_project_2026_chronos.Sync.Boards.Merge.{Merged, local_change_kept, server_row_stored}
use hse_project_2026_chronos.Sync.Boards.Deletion.{deletion_undone}
use hse_project_2026_chronos.Sync.Boards.LostEdit.{newer_edit_marked_synced}
use hse_project_2026_chronos.Sync.Tasks
use hse_project_2026_chronos.Sync.Tasks.Links.{is_linked, parse-linked}
use hse_project_2026_chronos.Sync.Tasks.Pushes.{
  stands_behind, sendable, sync-justified, sync_complete,
}

-- The board as the server has it.
abbrev house : LocalBoard
house = record (home_board (pos 3)) {
  title = codes "House";
  updated_at = codes "2026-03-01T05:00:00Z";
  sync_status = synced;
  server_version = pos 1;
}

home_found : find_row (has_board_id (pos 3)) (home (pos 3) true).boards ≡ some (home_board (pos 3))
unfolding find_row
home_found = refl

home_newer : Boards.keeps_local (home_board (pos 3)) house ≡ true
unfolding Boards.keeps_local text_lt
home_newer = refl

home_short : board_checks (update_board_row morning (home_board (pos 3))) ≡ true
unfolding board_checks update_board_row
home_short = refl

house_short : board_checks (update_board_row morning house) ≡ true
unfolding board_checks update_board_row
house_short = refl

house_missing : find_row (has_board_id (pos 3)) (home (pos 8) true).boards ≡ none
unfolding find_row
house_missing = refl

home_all_checked : all_rows board_checks (home (pos 3) true).boards ≡ true
unfolding all_rows board_checks
home_all_checked = refl

local_change_kept_example :
    Merged morning house
      (home (pos 3) true)
      (pos 4)
      (record (home_board (pos 3)) { sync_status = conflict })
      (Boards.save_from_server morning house (home (pos 3) true))
local_change_kept_example =
    local_change_kept morning house (home (pos 3) true) (home_board (pos 3)) (pos 4) home_found
      home_newer refl refl home_short

server_row_stored_example :
    Merged morning house
      (home (pos 8) true)
      (pos 4)
      house
      (Boards.save_from_server morning house (home (pos 8) true))
server_row_stored_example =
    server_row_stored morning house (home (pos 8) true) (pos 4) (inr house_missing) refl refl
      house_short

deletion_undone_example :
    Merged morning house (mark_deleted_by_id morning (pos 3) (home (pos 3) true)).1 (pos 4) house (
      Boards.save_from_server morning house
        (mark_deleted_by_id morning (pos 3) (home (pos 3) true)).1)
deletion_undone_example =
    deletion_undone morning (home (pos 3) true) house (home_board (pos 3)) (codes "2026-03-01")
      (codes "08:00:00") (codes "05:00:00Z") (pos 4) refl refl home_all_checked home_found refl refl
      house_short

abbrev house_reply : Json
house_reply = object (
    member (codes "data")
      (object (
        member (codes "id") (integer (pos 3)) (
          member (codes "user_id") (integer (pos 5)) (
            member (codes "title") (string (codes "House")) (
              member (codes "created_at") (string (codes "2026-02-01T08:00:00Z"))
                (member (codes "updated_at") (string (codes "2026-03-01T05:00:00Z")) end))))))
      end)

house_received : Boards.board_from_json morning (response_data house_reply) ≡ house
unfolding Boards.board_from_json response_data to_object at get text_eq to_int to_text or_fallback
    json_timestamp
house_received = refl

fine_code : code_is_error (pos 200) ≡ false
unfolding code_is_error
fine_code = refl

newer_edit_marked_synced_example :
    ((Boards.handle_push_response morning house_reply
        (pos 200)
        (pos 3)
        Operation.update
        (home (pos 3) true)).0
      ≡ ok true)
    × ((row : LocalBoard) × (find_row
            (has_board_id (pos 3))
            (Boards.handle_push_response morning house_reply
              (pos 200)
              (pos 3)
              Operation.update
              (home (pos 3) true)).1.boards
          ≡ some row)
        × (row.title ≡ codes "Home")
        × (row.description ≡ [])
        × (row.sync_status ≡ synced))
newer_edit_marked_synced_example =
    newer_edit_marked_synced morning house_reply (pos 200) (home (pos 3) true) house
      (home_board (pos 3)) fine_code house_received home_found home_newer refl home_short
      home_all_checked

-- The board is known to the server and its task is not.
abbrev shared_home : Db
shared_home = record (home (pos 3) true) {
  boards = record (home_board (pos 3)) { sync_status = synced } ∷ [];
}

sync-justified_example :
    All
      (λ p. any_row (stands_behind shared_home p) shared_home.tasks ≡ true)
      (Tasks.sync morning shared_home)
sync-justified_example = sync-justified morning shared_home

sync_complete_example :
    all_rows
      (λ t.
        not (sendable morning shared_home t)
        || any_row (λ p. eq_ℤ p.local_id t.id) (Tasks.sync morning shared_home))
      shared_home.tasks
    ≡ true
sync_complete_example = sync_complete morning shared_home

-- A task of the column, and one of a board that the client does not have.
abbrev dishes : Members
dishes = member (codes "id") (integer (pos 4)) (
    member (codes "title") (string (codes "Dishes")) (
      member (codes "board_id") (integer (pos 3))
        (member (codes "status_id") (integer (pos 7)) end)))

abbrev orphan : Members
orphan = member (codes "id") (integer (pos 5)) (member (codes "board_id") (integer (pos 9)) end)

home_linked :
    all_rows
      (is_linked (home (pos 3) false).boards (home (pos 3) false).statuses)
      (home (pos 3) false).tasks
    ≡ true
unfolding all_rows is_linked any_row
home_linked = refl

abbrev two_tasks : Items
two_tasks = cons (object dishes) (cons (object orphan) nil)

parse-linked_example :
    (all_rows
        (is_linked
          (Tasks.parse morning two_tasks (home (pos 3) false)).1.boards
          (Tasks.parse morning two_tasks (home (pos 3) false)).1.statuses)
        (Tasks.parse morning two_tasks (home (pos 3) false)).1.tasks
      ≡ true)
    × ((Tasks.parse morning two_tasks (home (pos 3) false)).1.boards ≡ (home (pos 3) false).boards)
    × ((Tasks.parse morning two_tasks (home (pos 3) false)).1.statuses
        ≡ (home (pos 3) false).statuses)
parse-linked_example = parse-linked morning two_tasks (home (pos 3) false) home_linked
