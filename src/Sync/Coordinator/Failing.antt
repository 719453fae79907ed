-- ===== src/Sync/Coordinator/Failing.antt =====
-- A board that `LocalBoardRepository::save` refuses, in a reply that
-- frontend/sync/sync_coordinator.cpp handles.
use hse_project_2026_chronos.Base.{
  ◌≡◌, refl, ap, ◌∙◌, Option, true, false, none, some, codes, is_empty, text_eq,
}
use hse_project_2026_chronos.Base.Int.{ℤ}
use hse_project_2026_chronos.Json.{Json, Items, Members, array, object, cons, get}
use hse_project_2026_chronos.Local.Rows.{Env, LocalBoard}
use hse_project_2026_chronos.Local.Table.{find_row}
use hse_project_2026_chronos.Local.Schema.{has_board_id}
use hse_project_2026_chronos.Local.Db.{Db, thrown, pure, continue_with}
use hse_project_2026_chronos.Local.Boards.{find_by_id, insert, save}
use hse_project_2026_chronos.Sync.Wire.{to_text, code_is_error}
use hse_project_2026_chronos.Sync.Boards
use hse_project_2026_chronos.Sync.Coordinator.{
  Coordinator, boards_get_all_url, store_payload, payload_of, handle_response, list,
}

save-refused :
    (env : Env) (board : LocalBoard) (db : Db)
    → is_empty (env.trimmed board.title) ≡ true
    → find_row (has_board_id board.id) db.boards ≡ none
    → save env board db ≡ (thrown, db)
unfolding save find_by_id insert
save-refused env board db blank missing = rw missing (rw blank refl)

blank_board_refused :
    (env : Env) (board : LocalBoard) (db : Db)
    → is_empty (env.trimmed board.title) ≡ true
    → find_row (has_board_id board.id) db.boards ≡ none
    → Boards.save_from_server env board db ≡ (thrown, db)
unfolding Boards.save_from_server find_by_id
blank_board_refused env board db blank missing =
    let refused = save-refused env board db blank missing in
    rw missing (λ i. continue_with (refused i).0 (refused i).1 (λ _. pure (tt {0})))

parse-thrown :
    (env : Env) (obj : Members) (rest : Items) (db : Db)
    → Boards.save_from_server env (Boards.board_from_json env obj) db ≡ (thrown, db)
    → Boards.parse env (cons (object obj) rest) db ≡ (thrown, db)
unfolding Boards.parse
parse-thrown env obj rest db h = rw h

store_payload-boards :
    (env : Env) (xs : Items) (db : Db)
    → store_payload env boards_get_all_url (list xs) db ≡ Boards.parse env xs db
unfolding store_payload text_eq
store_payload-boards env xs db = refl

board_from_json-title :
    (env : Env) (obj : Members)
    → (Boards.board_from_json env obj).title ≡ to_text (get (codes "title") obj)
unfolding Boards.board_from_json
board_from_json-title env obj = refl

handle_response-thrown :
    (env : Env) (root : Members) (code : ℤ) (xs : Items) (c : Coordinator)
    → code_is_error code ≡ false
    → get (codes "data") root ≡ some (array xs)
    → Boards.parse env xs c.db ≡ (thrown, c.db)
    → handle_response env boards_get_all_url (some (object root)) code c ≡ (thrown, c)
unfolding handle_response payload_of
handle_response-thrown env root code xs c fine payload h =
    let stored = λ (v : Option Json). store_payload env boards_get_all_url (payload_of v) c.db in
    let same : (stored (get (codes "data") root)).1 ≡ c.db =
      ap (λ v. (stored v).1) payload ∙ ap (λ r. r.1) (store_payload-boards env xs c.db ∙ h) in
    rw (fine, payload, store_payload-boards env xs c.db, h)
      (ap (λ (db : Db). (thrown, record c { db = db })) same)

-- Where a board that the client does not have, with a blank title, heads the server's list of boards
-- in a reply whose code is no error, an exception leaves the coordinator's handler of the reply: no
-- board of the list is stored, no request for the statuses goes out, and a load that is under way is
-- not ended.
pub blank_board_thrown :
    (env : Env) (root obj : Members) (rest : Items) (code : ℤ) (c : Coordinator)
    → code_is_error code ≡ false
    → get (codes "data") root ≡ some (array (cons (object obj) rest))
    → is_empty (env.trimmed (to_text (get (codes "title") obj))) ≡ true
    → find_row (has_board_id (Boards.board_from_json env obj).id) c.db.boards ≡ none
    → handle_response env boards_get_all_url (some (object root)) code c ≡ (thrown, c)
blank_board_thrown env root obj rest code c fine payload blank missing =
    handle_response-thrown env root code (cons (object obj) rest) c fine payload (
      parse-thrown env obj rest c.db (
        blank_board_refused env (Boards.board_from_json env obj) c.db
          (rw (board_from_json-title env obj) blank) missing))
