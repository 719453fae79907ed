-- ===== src/Sync/Tasks/Links.antt =====
-- The boards and statuses that the tasks of frontend/sync/task_sync_manager.cpp refer to.
use hse_project_2026_chronos.Base.{
  ◌≡◌, refl, sym, ap, ◌∙◌, subst, Bool, true, false, not, ◌&&◌, ◌||◌, Option, none, some, List, [],
  ◌∷◌, Option-cases, Bool-cases, inl, inr, is_empty, if◌then◌else◌, arith,
}
use hse_project_2026_chronos.Json.{Items, nil, cons, object}
use hse_project_2026_chronos.Local.Rows.{Env, LocalBoard, LocalStatus, LocalTask, conflict}
use hse_project_2026_chronos.Local.Table.{
  find_row, any_row, all_rows, all_rows-append, all_rows-update_where,
}
use hse_project_2026_chronos.Local.Schema.{
  has_board_id, has_status_id, has_task_id, task_refs, insert_into_tasks, update_tasks, touch_task,
}
use hse_project_2026_chronos.Local.Db.{
  Db, M, Result, ok, thrown, pure, exec_or_throw, exec_or_throw-none, exec_or_throw-some,
  drop_value-db, catch_with, ◌>>◌, continue_with,
}
use hse_project_2026_chronos.Local.Tasks.{
  insert_task_row, update_task_row, find_by_id, insert, update, save,
}
use hse_project_2026_chronos.Sync.Tasks.{
  task_from_json, keeps_local, save_from_server, parse, choose, store,
}

-- The board and the status of a task are there.
unfoldable pub is_linked : List LocalBoard → List LocalStatus → LocalTask → Bool
is_linked boards statuses t =
    any_row (has_board_id t.board_id) boards && any_row (has_status_id t.status_id) statuses

abbrev passed : {A : Type 0} → (A → Bool) → Option A → Bool
passed q none = true
passed q (some x) = q x

-- A task that the query finds passes what all rows pass.
find_row-passes :
    {A : Type 0} (q p : A → Bool) (xs : List A) (x : A)
    → all_rows q xs ≡ true
    → find_row p xs ≡ some x
    → q x ≡ true
unfolding all_rows find_row
find_row-passes q p [] x all found = cc
find_row-passes q p (y ∷ ys) x all found = elim (Bool-cases (p y)) [
  | inl here ↦
      let first : some y ≡ some x = rw here at found in
      let passes : q y ≡ true = ground (arith, all) in ap (λ o. passed q o) (sym first) ∙ passes
  | inr other ↦
      let later : find_row p ys ≡ some x = rw other at found in
      find_row-passes q p ys x (ground (arith, all)) later
]

module _ (env : Env) (boards : List LocalBoard) (statuses : List LocalStatus) where
  -- Tables with these boards and statuses, to which all tasks are linked.
  record Fits (db : Db) : Type 0 where
    same_boards : db.boards ≡ boards
    same_statuses : db.statuses ≡ statuses
    linked : all_rows (is_linked boards statuses) db.tasks ≡ true

  abbrev OptionFits : Option Db → Type 0
  OptionFits none = Unit
  OptionFits (some db) = Fits db

  refused_if-Fits : (b : Bool) (db : Db) → Fits db → OptionFits (if b then none else some db)
  refused_if-Fits true db f = tt
  refused_if-Fits false db f = f

  taken_if-Fits : (b : Bool) (db : Db) → Fits db → OptionFits (if b then some db else none)
  taken_if-Fits true db f = f
  taken_if-Fits false db f = tt

  -- A statement, and the method that goes on with a value after it.
  end-Fits :
      {A : Type 0} (statement : Db → Option Db) (a : A) (db : Db)
      → Fits db
      → OptionFits (statement db)
      → Fits ((exec_or_throw statement >> pure a) db).1
  end-Fits statement a db f h = elim (Option-cases (statement db)) [
    | inl refused ↦
        subst (λ (e : Result (Unit {0}) × Db). Fits (continue_with e.0 e.1 (λ _. pure a)).1)
          (sym (exec_or_throw-none statement db refused)) f
    | inr (db', taken) ↦
        subst (λ (e : Result (Unit {0}) × Db). Fits (continue_with e.0 e.1 (λ _. pure a)).1)
          (sym (exec_or_throw-some statement db db' taken)) (subst OptionFits taken h)
  ]

  insert-Fits :
      (task : LocalTask) (db : Db)
      → is_linked boards statuses task ≡ true
      → Fits db
      → Fits (insert env task db).1
  unfolding insert insert_into_tasks insert_task_row is_linked all_rows
  insert-Fits task db h f = elim (Bool-cases (is_empty (env.trimmed task.title))) [
    | inl blank ↦ rw blank f
    | inr filled ↦ rw filled (
        end-Fits (insert_into_tasks (insert_task_row env task)) (insert_task_row env task) db f (
          refused_if-Fits _ _ (record {
            same_boards = f.same_boards;
            same_statuses = f.same_statuses;
            linked =
                all_rows-append (is_linked boards statuses) db.tasks (insert_task_row env task ∷ [])
                ∙ ground (arith, f.linked, h);
          })))
  ]

  touched-linked :
      (task x : LocalTask)
      → is_linked boards statuses task ≡ true
      → is_linked boards statuses (touch_task env x (update_task_row env task)) ≡ true
  unfolding touch_task update_task_row is_linked
  touched-linked task x h = ground (arith, h)

  update-Fits :
      (task : LocalTask) (db : Db)
      → is_linked boards statuses task ≡ true
      → Fits db
      → Fits (update env task db).1
  unfolding update update_tasks
  update-Fits task db h f = elim (Bool-cases (is_empty (env.trimmed task.title))) [
    | inl blank ↦ rw blank f
    | inr filled ↦ rw filled (
        end-Fits (update_tasks env task_refs (has_task_id task.id) (λ _. update_task_row env task))
          task db f
          (taken_if-Fits _ _ (record {
            same_boards = f.same_boards;
            same_statuses = f.same_statuses;
            linked =
                all_rows-update_where (is_linked boards statuses) (has_task_id task.id)
                  (λ t. touch_task env t (update_task_row env task))
                  (λ x _. touched-linked task x h) db.tasks f.linked;
          })))
  ]

  save-Fits :
      (task : LocalTask) (db : Db)
      → is_linked boards statuses task ≡ true
      → Fits db
      → Fits (save env task db).1
  unfolding save find_by_id
  save-Fits task db h f = elim (Option-cases (find_row (has_task_id task.id) db.tasks)) [
    | inl missing ↦ rw missing (insert-Fits task db h f)
    | inr (old, found) ↦ rw found (update-Fits task db h f)
  ]

  dropped-Fits :
      (end : Result LocalTask × Db)
      → Fits end.1
      → Fits (continue_with end.0 end.1 (λ _. pure (tt {0}))).1
  dropped-Fits end f = subst Fits (sym (drop_value-db end)) f

  caught-Fits :
      (end : Result (Unit {0}) × Db) → Fits end.1 → Fits (catch_with end.0 end.1 (pure (tt {0}))).1
  caught-Fits (ok _, db) f = f
  caught-Fits (thrown, db) f = f

  store-Fits :
      (task : LocalTask) (db : Db)
      → is_linked boards statuses task ≡ true
      → Fits db
      → Fits (store env task db).1
  unfolding store
  store-Fits task db h f =
      caught-Fits ((save env task >> pure tt) db)
        (dropped-Fits (save env task db) (save-Fits task db h f))

  choose-Fits :
      (task : LocalTask) (found : Option LocalTask) (db : Db)
      → is_linked boards statuses task ≡ true
      → ((existing : LocalTask) → found ≡ some existing → is_linked boards statuses existing ≡ true)
      → Fits db
      → Fits (choose env task found db).1
  unfolding choose is_linked
  choose-Fits task none db h old f = store-Fits task db h f
  choose-Fits task (some existing) db h old f = elim (Bool-cases (keeps_local existing task)) [
    | inl kept ↦ rw kept (
        dropped-Fits (save env (record existing { sync_status = conflict }) db)
          (save-Fits (record existing { sync_status = conflict }) db (old existing refl) f))
    | inr older ↦ rw older (store-Fits task db h f)
  ]

  save_from_server-Fits :
      (task : LocalTask) (db : Db) → Fits db → Fits (save_from_server env task db).1
  unfolding save_from_server find_by_id is_linked
  save_from_server-Fits task db f =
      elim (Bool-cases (
        not (any_row (has_board_id task.board_id) db.boards)
        || not (any_row (has_status_id task.status_id) db.statuses))) [
          | inl unlinked ↦ rw unlinked f
          | inr there ↦
              let linked : is_linked db.boards db.statuses task ≡ true = ground (arith, there) in
              let here : is_linked boards statuses task ≡ true =
                subst (λ b. is_linked b statuses task ≡ true) f.same_boards
                  (subst (λ s. is_linked db.boards s task ≡ true) f.same_statuses linked) in
              rw there (
                choose-Fits task (find_row (has_task_id task.id) db.tasks) db here
                  (λ existing found.
                    find_row-passes (is_linked boards statuses) (has_task_id task.id) db.tasks
                      existing f.linked found)
                  f)
        ]

  then-Fits :
      (end : Result (Unit {0}) × Db) (k : M (Unit {0}))
      → Fits end.1
      → ((db : Db) → Fits db → Fits (k db).1)
      → Fits (continue_with end.0 end.1 (λ _. k)).1
  then-Fits (ok _, db) k f go = go db f
  then-Fits (thrown, db) k f go = f

  parse-Fits : (xs : Items) (db : Db) → Fits db → Fits (parse env xs db).1
  unfolding parse
  parse-Fits nil db f = f
  parse-Fits (cons (object obj) rest) db f =
      then-Fits (save_from_server env (task_from_json env obj) db) (parse env rest)
        (save_from_server-Fits (task_from_json env obj) db f) (parse-Fits rest)
  parse-Fits (cons _ rest) db f = parse-Fits rest db f

-- Where every task is on a board and in a status that the client has, this is so after the tasks of
-- any reply of the server have been stored, also without foreign keys enforced and where storing
-- stops at an exception; the boards and the statuses stay as they were.
pub parse-linked :
    (env : Env) (xs : Items) (db : Db)
    → all_rows (is_linked db.boards db.statuses) db.tasks ≡ true
    → (all_rows
          (is_linked (parse env xs db).1.boards (parse env xs db).1.statuses)
          (parse env xs db).1.tasks
        ≡ true)
      × ((parse env xs db).1.boards ≡ db.boards)
      × ((parse env xs db).1.statuses ≡ db.statuses)
parse-linked env xs db linked =
    let f =
      parse-Fits env db.boards db.statuses xs db
        (record { same_boards = refl; same_statuses = refl; linked = linked }) in
    (
      subst
          (λ b.
            all_rows (is_linked b (parse env xs db).1.statuses) (parse env xs db).1.tasks ≡ true)
          (sym f.same_boards)
          (subst (λ s. all_rows (is_linked db.boards s) (parse env xs db).1.tasks ≡ true)
            (sym f.same_statuses) f.linked),
      f.same_boards,
      f.same_statuses,
    )
