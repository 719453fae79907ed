-- ===== src/Server/Steps/Tasks.antt =====
-- The repository of tasks keeps to the specification.
use hse_project_2026_chronos.Base.{ℕ, ◌≡◌, refl, sym, ap, ◌∙◌, subst, true, none, some, ◌==◌, arith}
use hse_project_2026_chronos.Local.Table.{find_row, any_row-of_find}
use hse_project_2026_chronos.Server.Rows.{Task, task_error}
use hse_project_2026_chronos.Server.Tables.{Tables, task_has_id, add_task}
use hse_project_2026_chronos.Server.Http.{Libraries}
use hse_project_2026_chronos.Server.Action.{World}
use hse_project_2026_chronos.Server.Action.Worlds.{
  Later, Idle, Fresh, Later-refl, Later-of_same, Later-trans, Idle-of_same,
}
use hse_project_2026_chronos.Server.Action.Runs.{
  Post, Post-bind, Post-then, Post_mono, Post-pure, Post-check, Post-if, Post-construct_valid,
  Post-get_world, Post-get_tables, Post-put_tables, Post-transaction, Post-rewrapping, Post-nextval,
}
use hse_project_2026_chronos.Server.Repositories.Statuses.{owns}
use hse_project_2026_chronos.Server.Repositories.Tasks.{
  next_task_id, stored, insert_task_row, insert, update_task_rows, update, save, delete_by_id,
}
use hse_project_2026_chronos.Server.Steps.{
  Step, Steps, idle, task_added, task_edited, task_deleted, done, step, status_on_board,
}

next_task_id-Fresh :
    (w : World)
    → Post next_task_id w
        (λ id w'. Fresh (λ n. n.task) w.next_ids w'.next_ids id × (w'.tables ≡ w.tables))
        (Later w)
unfolding next_task_id
next_task_id-Fresh w =
    Post-nextval (λ n. n.task) _ w
      (record {
        users_later = omega arith;
        boards_later = omega arith;
        statuses_later = omega arith;
        tasks_later = omega arith;
        sessions_later = omega arith;
      })
      refl

module _ (lib : Libraries) (task : Task) (user : ℕ) where
  -- The user's board, with the status of the task.
  abbrev pub Placed : Tables → Type 0
  Placed t =
      (owns user task.board_id t.boards ≡ true)
      × (status_on_board task.status_id task.board_id t.statuses ≡ true)

  insert_task_row-Step :
      (w : World)
      → Placed w.tables
      → Post
          (insert_task_row lib task)
          w
          (λ row w'. Step user w w' × (task_error row ≡ task_error task))
          (Later w)
  unfolding insert_task_row task_error
  insert_task_row-Step w (owned, on_board) =
      Post-bind (next_task_id-Fresh w) (λ _ l. l)
        λ id w1 (fresh, kept). Post-then (
          Post-get_world (
            Post-check fresh.later _ _ _ λ _. Post-then (
              Post-put_tables _ (
                Post-pure _ (
                  task_added
                      (record task {
                        id = id;
                        created_at = w1.now;
                        updated_at = w1.now;
                        deadline = stored lib task.deadline;
                      })
                      fresh owned on_board
                      (ap
                        (add_task (record task {
                          id = id;
                          created_at = w1.now;
                          updated_at = w1.now;
                          deadline = stored lib task.deadline;
                        }))
                        kept),
                  refl,
                )))))

  module _ (valid : task_error task ≡ none) where
    insert-Steps :
        (w : World) → Placed w.tables → Post (insert lib task) w (λ _. Steps user w) (Idle w)
    unfolding insert
    insert-Steps w placed =
        Post-bind {Q' = λ row w'. Steps user w w' × (task_error row ≡ task_error task)}
          (Post-transaction lib λ w1 same.
            Post_mono (insert_task_row-Step w1 (subst Placed (sym same.tables_same) placed))
              (λ row w2 (added, e). (step (idle (Idle-of_same same)) (step added done), e))
              (λ w2. Later-trans (Later-of_same same)))
          (λ _ i. i) (λ row w1 (steps, e). Post-construct_valid task_error row (e ∙ valid) steps)

  update_task_rows-Step :
      (old : Task) (w : World)
      → find_row (task_has_id task.id) w.tables.tasks ≡ some old
      → task.board_id ≡ old.board_id
      → Placed w.tables
      → Post (update_task_rows lib task) w (λ _ w'. Step user w w') (Later w)
  unfolding update_task_rows
  update_task_rows-Step old w found same_board (owned, on_board) = Post-then (
      Post-get_world (
        Post-check (Later-refl w.next_ids) _ _ _ λ _. Post-then (
          Post-put_tables _ (
            Post-pure _ (
              task_edited old
                (record task { deadline = stored lib task.deadline; updated_at = w.now })
                (Later-refl w.next_ids) found
                (subst (λ b. owns user b w.tables.boards ≡ true) same_board owned) same_board
                on_board refl)))))

  update-Steps :
      (old : Task) (w : World)
      → find_row (task_has_id task.id) w.tables.tasks ≡ some old
      → task.board_id ≡ old.board_id
      → Placed w.tables
      → Post (update lib task) w (λ _. Steps user w) (Idle w)
  unfolding update
  update-Steps old w found same_board placed = Post-transaction lib λ w1 same.
      let t = λ (P : Tables → Type 0) (h : P w.tables). subst P (sym same.tables_same) h in
      Post_mono
        (update_task_rows-Step old w1
          (t (λ t. find_row (task_has_id task.id) t.tasks ≡ some old) found) same_board
          (t Placed placed))
        (λ row w2 edited. step (idle (Idle-of_same same)) (step edited done))
        (λ w2. Later-trans (Later-of_same same))

  module _ (valid : task_error task ≡ none) where
    pub save_new-Steps :
        (w : World)
        → task.id ≡ 0
        → Placed w.tables
        → Post (save lib task) w (λ _. Steps user w) (Idle w)
    unfolding save
    save_new-Steps w new placed = Post-rewrapping lib _ (
        Post-if (task.id == 0) _ _ w (λ _. insert-Steps valid w placed)
          (λ known. absurd (ground (arith, new, known))))

    pub save_known-Steps :
        (old : Task) (w : World)
        → find_row (task_has_id task.id) w.tables.tasks ≡ some old
        → task.board_id ≡ old.board_id
        → Placed w.tables
        → Post (save lib task) w (λ _. Steps user w) (Idle w)
    unfolding save
    save_known-Steps old w found same_board placed = Post-rewrapping lib _ (
        Post-if (task.id == 0) _ _ w (λ _. insert-Steps valid w placed)
          (λ known. update-Steps old w found same_board placed))

pub delete_by_id-Steps :
    (lib : Libraries) (user id : ℕ) (old : Task) (w : World)
    → find_row (task_has_id id) w.tables.tasks ≡ some old
    → owns user old.board_id w.tables.boards ≡ true
    → Post (delete_by_id lib id) w (λ there w'. Steps user w w' × (there ≡ true)) (Idle w)
unfolding delete_by_id
delete_by_id-Steps lib user id old w found owned = Post-rewrapping lib _ (
    Post-transaction lib λ w1 same.
      let t = λ (P : Tables → Type 0) (h : P w.tables). subst P (sym same.tables_same) h in
      let still = t (λ t. find_row (task_has_id id) t.tasks ≡ some old) found in
      Post-then (
        Post-get_tables (
          Post-then (
            Post-put_tables _ (
              Post-pure _ (
                step (idle (Idle-of_same same)) (
                    step
                      (task_deleted old id (Later-refl w1.next_ids) still
                        (t (λ t. owns user old.board_id t.boards ≡ true) owned) refl)
                      done),
                any_row-of_find (task_has_id id) w1.tables.tasks old still,
              ))))))
