-- ===== src/Server/Steps/Statuses.antt =====
-- The repository of statuses keeps to the specification.
use hse_project_2026_chronos.Base.{
  ℕ, ◌≡◌, refl, sym, ap, subst, true, false, none, some, ◌==◌, arith,
}
use hse_project_2026_chronos.Local.Table.{find_row, any_row-of_find}
use hse_project_2026_chronos.Server.Rows.{Text, Status, status_error, bad_size}
use hse_project_2026_chronos.Server.Tables.{
  Tables, status_has_id, name_taken, add_status, status_exists,
}
use hse_project_2026_chronos.Server.Http.{Libraries}
use hse_project_2026_chronos.Server.Action.{World}
use hse_project_2026_chronos.Server.Action.Worlds.{
  Later, Idle, Fresh, Later-refl, Later-of_same, Later-trans, Idle-of_same,
}
use hse_project_2026_chronos.Server.Action.Runs.{
  Post, Post-bind, Post-then, Post_mono, Post-pure, Post-fail_if, Post-check, Post-found_there,
  Post-if, Post-if, Post-construct_valid, Post-get_tables, Post-put_tables, Post-transaction,
  Post-rewrapping, Post-nextval,
}
use hse_project_2026_chronos.Server.Repositories.Statuses.{
  owns, next_status_id, insert_status_row, insert, update_found, update_status_row, update, save,
  delete_by_id,
}
use hse_project_2026_chronos.Server.Steps.{
  Step, Steps, idle, status_added, status_edited, status_deleted, done, step,
}

next_status_id-Fresh :
    (w : World)
    → Post next_status_id w
        (λ id w'. Fresh (λ n. n.status) w.next_ids w'.next_ids id × (w'.tables ≡ w.tables))
        (Later w)
unfolding next_status_id
next_status_id-Fresh w =
    Post-nextval (λ n. n.status) _ w
      (record {
        users_later = omega arith;
        boards_later = omega arith;
        statuses_later = omega arith;
        tasks_later = omega arith;
        sessions_later = omega arith;
      })
      refl

abbrev pub new_status : ℕ → Text → ℕ → ℕ → Status
new_status board_id name position id = record {
  id = id;
  board_id = board_id;
  name = name;
  position = position;
}

module _ (lib : Libraries) (user board_id : ℕ) (name : Text) (position : ℕ) (w : World)
    (owned : owns user board_id w.tables.boards ≡ true) (sized : bad_size 50 name ≡ false) where
  pub insert_status_row-Step :
      Post
        (insert_status_row lib board_id name position)
        w
        (λ row w'.
          Step user w w'
          × (w'.tables.boards ≡ w.tables.boards)
          × (row ≡ new_status board_id name position row.id))
        (Later w)
  unfolding insert_status_row
  insert_status_row-Step =
      Post-bind (next_status_id-Fresh w) (λ _ l. l)
        λ id w1 (fresh, kept). Post-then (
          Post-get_tables (
            Post-then (
              Post-fail_if _ _
                (λ accepted. Post-then (
                  Post-fail_if _ _
                    (λ unique. Post-then (
                      Post-put_tables _ (
                        Post-pure _ (
                          status_added (new_status board_id name position id) fresh owned sized
                              (subst
                                (λ t. name_taken (new_status board_id name position id) t ≡ false)
                                kept unique)
                              (ap (add_status (new_status board_id name position id)) kept),
                          ap (λ t. t.boards) kept,
                          refl,
                        ))))
                    fresh.later))
                fresh.later)))

-- The test of a constructor on a name, and the one on the board.
status_error-sized : (s : Status) → status_error s ≡ none → bad_size 50 s.name ≡ false
unfolding status_error
status_error-sized s valid = ground (arith, valid)

status_error-on_board : (s : Status) → status_error s ≡ none → (s.board_id == 0) ≡ false
unfolding status_error
status_error-on_board s valid = ground (arith, valid)

module _ (lib : Libraries) (status : Status) (valid : status_error status ≡ none) (user : ℕ) where
  insert-Steps :
      (w : World)
      → owns user status.board_id w.tables.boards ≡ true
      → Post (insert lib status) w (λ _. Steps user w) (Idle w)
  unfolding insert status_error
  insert-Steps w owned =
      Post-bind
        {Q' = λ row w'.
          Steps user w w' × (row ≡ new_status status.board_id status.name status.position row.id)}
        (Post-transaction lib λ w1 same.
          Post_mono
            (insert_status_row-Step lib user status.board_id status.name status.position w1
              (subst (λ t. owns user status.board_id t.boards ≡ true) (sym same.tables_same) owned)
              (status_error-sized status valid))
            (λ row w2 (added, boards, written).
              (step (idle (Idle-of_same same)) (step added done), written))
            (λ w2. Later-trans (Later-of_same same)))
        (λ _ i. i)
        (λ row w1 (steps, written).
          Post-construct_valid status_error row
            (subst (λ r. status_error r ≡ none) (sym written) valid) steps)

  module _ (old : Status) (w : World)
      (found : find_row (status_has_id status.id) w.tables.statuses ≡ some old)
      (owned : owns user old.board_id w.tables.boards ≡ true)
      (same_board : old.board_id ≡ status.board_id) where
    update_status_row-Step :
        Post
          (update_status_row lib status)
          w
          (λ row w'.
            Step user w w'
            × (row ≡ some (record old { name = status.name; position = status.position })))
          (Later w)
    unfolding update_status_row update_found
    update_status_row-Step = Post-then (
        Post-get_tables (
          subst
            (λ o.
              Post (update_found lib status o) w
                (λ row w'.
                  Step user w w'
                  × (row ≡ some (record old { name = status.name; position = status.position })))
                (Later w))
            (sym found)
            (Post-then (
              Post-get_tables (
                Post-check (Later-refl w.next_ids) _ _ _ λ _.
                  Post-check (Later-refl w.next_ids) _ _ _ λ unique. Post-then (
                    Post-put_tables _ (
                      Post-pure _ (
                        status_edited old status (Later-refl w.next_ids) found owned
                            (status_error-sized status valid) unique refl,
                        refl,
                      ))))))))

  update-Steps :
      (old : Status) (w : World)
      → find_row (status_has_id status.id) w.tables.statuses ≡ some old
      → owns user old.board_id w.tables.boards ≡ true
      → old.board_id ≡ status.board_id
      → Post (update lib status) w (λ _. Steps user w) (Idle w)
  unfolding update status_error
  update-Steps old w found owned same_board =
      Post-bind
        {Q' = λ row w'.
          Steps user w w'
          × (row ≡ some (record old { name = status.name; position = status.position }))}
        (Post-transaction lib λ w1 same.
          let t = λ (P : Tables → Type 0) (h : P w.tables). subst P (sym same.tables_same) h in
          Post_mono
            (update_status_row-Step old w1
              (t (λ t. find_row (status_has_id status.id) t.statuses ≡ some old) found)
              (t (λ t. owns user old.board_id t.boards ≡ true) owned) same_board)
            (λ row w2 (edited, written).
              (step (idle (Idle-of_same same)) (step edited done), written))
            (λ w2. Later-trans (Later-of_same same)))
        (λ _ i. i)
        (λ row w1 (steps, written). Post-then (
          Post-found_there row _ (record old { name = status.name; position = status.position })
            written
            (Post-construct_valid status_error _
              (subst (λ b. status_error (record status { board_id = b }) ≡ none) (sym same_board)
                valid)
              steps)))

  pub save_new-Steps :
      (w : World)
      → status.id ≡ 0
      → owns user status.board_id w.tables.boards ≡ true
      → Post (save lib status) w (λ _. Steps user w) (Idle w)
  unfolding save
  save_new-Steps w new owned = Post-rewrapping lib _ (
      Post-if (status.id == 0) _ _ w (λ _. insert-Steps w owned)
        (λ known. absurd (ground (arith, new, known))))

  pub save_known-Steps :
      (old : Status) (w : World)
      → find_row (status_has_id status.id) w.tables.statuses ≡ some old
      → owns user old.board_id w.tables.boards ≡ true
      → old.board_id ≡ status.board_id
      → Post (save lib status) w (λ _. Steps user w) (Idle w)
  unfolding save
  save_known-Steps old w found owned same_board = Post-rewrapping lib _ (
      Post-if (status.id == 0) _ _ w
        (λ _. insert-Steps w (subst (λ b. owns user b w.tables.boards ≡ true) same_board owned))
        (λ known. update-Steps old w found owned same_board))

pub delete_by_id-Steps :
    (lib : Libraries) (user id : ℕ) (old : Status) (w : World)
    → find_row (status_has_id id) w.tables.statuses ≡ some old
    → owns user old.board_id w.tables.boards ≡ true
    → Post (delete_by_id lib id) w (λ there w'. Steps user w w' × (there ≡ true)) (Idle w)
unfolding delete_by_id status_exists
delete_by_id-Steps lib user id old w found owned = Post-rewrapping lib _ (
    Post-transaction lib λ w1 same.
      let t = λ (P : Tables → Type 0) (h : P w.tables). subst P (sym same.tables_same) h in
      let still = t (λ t. find_row (status_has_id id) t.statuses ≡ some old) found in
      Post-then (
        Post-get_tables (
          Post-then (
            Post-put_tables _ (
              Post-pure _ (
                step (idle (Idle-of_same same)) (
                    step
                      (status_deleted old id (Later-refl w1.next_ids) still
                        (t (λ t. owns user old.board_id t.boards ≡ true) owned) refl)
                      done),
                any_row-of_find (status_has_id id) w1.tables.statuses old still,
              ))))))
