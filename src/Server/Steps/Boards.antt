-- ===== src/Server/Steps/Boards.antt =====
-- The repository of boards keeps to the specification.
use hse_project_2026_chronos.Base.{
  ℕ, ◌≡◌, refl, sym, ap, subst, true, not, none, some, List, [], ◌∷◌, ◌++◌, ◌==◌, arith, codes,
}
use hse_project_2026_chronos.Local.Table.{find_row, any_row, any_row-of_find}
use hse_project_2026_chronos.Server.Rows.{Text, Board, board_error}
use hse_project_2026_chronos.Server.Tables.{board_has_id, add_board, board_exists}
use hse_project_2026_chronos.Server.Http.{Libraries}
use hse_project_2026_chronos.Server.Action.{World}
use hse_project_2026_chronos.Server.Action.Worlds.{
  Later, Idle, Fresh, Later-refl, Later-of_same, Later-trans, Idle-of_same,
}
use hse_project_2026_chronos.Server.Action.Runs.{
  Post, Post-bind, Post-then, Post_mono, Post-pure, Post-fail_if, Post-passes, Post-if,
  Post-construct_valid, Post-get_world, Post-get_tables, Post-put_tables, Post-transaction,
  Post-rewrapping, Post-nextval,
}
use hse_project_2026_chronos.Server.Repositories.Statuses.{owns}
use hse_project_2026_chronos.Server.Repositories.Boards.{
  next_board_id, insert_board_row, insert_with_statuses, insert, update_board_rows, update, save,
  delete_by_id,
}
use hse_project_2026_chronos.Server.Steps.Statuses.{insert_status_row-Step}
use hse_project_2026_chronos.Server.Steps.{
  Step, Steps, idle, board_added, board_edited, board_deleted, done, step, Step-Later,
}

next_board_id-Fresh :
    (w : World)
    → Post next_board_id w
        (λ id w'. Fresh (λ n. n.board) w.next_ids w'.next_ids id × (w'.tables ≡ w.tables))
        (Later w)
unfolding next_board_id
next_board_id-Fresh w =
    Post-nextval (λ n. n.board) _ w
      (record {
        users_later = omega arith;
        boards_later = omega arith;
        statuses_later = omega arith;
        tasks_later = omega arith;
        sessions_later = omega arith;
      })
      refl

owns-append :
    (user : ℕ) (boards : List Board) (row : Board)
    → row.user_id ≡ user
    → owns user row.id (boards ++ row ∷ []) ≡ true
unfolding owns any_row
owns-append user [] row h = ground (arith, h)
owns-append user (b ∷ boards) row h = ground (arith, owns-append user boards row h)

module _ (lib : Libraries) (board : Board) (w : World) (valid : board_error board ≡ none) where
  insert_board_row-Step :
      Post
        (insert_board_row lib board)
        w
        (λ row w'.
          Step board.user_id w w'
          × (owns board.user_id row.id w'.tables.boards ≡ true)
          × (board_error row ≡ none))
        (Later w)
  unfolding insert_board_row board_error
  insert_board_row-Step =
      Post-bind (next_board_id-Fresh w) (λ _ l. l)
        λ id w1 (fresh, kept). Post-then (
          Post-get_world (
            Post-then (
              Post-fail_if _ _
                (λ accepted. Post-then (
                  Post-put_tables _ (
                    Post-pure _ (
                      board_added
                          (record board { id = id; created_at = w1.now; updated_at = w1.now }) fresh
                          refl valid
                          (ap
                            (add_board
                              (record board { id = id; created_at = w1.now; updated_at = w1.now }))
                            kept),
                      owns-append board.user_id w1.tables.boards _ refl,
                      valid,
                    ))))
                fresh.later)))

module _ (lib : Libraries) (board : Board) (valid : board_error board ≡ none) where
  abbrev Wrote : World → Board → World → Type 0
  Wrote w row w' = Steps board.user_id w w' × (board_error row ≡ none)

  insert_with_statuses-Steps :
      (w : World) → Post (insert_with_statuses lib board) w (Wrote w) (Later w)
  unfolding insert_with_statuses
  insert_with_statuses-Steps w =
      Post-bind (insert_board_row-Step lib board w valid) (λ _ l. l)
        λ row w1 (added, owned, row_valid).
          let status = λ (name : Text) (position : ℕ) (w : World).
            insert_status_row-Step lib board.user_id row.id name position w in
          let l1 = Step-Later added in
          Post-bind (status (codes "To do") 0 w1 owned refl) (λ _. Later-trans l1)
            λ s w2 (first, same, _).
              let l2 = Later-trans l1 (Step-Later first) in
              let owned2 =
                subst (λ boards. owns board.user_id row.id boards ≡ true) (sym same) owned in
              Post-bind (status (codes "In progress") 1 w2 owned2 refl) (λ _. Later-trans l2)
                λ s w3 (second, same, _).
                  let l3 = Later-trans l2 (Step-Later second) in
                  let owned3 =
                    subst (λ boards. owns board.user_id row.id boards ≡ true) (sym same) owned2 in
                  Post-bind (status (codes "Done") 2 w3 owned3 refl) (λ _. Later-trans l3)
                    λ s w4 (third, same, _).
                      Post-pure _
                        (step added (step first (step second (step third done))), row_valid)

  pub insert-Steps : (w : World) → Post (insert lib board) w (λ _. Steps board.user_id w) (Idle w)
  unfolding insert
  insert-Steps w =
      Post-bind {Q' = Wrote w}
        (Post-transaction lib λ w1 same.
          Post_mono (insert_with_statuses-Steps w1)
            (λ row w2 (steps, row_valid). (step (idle (Idle-of_same same)) steps, row_valid))
            (λ w2. Later-trans (Later-of_same same)))
        (λ _ i. i)
        (λ row w1 (steps, row_valid). Post-construct_valid board_error row row_valid steps)

module _ (lib : Libraries) (board old : Board) (w : World) (valid : board_error board ≡ none)
    (found : find_row (board_has_id board.id) w.tables.boards ≡ some old)
    (owner : old.user_id ≡ board.user_id) where
  update_board_rows-Step :
      Post
        (update_board_rows lib board)
        w
        (λ there w'. Step board.user_id w w' × (there ≡ true))
        (Later w)
  unfolding update_board_rows board_error board_exists
  update_board_rows-Step = Post-then (
      Post-get_world (
        Post-then (
          Post-fail_if _ _
            (λ accepted. Post-then (
              Post-put_tables _ (
                Post-pure _ (
                  board_edited old (record board { updated_at = w.now }) (Later-refl w.next_ids)
                      found owner refl valid refl,
                  any_row-of_find (board_has_id board.id) w.tables.boards old found,
                ))))
            (Later-refl w.next_ids))))

module _ (lib : Libraries) (board old : Board) (valid : board_error board ≡ none)
    (owner : old.user_id ≡ board.user_id) where
  pub update-Steps :
      (w : World)
      → find_row (board_has_id board.id) w.tables.boards ≡ some old
      → Post (update lib board) w (λ _. Steps board.user_id w) (Idle w)
  unfolding update board_error
  update-Steps w found =
      Post-bind {Q' = λ there w'. Steps board.user_id w w' × (there ≡ true)}
        (Post-transaction lib λ w1 same.
          Post_mono
            (update_board_rows-Step lib board old w1 valid
              (subst (λ t. find_row (board_has_id board.id) t.boards ≡ some old)
                (sym same.tables_same) found)
              owner)
            (λ there w2 (edited, there_is).
              (step (idle (Idle-of_same same)) (step edited done), there_is))
            (λ w2. Later-trans (Later-of_same same)))
        (λ _ i. i)
        (λ there w1 (steps, there_is). Post-then (
          Post-passes (not there) _ (ap not there_is) (
            Post-then (
              Post-get_world (
                Post-construct_valid board_error (record board { updated_at = w1.now }) valid
                  steps)))))

module _ (lib : Libraries) where
  -- A new board has the id 0; another that is saved is a board of the user already.
  pub save_new-Steps :
      (board : Board) (w : World)
      → board.id ≡ 0
      → board_error board ≡ none
      → Post (save lib board) w (λ _. Steps board.user_id w) (Idle w)
  unfolding save
  save_new-Steps board w new valid = Post-rewrapping lib _ (
      Post-if (board.id == 0) _ _ w (λ _. insert-Steps lib board valid w)
        (λ known. absurd (ground (arith, new, known))))

  pub save_known-Steps :
      (board old : Board) (w : World)
      → board_error board ≡ none
      → find_row (board_has_id board.id) w.tables.boards ≡ some old
      → old.user_id ≡ board.user_id
      → Post (save lib board) w (λ _. Steps board.user_id w) (Idle w)
  unfolding save
  save_known-Steps board old w valid found owner = Post-rewrapping lib _ (
      Post-if (board.id == 0) _ _ w (λ _. insert-Steps lib board valid w)
        (λ known. update-Steps lib board old valid owner w found))

  pub delete_by_id-Steps :
      (user id : ℕ) (old : Board) (w : World)
      → find_row (board_has_id id) w.tables.boards ≡ some old
      → old.user_id ≡ user
      → Post (delete_by_id lib id) w (λ there w'. Steps user w w' × (there ≡ true)) (Idle w)
  unfolding delete_by_id board_exists
  delete_by_id-Steps user id old w found owned = Post-rewrapping lib _ (
      Post-transaction lib λ w1 same.
        let still =
          subst (λ t. find_row (board_has_id id) t.boards ≡ some old) (sym same.tables_same)
            found in
        Post-then (
          Post-get_tables (
            Post-then (
              Post-put_tables _ (
                Post-pure _ (
                  step (idle (Idle-of_same same))
                      (step (board_deleted old id (Later-refl w1.next_ids) still owned refl) done),
                  any_row-of_find (board_has_id id) w1.tables.boards old still,
                ))))))
