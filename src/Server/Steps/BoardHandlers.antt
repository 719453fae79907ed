-- ===== src/Server/Steps/BoardHandlers.antt =====
-- The handlers of boards keep to the specification.
use hse_project_2026_chronos.Base.{ℕ, refl, ap, subst, not, arith}
use hse_project_2026_chronos.Server.Rows.{board_error}
use hse_project_2026_chronos.Server.Http.{Request, Libraries, ok_response, no_content}
use hse_project_2026_chronos.Server.Action.{World}
use hse_project_2026_chronos.Server.Action.Worlds.{Idle, Same-refl, Idle-of_same, Idle-trans}
use hse_project_2026_chronos.Server.Action.Runs.{
  Post, Post-bind, Post-then, Post-pure, Post-passes, Post-check, Post-field, Post-object,
}
use hse_project_2026_chronos.Server.Steps.{Steps, idle, step}
use hse_project_2026_chronos.Server.Steps.Owned.{Done, owned_board-Reads, still, still_own}
use hse_project_2026_chronos.Server.Steps.Boards.{
  save_new-Steps, save_known-Steps, delete_by_id-Steps,
}
use hse_project_2026_chronos.Server.Handlers.Boards.{create, edit, delete}

module _ (lib : Libraries) (req : Request) (user : ℕ) (w : World) where
  pub create-Done : Post (create lib req user) w (Done user w) (Idle w)
  unfolding create ok_response
  create-Done =
      let unchanged = Idle-of_same (Same-refl w) in
      Post-check unchanged _ _ _ λ _. Post-field unchanged λ body _. Post-field unchanged λ _ _.
        Post-field unchanged λ title _. Post-field unchanged λ description _.
          Post-check unchanged _ _ _ λ _. Post-check unchanged _ _ _ λ _.
            Post-object unchanged board_error _ _ λ valid.
              Post-bind (save_new-Steps lib _ w refl valid) (λ _ i. i)
                λ created w' steps. Post-pure _ (steps, omega arith)

  pub edit-Done : Post (edit lib req user) w (Done user w) (Idle w)
  unfolding edit ok_response
  edit-Done =
      let unchanged = Idle-of_same (Same-refl w) in
      Post-check unchanged _ _ _ λ _. Post-field unchanged λ body _. Post-field unchanged λ _ _.
        Post-field unchanged λ board_id _.
          Post-bind (owned_board-Reads lib _ _ user board_id w) (λ _. Idle-of_same)
            λ board w1 (same, found, mine).
              let unchanged = Idle-of_same same in
              Post-field unchanged λ title _. Post-check unchanged _ _ _ λ _.
                Post-field unchanged λ description _. Post-check unchanged _ _ _ λ _.
                  Post-object unchanged board_error _ _ λ valid.
                    Post-bind
                      (save_known-Steps lib _ board w1 valid (still_own board_id same found) refl)
                      (λ _. Idle-trans (Idle-of_same same))
                      λ updated w2 steps. Post-pure _ (
                        step (idle (Idle-of_same same)) (subst (λ u. Steps u w1 w2) mine steps),
                        omega arith,
                      )

  pub delete-Done : Post (delete lib req user) w (Done user w) (Idle w)
  unfolding delete no_content
  delete-Done =
      let unchanged = Idle-of_same (Same-refl w) in
      Post-check unchanged _ _ _ λ _. Post-field unchanged λ body _.
        Post-field unchanged λ board_id _.
          Post-bind (owned_board-Reads lib _ _ user board_id w) (λ _. Idle-of_same)
            λ board w1 (same, found, mine).
              Post-bind
                (delete_by_id-Steps lib user board_id board w1 (still board_id same found) mine)
                (λ _. Idle-trans (Idle-of_same same))
                λ deleted w2 (steps, there_was). Post-then (
                  Post-passes (not deleted) _ (ap not there_was)
                    (Post-pure _ (step (idle (Idle-of_same same)) steps, omega arith)))
