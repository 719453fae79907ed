-- ===== src/Server/Steps/StatusHandlers.antt =====
-- The handlers of statuses keep to the specification.
use hse_project_2026_chronos.Base.{ℕ, ◌≡◌, refl, sym, ap, ◌∙◌, subst, true, not, some, arith}
use hse_project_2026_chronos.Local.Table.{find_row}
use hse_project_2026_chronos.Server.Rows.{Status, status_error}
use hse_project_2026_chronos.Server.Tables.{status_has_id}
use hse_project_2026_chronos.Server.Http.{Request, Libraries, ok_response, no_content}
use hse_project_2026_chronos.Server.Action.{World}
use hse_project_2026_chronos.Server.Action.Worlds.{
  Same, Idle, Same-refl, Same-trans, Idle-of_same, Idle-trans,
}
use hse_project_2026_chronos.Server.Action.Runs.{
  Post, Post-bind, Post-then, Post-pure, Post-passes, Post-check, Post-field, Post-found,
  Post-object,
}
use hse_project_2026_chronos.Server.Repositories.Statuses.{owns}
use hse_project_2026_chronos.Server.Steps.{idle, step}
use hse_project_2026_chronos.Server.Steps.Owned.{Done, owned_board-Reads, owns-of_found}
use hse_project_2026_chronos.Server.Steps.Reads.{find_status-Reads, find_named_status-Reads}
use hse_project_2026_chronos.Server.Steps.Statuses.{
  save_new-Steps, save_known-Steps, delete_by_id-Steps,
}
use hse_project_2026_chronos.Server.Handlers.Statuses.{owned_status, create, edit, delete}

-- A status that was found on a board of the user.
abbrev Found : ℕ → ℕ → World → Status → World → Type 0
Found user status_id w s w' =
    Same w w'
    × (find_row (status_has_id status_id) w'.tables.statuses ≡ some s)
    × (owns user s.board_id w'.tables.boards ≡ true)

owned_status-Reads :
    (lib : Libraries) (user status_id : ℕ) (w : World)
    → Post (owned_status lib user status_id) w (Found user status_id w) (Same w)
unfolding owned_status
owned_status-Reads lib user status_id w =
    Post-bind (find_status-Reads lib w status_id) (λ _ s. s)
      λ o w1 (same, e). Post-found same _ _ λ status there.
        Post-bind (owned_board-Reads lib _ _ user status.board_id w1) (λ _. Same-trans same)
          λ b w2 (same2, board_found, mine).
            let all = Same-trans same same2 in
            Post-pure _ (
              all,
              subst (λ t. find_row (status_has_id status_id) t.statuses ≡ some status)
                  (sym all.tables_same) (sym e ∙ there),
              subst (λ t. owns user status.board_id t.boards ≡ true) (sym same2.tables_same)
                  (owns-of_found user status.board_id w1.tables.boards b board_found mine),
            )

module _ (lib : Libraries) (req : Request) (user : ℕ) (w : World) where
  pub create-Done : Post (create lib req user) w (Done user w) (Idle w)
  unfolding create ok_response
  create-Done =
      let unchanged = Idle-of_same (Same-refl w) in
      Post-check unchanged _ _ _ λ _. Post-field unchanged λ body _. Post-field unchanged λ _ _.
        Post-field unchanged λ board_id _. Post-field unchanged λ name _.
          Post-field unchanged λ position _. Post-check unchanged _ _ _ λ _.
            Post-bind (owned_board-Reads lib _ _ user board_id w) (λ _. Idle-of_same)
              λ board w1 (same, found, mine).
                Post-bind (find_named_status-Reads lib w1 board_id name)
                  (λ _ s. Idle-of_same (Same-trans same s))
                  λ existing w2 (same2, _).
                    let all = Same-trans same same2 in
                    let unchanged = Idle-of_same all in
                    Post-check unchanged _ _ _ λ _. Post-object unchanged status_error _ _ λ valid.
                      Post-bind
                        (save_new-Steps lib _ valid user w2 refl (
                          subst (λ t. owns user board_id t.boards ≡ true) (sym all.tables_same)
                            (owns-of_found user board_id w.tables.boards board found mine)))
                        (λ _. Idle-trans unchanged)
                        λ created w3 steps. Post-pure _ (step (idle unchanged) steps, omega arith)

  pub edit-Done : Post (edit lib req user) w (Done user w) (Idle w)
  unfolding edit ok_response
  edit-Done =
      let unchanged = Idle-of_same (Same-refl w) in
      Post-check unchanged _ _ _ λ _. Post-field unchanged λ body _. Post-field unchanged λ _ _.
        Post-field unchanged λ status_id _. Post-field unchanged λ name _.
          Post-field unchanged λ position _. Post-check unchanged _ _ _ λ _.
            Post-bind (owned_status-Reads lib user status_id w) (λ _. Idle-of_same)
              λ old w1 (same, found, owned).
                Post-bind (find_named_status-Reads lib w1 old.board_id name)
                  (λ _ s. Idle-of_same (Same-trans same s))
                  λ existing w2 (same2, _).
                    let unchanged = Idle-of_same (Same-trans same same2) in
                    Post-check unchanged _ _ _ λ _. Post-object unchanged status_error _ _ λ valid.
                      Post-bind
                        (save_known-Steps lib _ valid user old w2
                          (subst (λ t. find_row (status_has_id status_id) t.statuses ≡ some old)
                            (sym same2.tables_same) found)
                          (subst (λ t. owns user old.board_id t.boards ≡ true)
                            (sym same2.tables_same) owned)
                          refl)
                        (λ _. Idle-trans unchanged)
                        λ updated w3 steps. Post-pure _ (step (idle unchanged) steps, omega arith)

  pub delete-Done : Post (delete lib req user) w (Done user w) (Idle w)
  unfolding delete no_content
  delete-Done =
      let unchanged = Idle-of_same (Same-refl w) in
      Post-check unchanged _ _ _ λ _. Post-field unchanged λ body _.
        Post-field unchanged λ status_id _.
          Post-bind (owned_status-Reads lib user status_id w) (λ _. Idle-of_same)
            λ old w1 (same, found, owned).
              Post-bind (delete_by_id-Steps lib user status_id old w1 found owned)
                (λ _. Idle-trans (Idle-of_same same))
                λ deleted w2 (steps, there_was). Post-then (
                  Post-passes (not deleted) _ (ap not there_was)
                    (Post-pure _ (step (idle (Idle-of_same same)) steps, omega arith)))
