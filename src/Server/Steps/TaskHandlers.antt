-- ===== src/Server/Steps/TaskHandlers.antt =====
-- The handlers of tasks keep to the specification.
use Prim.Native.String.{String}
use hse_project_2026_chronos.Base.{
  ℕ, ◌≡◌, refl, sym, ap, ◌∙◌, subst, true, not, Option, none, some, ==_iff, arith, codes, inl, inr,
  Bool-cases, List, ◌∷◌,
}
use hse_project_2026_chronos.Base.Int.{pos_part}
use hse_project_2026_chronos.Json.{Json, Members, member, end, get}
use hse_project_2026_chronos.Local.Table.{find_row, find_row-holds}
use hse_project_2026_chronos.Server.Rows.{Text, Task, task_error}
use hse_project_2026_chronos.Server.Tables.{status_has_id, task_has_id}
use hse_project_2026_chronos.Server.Http.{
  Request, Libraries, contains, is_found, ok_response, no_content,
}
use hse_project_2026_chronos.Server.Action.{World, ok}
use hse_project_2026_chronos.Server.Action.Worlds.{
  Same, Idle, Same-refl, Same-trans, Idle-of_same, Idle-trans,
}
use hse_project_2026_chronos.Server.Action.Runs.{
  Post, Post-bind, Post-then, Post-pure, Post-passes, Post-check, Post-field, Post-found,
  Post-object,
}
use hse_project_2026_chronos.Server.Repositories.Statuses.{owns}
use hse_project_2026_chronos.Server.Steps.{idle, step, status_on_board}
use hse_project_2026_chronos.Server.Steps.Owned.{
  Done, owned_board-Reads, owns-of_found, status_on_board-of_found,
}
use hse_project_2026_chronos.Server.Steps.Reads.{find_status-Reads, find_task-Reads}
use hse_project_2026_chronos.Server.Steps.Tasks.{
  save_new-Steps, save_known-Steps, delete_by_id-Steps,
}
use hse_project_2026_chronos.Server.Handlers.{collect_missing_fields, fields_present}
use hse_project_2026_chronos.Server.Handlers.Tasks.{
  owned_task, edited_title, edited_description, edited_status, edited_color, edit_keys, create,
  edit, delete,
}

-- A task that was found on a board of the user.
abbrev Found : ℕ → ℕ → World → Task → World → Type 0
Found user task_id w k w' =
    Same w w'
    × (find_row (task_has_id task_id) w'.tables.tasks ≡ some k)
    × (owns user k.board_id w'.tables.boards ≡ true)

module _ (lib : Libraries) where
  owned_task-Reads :
      (code message : String) (user task_id : ℕ) (w : World)
      → Post (owned_task lib code message user task_id) w (Found user task_id w) (Same w)
  unfolding owned_task
  owned_task-Reads code message user task_id w =
      Post-bind (find_task-Reads lib w task_id) (λ _ s. s)
        λ o w1 (same, e). Post-found same _ _ λ task there.
          Post-bind (owned_board-Reads lib _ _ user task.board_id w1) (λ _. Same-trans same)
            λ b w2 (same2, board_found, mine).
              let all = Same-trans same same2 in
              Post-pure _ (
                all,
                subst (λ t. find_row (task_has_id task_id) t.tasks ≡ some task)
                    (sym all.tables_same) (sym e ∙ there),
                subst (λ t. owns user task.board_id t.boards ≡ true) (sym same2.tables_same)
                    (owns-of_found user task.board_id w1.tables.boards b board_found mine),
              )

  edited_title-Reads :
      (existing : Text) (o : Option Json) (w : World)
      → Post (edited_title lib existing o) w (λ _. Same w) (Same w)
  unfolding edited_title
  edited_title-Reads existing none w = Post-pure _ (Same-refl w)
  edited_title-Reads existing (some v) w =
      Post-field (Same-refl w) λ t _. Post-check (Same-refl w) _ _ _ λ _. Post-pure _ (Same-refl w)

  edited_description-Reads :
      (existing : Text) (o : Option Json) (w : World)
      → Post (edited_description lib existing o) w (λ _. Same w) (Same w)
  unfolding edited_description
  edited_description-Reads existing none w = Post-pure _ (Same-refl w)
  edited_description-Reads existing (some v) w =
      Post-field (Same-refl w) λ t _. Post-check (Same-refl w) _ _ _ λ _. Post-pure _ (Same-refl w)

  edited_color-Reads :
      (existing : Text) (o : Option Json) (w : World)
      → Post (edited_color lib existing o) w (λ _. Same w) (Same w)
  unfolding edited_color
  edited_color-Reads existing none w = Post-pure _ (Same-refl w)
  edited_color-Reads existing (some v) w =
      Post-field (Same-refl w) λ t _. Post-check (Same-refl w) _ _ _ λ _. Post-pure _ (Same-refl w)

  -- The status of an edit is on the board of the task.
  edited_status-Reads :
      (existing : Task) (v : Json) (w : World)
      → Post
          (edited_status lib existing (some v))
          w
          (λ id w'. Same w w' × (status_on_board id existing.board_id w'.tables.statuses ≡ true))
          (Same w)
  unfolding edited_status
  edited_status-Reads existing v w = Post-field (Same-refl w) λ n _.
      Post-check (Same-refl w) _ _ _ λ _.
        Post-bind (find_status-Reads lib w (pos_part n)) (λ _ s. s)
          λ o w1 (same, e). Post-found same _ _ λ status there. Post-check same _ _ _ λ on_board.
            Post-pure _ (
              same,
              status_on_board-of_found (pos_part n) existing.board_id w1.tables.statuses status
                  (subst (λ t. find_row (status_has_id (pos_part n)) t.statuses ≡ some status)
                    (sym same.tables_same) (sym e ∙ there))
                  (ground (arith, on_board)),
            )

-- An edit has all its fields.
fields_present-eq_end : (ms : Members) → fields_present ms ≡ ok tt → ms ≡ end
unfolding fields_present
fields_present-eq_end end h = refl
fields_present-eq_end (member k v rest) h = cc

collect_missing_fields-eq_end :
    (key : String) (keys : List String) (body : Members)
    → collect_missing_fields (key ∷ keys) body ≡ end
    → (contains body key ≡ true) × (collect_missing_fields keys body ≡ end)
unfolding collect_missing_fields
collect_missing_fields-eq_end key keys body h = elim (Bool-cases (contains body key)) [
  | inl there ↦ (there, rw there at h)
  | inr missing ↦ absurd (cc (rw missing at h))
]

is_found-eq_some : (o : Option Json) → is_found o ≡ true → (v : Json) × (o ≡ some v)
is_found-eq_some none h = cc
is_found-eq_some (some v) h = (v, refl)

contains-eq_some :
    (body : Members) (key : String)
    → contains body key ≡ true
    → (v : Json) × (get (codes key) body ≡ some v)
unfolding contains
contains-eq_some body key h = is_found-eq_some (get (codes key) body) h

status_given :
    (body : Members)
    → fields_present (collect_missing_fields edit_keys body) ≡ ok tt
    → (v : Json) × (get (codes "status_id") body ≡ some v)
status_given body h =
    let (_, h1) = collect_missing_fields-eq_end _ _ body (fields_present-eq_end _ h) in
    let (_, h2) = collect_missing_fields-eq_end _ _ body h1 in
    let (_, h3) = collect_missing_fields-eq_end _ _ body h2 in
    contains-eq_some body "status_id" (collect_missing_fields-eq_end _ _ body h3).0

module _ (lib : Libraries) (req : Request) (user : ℕ) (w : World) where
  pub create-Done : Post (create lib req user) w (Done user w) (Idle w)
  unfolding create ok_response
  create-Done =
      let unchanged = Idle-of_same (Same-refl w) in
      Post-check unchanged _ _ _ λ _. Post-field unchanged λ body _.
        Post-field unchanged λ board_id _. Post-field unchanged λ title _.
          Post-field unchanged λ description _. Post-field unchanged λ status_id _.
            Post-field unchanged λ color _. Post-field unchanged λ deadline _.
              Post-check unchanged _ _ _ λ _. Post-check unchanged _ _ _ λ _.
                Post-check unchanged _ _ _ λ _.
                  Post-bind (owned_board-Reads lib _ _ user board_id w) (λ _. Idle-of_same)
                    λ board w1 (same, found, mine).
                      Post-bind (find_status-Reads lib w1 status_id)
                        (λ _ s. Idle-of_same (Same-trans same s))
                        λ o w2 (same2, e).
                          let all = Same-trans same same2 in
                          let unchanged = Idle-of_same all in
                          Post-found unchanged _ _ λ status there.
                            Post-check unchanged _ _ _ λ on_board.
                              Post-object unchanged task_error _ _ λ valid.
                                Post-bind
                                  (save_new-Steps lib _ user valid w2 refl (
                                    subst (λ t. owns user board_id t.boards ≡ true)
                                        (sym all.tables_same)
                                        (owns-of_found user board_id w.tables.boards board found
                                          mine),
                                    status_on_board-of_found status_id board_id w2.tables.statuses
                                        status
                                        (subst
                                          (λ t.
                                            find_row (status_has_id status_id) t.statuses
                                            ≡ some status)
                                          (sym same2.tables_same) (sym e ∙ there))
                                        (ground (arith, on_board)),
                                  ))
                                  (λ _. Idle-trans unchanged)
                                  λ created w3 steps.
                                    Post-pure _ (step (idle unchanged) steps, omega arith)

  pub delete-Done : Post (delete lib req user) w (Done user w) (Idle w)
  unfolding delete no_content
  delete-Done =
      let unchanged = Idle-of_same (Same-refl w) in
      Post-check unchanged _ _ _ λ _. Post-field unchanged λ body _.
        Post-field unchanged λ task_id _.
          Post-bind (owned_task-Reads lib _ _ user task_id w) (λ _. Idle-of_same)
            λ old w1 (same, found, owned).
              Post-bind (delete_by_id-Steps lib user task_id old w1 found owned)
                (λ _. Idle-trans (Idle-of_same same))
                λ deleted w2 (steps, there_was). Post-then (
                  Post-passes (not deleted) _ (ap not there_was)
                    (Post-pure _ (step (idle (Idle-of_same same)) steps, omega arith)))

  pub edit-Done : Post (edit lib req user) w (Done user w) (Idle w)
  unfolding edit ok_response
  edit-Done =
      let unchanged = Idle-of_same (Same-refl w) in
      Post-check unchanged _ _ _ λ _. Post-field unchanged λ body _.
        Post-field unchanged λ _ present. Post-field unchanged λ task_id _.
          Post-bind (owned_task-Reads lib _ _ user task_id w) (λ _. Idle-of_same)
            λ old w1 (s1, found, owned).
              Post-bind (edited_title-Reads lib old.title _ w1)
                (λ _ s. Idle-of_same (Same-trans s1 s))
                λ title w2 r2.
                  let s2 = Same-trans s1 r2 in
                  Post-bind (edited_description-Reads lib old.description _ w2)
                    (λ _ s. Idle-of_same (Same-trans s2 s))
                    λ description w3 r3.
                      let s3 = Same-trans s2 r3 in
                      let (v, given) = status_given body present in
                      Post-bind
                        (subst
                          (λ o.
                            Post (edited_status lib old o) w3
                              (λ id w'.
                                Same w3 w'
                                × (status_on_board id old.board_id w'.tables.statuses ≡ true))
                              (Same w3))
                          (sym given) (edited_status-Reads lib old v w3))
                        (λ _ s. Idle-of_same (Same-trans s3 s))
                        λ status_id w4 (r4, on_board).
                          let s4 = Same-trans s3 r4 in
                          Post-bind (edited_color-Reads lib old.priority_color _ w4)
                            (λ _ s. Idle-of_same (Same-trans s4 s))
                            λ color w5 r5.
                              let unchanged = Idle-of_same (Same-trans s4 r5) in
                              let later = Same-trans r2 (Same-trans r3 (Same-trans r4 r5)) in
                              Post-field unchanged λ is_completed _.
                                Post-field unchanged λ deadline _.
                                  Post-object unchanged task_error _ _ λ valid.
                                    Post-bind
                                      (save_known-Steps lib _ user valid old w5
                                        (subst
                                          (λ i. find_row (task_has_id i) w5.tables.tasks ≡ some old)
                                          (sym (
                                            (==_iff old.id task_id).0 (
                                              find_row-holds (task_has_id task_id) w1.tables.tasks
                                                old found)))
                                          (subst
                                            (λ t. find_row (task_has_id task_id) t.tasks ≡ some old)
                                            (sym later.tables_same) found))
                                        refl
                                        (
                                          subst (λ t. owns user old.board_id t.boards ≡ true)
                                              (sym later.tables_same) owned,
                                          subst
                                              (λ t.
                                                status_on_board status_id old.board_id t.statuses
                                                ≡ true)
                                              (sym r5.tables_same) on_board,
                                        ))
                                      (λ _. Idle-trans unchanged)
                                      λ updated w6 steps.
                                        Post-pure _ (step (idle unchanged) steps, omega arith)
