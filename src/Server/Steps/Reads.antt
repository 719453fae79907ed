-- ===== src/Server/Steps/Reads.antt =====
-- The repositories' queries leave everything as it is and give what the tables hold.
use Prim.Native.String.{String}
use hse_project_2026_chronos.Base.{ℕ, ◌≡◌, refl, ap, ◌∙◌, Bool, Option, none, some, List, [], ◌∷◌}
use hse_project_2026_chronos.Local.Table.{find_row, select_where}
use hse_project_2026_chronos.Server.Rows.{Text, board_error, status_error, task_error}
use hse_project_2026_chronos.Server.Tables.{
  Tables, board_has_id, status_has_id, task_has_id, has_board_and_name,
}
use hse_project_2026_chronos.Server.Http.{Libraries}
use hse_project_2026_chronos.Server.Action.{
  World, M, Result, Failure, ok, failed, pure, lift, found_or, fail_if, acquire, roll_back,
  transaction, rewrapping, get_tables, ◌>>=◌, ◌>>◌,
}
use hse_project_2026_chronos.Server.Action.Worlds.{Same, Same-refl, Same-trans}
use hse_project_2026_chronos.Server.Action.Runs.{
  Ends, Post, Post-bind, Post-then, Post_mono, Post-pure, Post-lift, Post-found_or, Post-fail_if,
  Post-construct, Post-get_tables, Post-acquire, Post-rewrapping,
}
use hse_project_2026_chronos.Server.Repositories.{construct_found, construct_all, order_by}
use hse_project_2026_chronos.Server.Repositories.Boards
use hse_project_2026_chronos.Server.Repositories.Statuses
use hse_project_2026_chronos.Server.Repositories.Tasks

abbrev pub Read : {A : Type 0} → World → A → A → World → Type 0
Read w expected a w' = Same w w' × (a ≡ expected)

Ends-roll_back :
    (w : World) (end : Result Tables × World)
    → Ends (Read w w.tables) (Same w) end
    → Ends (Read w w.tables) (Same w) (roll_back w.tables end)
Ends-roll_back w (ok a, w') h = h
Ends-roll_back w (failed f, w') h = record {
  tables_same = refl;
  ids_same = h.ids_same;
  now_same = h.now_same;
}

transaction-Reads :
    (lib : Libraries) (w : World) → Post (transaction lib get_tables) w (Read w w.tables) (Same w)
unfolding transaction
transaction-Reads lib w = record {
  ends =
      Ends-roll_back w ((acquire lib >> get_tables) w)
        (Post-bind (Post-acquire lib w) (λ _ s. s)
          (λ _ w' s. Post-get_tables (s, s.tables_same))).ends;
}

module _ {A : Type 0} (error : A → Option Text) (w : World) where
  construct_found-Reads : (o : Option A) → Post (construct_found error o) w (Read w o) (Same w)
  unfolding construct_found
  construct_found-Reads none = Post-pure _ (Same-refl w, refl)
  construct_found-Reads (some a) =
      Post-then (Post-construct error a (λ _. Post-pure _ (Same-refl w, refl)) (Same-refl w))

  construct_all-Reads : (xs : List A) → Post (construct_all error xs) w (Read w xs) (Same w)
  unfolding construct_all
  construct_all-Reads [] = Post-pure _ (Same-refl w, refl)
  construct_all-Reads (a ∷ rest) = Post-then (
      Post-construct error a
        (λ _.
          Post-bind (construct_all-Reads rest) (λ _ s. s)
            λ others w' (s, same). Post-pure _ (s, ap (λ os. a ∷ os) same))
        (Same-refl w))

module _ {A : Type 0} (lib : Libraries) (prefix : String) (error : A → Option Text)
    (w : World) where
  query_one-Reads :
      (f : Tables → Option A)
      → Post
          (rewrapping lib prefix (transaction lib get_tables >>= λ t. construct_found error (f t)))
          w
          (Read w (f w.tables))
          (Same w)
  query_one-Reads f = Post-rewrapping lib prefix (
      Post-bind (transaction-Reads lib w) (λ _ s. s)
        λ t w1 (same, all).
          Post_mono (construct_found-Reads error w1 (f t))
            (λ o w2 (s, e). (Same-trans same s, e ∙ ap f all)) (λ w2. Same-trans same))

  query_all-Reads :
      (f : Tables → List A)
      → Post
          (rewrapping lib prefix (transaction lib get_tables >>= λ t. construct_all error (f t)))
          w
          (Read w (f w.tables))
          (Same w)
  query_all-Reads f = Post-rewrapping lib prefix (
      Post-bind (transaction-Reads lib w) (λ _ s. s)
        λ t w1 (same, all).
          Post_mono (construct_all-Reads error w1 (f t))
            (λ o w2 (s, e). (Same-trans same s, e ∙ ap f all)) (λ w2. Same-trans same))

module _ (lib : Libraries) (w : World) where
  pub find_board-Reads :
      (id : ℕ)
      → Post
          (Boards.find_by_id lib id)
          w
          (Read w (find_row (board_has_id id) w.tables.boards))
          (Same w)
  unfolding Boards.find_by_id
  find_board-Reads id =
      query_one-Reads lib _ board_error w (λ t. find_row (board_has_id id) t.boards)

  pub find_boards-Reads :
      (user_id : ℕ)
      → Post
          (Boards.find_all_by_user_id lib user_id)
          w
          (Read w (
            order_by Boards.board_before
              (select_where (Boards.board_of_user user_id) w.tables.boards)))
          (Same w)
  unfolding Boards.find_all_by_user_id
  find_boards-Reads user_id =
      query_all-Reads lib _ board_error w
        (λ t. order_by Boards.board_before (select_where (Boards.board_of_user user_id) t.boards))

  pub find_status-Reads :
      (id : ℕ)
      → Post
          (Statuses.find_by_id lib id)
          w
          (Read w (find_row (status_has_id id) w.tables.statuses))
          (Same w)
  unfolding Statuses.find_by_id
  find_status-Reads id =
      query_one-Reads lib _ status_error w (λ t. find_row (status_has_id id) t.statuses)

  pub find_named_status-Reads :
      (board_id : ℕ) (name : Text)
      → Post
          (Statuses.find_by_board_and_name lib board_id name)
          w
          (Read w (find_row (has_board_and_name board_id name) w.tables.statuses))
          (Same w)
  unfolding Statuses.find_by_board_and_name
  find_named_status-Reads board_id name =
      query_one-Reads lib _ status_error w
        (λ t. find_row (has_board_and_name board_id name) t.statuses)

  pub find_task-Reads :
      (id : ℕ)
      → Post
          (Tasks.find_by_id lib id)
          w
          (Read w (find_row (task_has_id id) w.tables.tasks))
          (Same w)
  unfolding Tasks.find_by_id
  find_task-Reads id = query_one-Reads lib _ task_error w (λ t. find_row (task_has_id id) t.tasks)

-- An action that leaves everything but the connections as it is.
pub record Reads {A : Type 0} (m : M A) : Type 0 where
  pub at : (w : World) → Post m w (λ _. Same w) (Same w)

module _ {A : Type 0} where
  Reads-of_post :
      (m : M A) (result : World → A)
      → ((w : World) → Post m w (Read w (result w)) (Same w))
      → Reads m
  Reads-of_post m result p = record { at = λ w. Post_mono (p w) (λ a w' r. r.0) (λ w' s. s) }

  pub Reads-pure : (a : A) → Reads (pure a)
  Reads-pure a = record { at = λ w. Post-pure a (Same-refl w) }

  pub Reads-lift : (r : Result A) → Reads (lift r)
  Reads-lift r = record { at = λ w. Post-lift r (λ _ _. Same-refl w) (Same-refl w) }

  pub Reads-found_or : (o : Option A) (f : Failure) → Reads (found_or o f)
  Reads-found_or o f = record { at = λ w. Post-found_or o f (λ _ _. Same-refl w) (Same-refl w) }

pub Reads-fail_if : (b : Bool) (f : Failure) → Reads (fail_if b f)
Reads-fail_if b f = record { at = λ w. Post-fail_if b f (λ _. Same-refl w) (Same-refl w) }

pub Reads-bind :
    {A B : Type 0} (m : M A) (k : A → M B) → Reads m → ((a : A) → Reads (k a)) → Reads (m >>= k)
Reads-bind m k r next = record {
  at = λ w.
      Post-bind (r.at w) (λ _ s. s)
        (λ a w' s.
          Post_mono ((next a).at w') (λ b w'' s'. Same-trans s s') (λ w'' s'. Same-trans s s'));
}

module _ (lib : Libraries) where
  pub Reads-find_board : (id : ℕ) → Reads (Boards.find_by_id lib id)
  Reads-find_board id = Reads-of_post _ _ (λ w. find_board-Reads lib w id)

  pub Reads-find_boards : (user_id : ℕ) → Reads (Boards.find_all_by_user_id lib user_id)
  Reads-find_boards user_id = Reads-of_post _ _ (λ w. find_boards-Reads lib w user_id)

  pub Reads-find_status : (id : ℕ) → Reads (Statuses.find_by_id lib id)
  Reads-find_status id = Reads-of_post _ _ (λ w. find_status-Reads lib w id)

  pub Reads-find_statuses : (id : ℕ) → Reads (Statuses.find_by_board_id lib id)
  unfolding Statuses.find_by_board_id
  Reads-find_statuses id = Reads-of_post _ _ (λ w. query_all-Reads lib _ status_error w _)

  pub Reads-find_user_statuses : (id : ℕ) → Reads (Statuses.find_by_user_id lib id)
  unfolding Statuses.find_by_user_id
  Reads-find_user_statuses id = Reads-of_post _ _ (λ w. query_all-Reads lib _ status_error w _)

  pub Reads-find_tasks : (id : ℕ) → Reads (Tasks.find_by_board_id lib id)
  unfolding Tasks.find_by_board_id
  Reads-find_tasks id = Reads-of_post _ _ (λ w. query_all-Reads lib _ task_error w _)

  pub Reads-find_user_tasks : (id : ℕ) → Reads (Tasks.find_by_user_id lib id)
  unfolding Tasks.find_by_user_id
  Reads-find_user_tasks id = Reads-of_post _ _ (λ w. query_all-Reads lib _ task_error w _)

  pub Reads-find_status_tasks :
      (id status_id : ℕ) → Reads (Tasks.find_by_board_and_status_id lib id status_id)
  unfolding Tasks.find_by_board_and_status_id
  Reads-find_status_tasks id status_id =
      Reads-of_post _ _ (λ w. query_all-Reads lib _ task_error w _)

pub ruleset reads_rules = (
  Reads-bind, Reads-pure, Reads-lift, Reads-found_or, Reads-fail_if, Reads-find_board,
  Reads-find_boards, Reads-find_status, Reads-find_statuses, Reads-find_user_statuses,
  Reads-find_tasks, Reads-find_user_tasks, Reads-find_status_tasks,
)
