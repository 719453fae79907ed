-- ===== src/Server/Steps/QueryHandlers.antt =====
-- The handlers that read change nothing.
use hse_project_2026_chronos.Base.{ℕ, ◌<◌, Option, none, some, List, [], ◌∷◌, arith}
use hse_project_2026_chronos.Json.{Json}
use hse_project_2026_chronos.Server.Rows.{Text, Task}
use hse_project_2026_chronos.Server.Http.{Request, Response, Libraries, ok_response}
use hse_project_2026_chronos.Server.Action.{World, M, pure, ◌>>=◌}
use hse_project_2026_chronos.Server.Action.Worlds.{Same, Same-refl, Same-trans, Idle, Idle-of_same}
use hse_project_2026_chronos.Server.Action.Runs.{Post, Post-bind, Post_mono, Post-pure}
use hse_project_2026_chronos.Server.Steps.{idle, done, step}
use hse_project_2026_chronos.Server.Steps.Owned.{Done}
use hse_project_2026_chronos.Server.Steps.Reads.{Reads, Reads-pure, Reads-bind, reads_rules}
use hse_project_2026_chronos.Server.Handlers.Owned.{owned_board}
use hse_project_2026_chronos.Server.Handlers.Queries.{
  get_board, get_all_boards, get_board_tasks, get_all_statuses, get_all_tasks, name_of_found,
  tasks_json, query, statuses_of, tasks_of, tasks_on_board,
}

module _ (lib : Libraries) where
  owned_board-Reads :
      (code message : Prim.Native.String.String) (user id : ℕ)
      → Reads (owned_board lib code message user id)
  unfolding owned_board
  owned_board-Reads code message user id = search reads_rules

  statuses_of-Reads : (user : ℕ) (o : Option ℕ) → Reads (statuses_of lib user o)
  unfolding statuses_of
  statuses_of-Reads user none = search reads_rules
  statuses_of-Reads user (some id) = search (reads_rules, owned_board-Reads)

  tasks_on_board-Reads : (id : ℕ) (o : Option ℕ) → Reads (tasks_on_board lib id o)
  unfolding tasks_on_board
  tasks_on_board-Reads id none = search reads_rules
  tasks_on_board-Reads id (some status_id) = search reads_rules

  tasks_of-Reads : (user : ℕ) (o p : Option ℕ) → Reads (tasks_of lib user o p)
  unfolding tasks_of
  tasks_of-Reads user none p = search reads_rules
  tasks_of-Reads user (some id) p = search (reads_rules, owned_board-Reads, tasks_on_board-Reads)

  query-Reads : (o : Option (List (Text × Text))) → Reads (query lib o)
  unfolding query
  query-Reads none = search reads_rules
  query-Reads (some params) = search reads_rules

  name_of_found-Reads :
      (board_id : ℕ) (cache : List (ℕ × Text)) (id : ℕ) (o : Option Text)
      → Reads (name_of_found lib board_id cache id o)
  unfolding name_of_found
  name_of_found-Reads board_id cache id none = search reads_rules
  name_of_found-Reads board_id cache id (some name) = search reads_rules

  tasks_json-Reads :
      (board_id : ℕ) (cache : List (ℕ × Text)) (tasks : List Task)
      → Reads (tasks_json lib board_id cache tasks)
  unfolding tasks_json
  tasks_json-Reads board_id cache [] = search reads_rules
  tasks_json-Reads board_id cache (task ∷ tasks) =
      Reads-bind _ _ (name_of_found-Reads board_id cache task.status_id _)
        λ named. Reads-bind _ _ (tasks_json-Reads board_id named.1 tasks) λ rest. Reads-pure _

-- A handler that only reads, with a success at its end.
record Answers (m : M Response) : Type 0 where
  at : (w : World) → Post m w (λ response w'. Same w w' × (response.status < 400)) (Same w)

Answers-ok : (value : Json) → Answers (pure (ok_response value))
unfolding ok_response
Answers-ok value = record { at = λ w. Post-pure _ (Same-refl w, omega arith) }

Answers-bind :
    {A : Type 0} (m : M A) (k : A → M Response)
    → Reads m
    → ((a : A) → Answers (k a))
    → Answers (m >>= k)
Answers-bind m k r next = record {
  at = λ w.
      Post-bind (r.at w) (λ _ s. s)
        (λ a w' s.
          Post_mono ((next a).at w') (λ b w'' (s', good). (Same-trans s s', good))
            (λ w'' s'. Same-trans s s'));
}

Done-of_Answers :
    (m : M Response) (user : ℕ) (w : World) → Answers m → Post m w (Done user w) (Idle w)
Done-of_Answers m user w answers =
    Post_mono (answers.at w) (λ r w' (s, good). (step (idle (Idle-of_same s)) done, good))
      (λ w'. Idle-of_same)

ruleset answers_rules = (
  Answers-ok, Answers-bind, reads_rules, owned_board-Reads, statuses_of-Reads, tasks_of-Reads,
  query-Reads, tasks_json-Reads,
)

module _ (lib : Libraries) (req : Request) (user : ℕ) (w : World) where
  pub get_board-Done : Post (get_board lib req user) w (Done user w) (Idle w)
  unfolding get_board
  get_board-Done = Done-of_Answers _ user w (search answers_rules depth 8)

  pub get_all_boards-Done : Post (get_all_boards lib req user) w (Done user w) (Idle w)
  unfolding get_all_boards
  get_all_boards-Done = Done-of_Answers _ user w (search answers_rules depth 8)

  pub get_board_tasks-Done : Post (get_board_tasks lib req user) w (Done user w) (Idle w)
  unfolding get_board_tasks
  get_board_tasks-Done = Done-of_Answers _ user w (search answers_rules depth 8)

  pub get_all_statuses-Done : Post (get_all_statuses lib req user) w (Done user w) (Idle w)
  unfolding get_all_statuses
  get_all_statuses-Done = Done-of_Answers _ user w (search answers_rules depth 8)

  pub get_all_tasks-Done : Post (get_all_tasks lib req user) w (Done user w) (Idle w)
  unfolding get_all_tasks
  get_all_tasks-Done = Done-of_Answers _ user w (search answers_rules depth 8)
