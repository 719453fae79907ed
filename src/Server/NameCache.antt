-- ===== src/Server/NameCache.antt =====
-- backend/src/server/board/v1/tasks.cpp: the cache of the names of statuses.
use hse_project_2026_chronos.Base.{
  ℕ, ◌≡◌, refl, sym, ap, subst, ◌∙◌, Bool-cases, inl, inr, Option-cases, Option, none, some, List,
  [], ◌∷◌, ◌==◌, ==_iff, arith,
}
use hse_project_2026_chronos.Local.Table.{find_row}
use hse_project_2026_chronos.Json.{Json}
use hse_project_2026_chronos.Server.Rows.{Text, Status, Task, status_error}
use hse_project_2026_chronos.Server.Tables.{status_has_id}
use hse_project_2026_chronos.Server.Http.{Libraries}
use hse_project_2026_chronos.Server.Action.{
  World, M, Result, Failure, invalid_argument, ok, failed, pure, construct, transaction, rewrapping,
  rewrap, get_tables, continue_with, ◌>>=◌,
}
use hse_project_2026_chronos.Server.Repositories.{construct_found}
use hse_project_2026_chronos.Server.Repositories.Statuses
use hse_project_2026_chronos.Server.Handlers.Queries.{
  cached_name, name_on_board, name_of_found, task_with_name, tasks_json,
}
use hse_project_2026_chronos.Server.Listings.{then_ok, transaction-get_tables}

-- The listing without a cache: each status is looked up.
abbrev pub named_tasks : Libraries → ℕ → List Task → M (List Json)
named_tasks lib board_id [] = pure []
named_tasks lib board_id (task ∷ tasks) = do
  status ← Statuses.find_by_id lib task.status_id
  rest ← named_tasks lib board_id tasks
  pure (task_with_name lib task (name_on_board board_id status) ∷ rest)

then_failed :
    {A B : Type 0} (m : M A) (k : A → M B) {w w' : World} {f : Failure}
    → m w ≡ (failed f, w')
    → (m >>= k) w ≡ (failed f, w')
unfolding ◌>>=◌
then_failed m k h = ap (λ r. continue_with r.0 r.1 k) h

-- An action that leaves this world as it is.
abbrev Keeps : {A : Type 0} → M A → World → Type 0
Keeps {A} m w = (r : Result A) × (m w ≡ (r, w))

construct_found-Keeps :
    (found : Option Status) (w : World) → Keeps (construct_found status_error found) w
unfolding construct_found construct pure ◌>>=◌
construct_found-Keeps none w = (ok none, refl)
construct_found-Keeps (some s) w = elim (Option-cases (status_error s)) [
  | inl none_thrown ↦ (ok (some s), rw none_thrown refl)
  | inr (t, thrown) ↦ (failed (invalid_argument t), rw thrown refl)
]

rewrapped-Keeps :
    {A : Type 0} (lib : Libraries) (m : M A) (w : World)
    → Keeps m w
    → Keeps (rewrapping lib "Status::find_by_id failed: " m) w
unfolding rewrapping
rewrapped-Keeps lib m w (ok a, h) = (ok a, ap (rewrap lib "Status::find_by_id failed: ") h)
rewrapped-Keeps lib m w (failed f, h) = (_, ap (rewrap lib "Status::find_by_id failed: ") h)

find_by_id-Keeps :
    (lib : Libraries) (w : World) → w.outages ≡ [] → (id : ℕ) → Keeps (Statuses.find_by_id lib id) w
unfolding Statuses.find_by_id
find_by_id-Keeps lib w up id =
    let (r, found) = construct_found-Keeps (find_row (status_has_id id) w.tables.statuses) w in
    rewrapped-Keeps lib _ w
      (r, then_ok (transaction lib get_tables) _ (transaction-get_tables lib w up) ∙ found)

then_same :
    {A B : Type 0} (m m' : M A) (k : A → M B) (w : World) → m w ≡ m' w → (m >>= k) w ≡ (m' >>= k) w
unfolding ◌>>=◌
then_same m m' k w h = ap (λ r. continue_with r.0 r.1 k) h

module _ (lib : Libraries) (board_id : ℕ) (w : World) (up : w.outages ≡ []) where
  -- The cache has what looking the status up gives.
  abbrev Cached : List (ℕ × Text) → Type 0
  Cached cache =
      (id : ℕ) (name : Text)
      → cached_name id cache ≡ some name
      → (status : Option Status) × (Statuses.find_by_id lib id w ≡ (ok status, w))
        × (name_on_board board_id status ≡ name)

  Cached-entry :
      (cache : List (ℕ × Text)) (id : ℕ) (status : Option Status)
      → Cached cache
      → Statuses.find_by_id lib id w ≡ (ok status, w)
      → Cached ((id, name_on_board board_id status) ∷ cache)
  unfolding cached_name
  Cached-entry cache id status cached found i name h = elim (Bool-cases (id == i)) [
    | inl here ↦
        let first : some (name_on_board board_id status) ≡ some name = rw here at h in
        (
          status,
          subst (λ i. Statuses.find_by_id lib i w ≡ (ok status, w)) ((==_iff id i).0 here) found,
          ground (arith, first),
        )
    | inr elsewhere ↦
        let later : cached_name i cache ≡ some name = rw elsewhere at h in cached i name later
  ]

  tasks_json-named :
      (tasks : List Task) (cache : List (ℕ × Text))
      → Cached cache
      → tasks_json lib board_id cache tasks w ≡ named_tasks lib board_id tasks w
  unfolding tasks_json name_of_found pure
  tasks_json-named [] cache cached = refl
  tasks_json-named (task ∷ tasks) cache cached = elim (Option-cases (cached_name id cache)) [
    | inl new ↦ looked_up new (tasks_json-named tasks) (find_by_id-Keeps lib w up id)
    | inr (name, known) ↦
        let (status, found, same) = cached id name known in
        then_ok named _ (ap named_by known)
        ∙ then_same (tasks_json lib board_id cache tasks) (named_tasks lib board_id tasks) _ w
            (tasks_json-named tasks cache cached)
        ∙ ap
            (λ name.
              (named_tasks lib board_id tasks >>= λ rest.
              pure (task_with_name lib task name ∷ rest))
                w)
            (sym same)
        ∙ sym (then_ok (Statuses.find_by_id lib id) _ found)
  ]
    where
      id : ℕ
      id = task.status_id

      named_by : Option Text → Result (Text × List (ℕ × Text)) × World
      named_by o = name_of_found lib board_id cache id o w

      named : M (Text × List (ℕ × Text))
      named = name_of_found lib board_id cache id (cached_name id cache)

      looked_up :
          cached_name id cache ≡ none
          → ((cache : List (ℕ × Text))
              → Cached cache
              → tasks_json lib board_id cache tasks w ≡ named_tasks lib board_id tasks w)
          → Keeps (Statuses.find_by_id lib id) w
          → tasks_json lib board_id cache (task ∷ tasks) w
            ≡ named_tasks lib board_id (task ∷ tasks) w
      looked_up new named_alike (failed f, found) =
          then_failed named _ (ap named_by new ∙ then_failed (Statuses.find_by_id lib id) _ found)
          ∙ sym (then_failed (Statuses.find_by_id lib id) _ found)
      looked_up new named_alike (ok status, found) =
          then_ok named _ (ap named_by new ∙ then_ok (Statuses.find_by_id lib id) _ found)
          ∙ then_same (tasks_json lib board_id ((id, name_on_board board_id status) ∷ cache) tasks)
              (named_tasks lib board_id tasks) _ w
              (named_alike _ (Cached-entry cache id status cached found))
          ∙ sym (then_ok (Statuses.find_by_id lib id) _ found)

-- Where no connection fails, the cache changes nothing: the listing of a board's tasks is the one
-- that looks the status of every task up, in what it returns and in what it throws.
pub tasks_json-named_tasks :
    (lib : Libraries) (board_id : ℕ) (tasks : List Task) (w : World)
    → w.outages ≡ []
    → tasks_json lib board_id [] tasks w ≡ named_tasks lib board_id tasks w
unfolding cached_name
tasks_json-named_tasks lib board_id tasks w up =
    tasks_json-named lib board_id w up tasks [] (λ id name h. absurd (cc))
