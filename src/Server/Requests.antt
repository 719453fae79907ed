-- ===== src/Server/Requests.antt =====
-- Requests to the server, one after another, and what each leaves of the tables: requests for
-- the routes of boards, statuses and tasks.
pub mod Histories
use hse_project_2026_chronos.Base.{
  ℕ, ◌≡◌, ◌≢◌, ◌≤◌, ◌<◌, refl, sym, ap, subst, Bool, true, false, Option, none, some, List, [], ◌∷◌,
  ◌++◌, arith, Bool-cases, inl, inr, if◌then◌else◌,
}
use hse_project_2026_chronos.Base.Int.{ℤ, pos, pos_part}
use hse_project_2026_chronos.Auth.Jwt
use hse_project_2026_chronos.Auth.Jwt.Checks.{Accepts}
use hse_project_2026_chronos.Auth.WithAuth
use hse_project_2026_chronos.Server.Rows.{Text}
use hse_project_2026_chronos.Server.Tables.{Tables}
use hse_project_2026_chronos.Server.Http.{Request, Response, Libraries, build_error_response}
use hse_project_2026_chronos.Server.Action.{World, M, Result, Failure, ok, failed}
use hse_project_2026_chronos.Server.Action.Worlds.{Idle}
use hse_project_2026_chronos.Server.Action.Runs.{Ends, Post}
use hse_project_2026_chronos.Server.Handlers.{catching}
use hse_project_2026_chronos.Server.Handlers.Boards
use hse_project_2026_chronos.Server.Handlers.Statuses
use hse_project_2026_chronos.Server.Handlers.Tasks
use hse_project_2026_chronos.Server.Handlers.Queries
use hse_project_2026_chronos.Server.Steps.{Steps, idle, done, step}
use hse_project_2026_chronos.Server.Steps.Owned.{Done}
use hse_project_2026_chronos.Server.Steps.BoardHandlers
use hse_project_2026_chronos.Server.Steps.StatusHandlers
use hse_project_2026_chronos.Server.Steps.TaskHandlers
use hse_project_2026_chronos.Server.Steps.QueryHandlers
use hse_project_2026_chronos.Server.Router.{
  Endpoint, Call, answer_of, handler, routed, run_endpoint, handle_request, board_create,
  board_get_all, board_tasks, board_get, board_delete, board_edit, task_create, task_edit,
  task_get_all, task_delete, status_create, status_edit, status_get_all, status_delete,
}

abbrev status_of : Option Response → ℕ
status_of none = 0
status_of (some response) = response.status

-- The steps of a request, and whether it changed a table.
abbrev pub Handled : ℕ → World → Response × World → Type 0
Handled user w (response, w') = Steps user w w' × (400 ≤ response.status → w'.tables ≡ w.tables)

catching-Handled :
    (user : ℕ) (w : World) (clauses : Failure → Response) (end : Result Response × World)
    → Ends (Done user w) (Idle w) end
    → Handled user w (catching clauses end)
unfolding catching
catching-Handled user w clauses (ok response, w') (steps, good) =
    (steps, λ bad. absurd (omega (arith, good, bad)))
catching-Handled user w clauses (failed f, w') i = (step (idle i) done, λ _. i.tables_kept)

module _ (lib : Libraries) (req : Request) (user : ℕ) (w : World) where
  pub handler-Handled : (endpoint : Endpoint) → Handled user w (handler lib endpoint req user w)
  unfolding handler Boards.handle_create Boards.handle_delete Boards.handle_edit
      Queries.handle_get_all_boards Queries.handle_get_all_statuses Queries.handle_get_all_tasks
      Queries.handle_get_board Queries.handle_get_board_tasks Statuses.handle_create
      Statuses.handle_delete Statuses.handle_edit Tasks.handle_create Tasks.handle_delete
      Tasks.handle_edit
  handler-Handled board_create =
      catching-Handled user w _ _ (BoardHandlers.create-Done lib req user w).ends
  handler-Handled board_get_all =
      catching-Handled user w _ _ (QueryHandlers.get_all_boards-Done lib req user w).ends
  handler-Handled board_tasks =
      catching-Handled user w _ _ (QueryHandlers.get_board_tasks-Done lib req user w).ends
  handler-Handled board_get =
      catching-Handled user w _ _ (QueryHandlers.get_board-Done lib req user w).ends
  handler-Handled board_delete =
      catching-Handled user w _ _ (BoardHandlers.delete-Done lib req user w).ends
  handler-Handled board_edit =
      catching-Handled user w _ _ (BoardHandlers.edit-Done lib req user w).ends
  handler-Handled task_create =
      catching-Handled user w _ _ (TaskHandlers.create-Done lib req user w).ends
  handler-Handled task_edit =
      catching-Handled user w _ _ (TaskHandlers.edit-Done lib req user w).ends
  handler-Handled task_get_all =
      catching-Handled user w _ _ (QueryHandlers.get_all_tasks-Done lib req user w).ends
  handler-Handled task_delete =
      catching-Handled user w _ _ (TaskHandlers.delete-Done lib req user w).ends
  handler-Handled status_create =
      catching-Handled user w _ _ (StatusHandlers.create-Done lib req user w).ends
  handler-Handled status_edit =
      catching-Handled user w _ _ (StatusHandlers.edit-Done lib req user w).ends
  handler-Handled status_get_all =
      catching-Handled user w _ _ (QueryHandlers.get_all_statuses-Done lib req user w).ends
  handler-Handled status_delete =
      catching-Handled user w _ _ (StatusHandlers.delete-Done lib req user w).ends

  if-Handled :
      (b : Bool) (x y : Response × World)
      → Handled user w x
      → Handled user w y
      → Handled user w (if b then x else y)
  if-Handled true x y h k = h
  if-Handled false x y h k = k

  routed-Handled : (endpoint : Endpoint) → Handled user w (routed lib endpoint req user w)
  unfolding routed
  routed-Handled endpoint = if-Handled _ _ _ (handler-Handled endpoint) (done, λ _. refl)

  -- What a route does to the tables is a run of the steps that the user of the request may take,
  -- whatever the request holds and whichever connections fail.
  pub routed-Steps : (endpoint : Endpoint) → Steps user w (routed lib endpoint req user w).1
  routed-Steps endpoint = (routed-Handled endpoint).0

module _ (lib : Libraries) (jwt : Jwt.Libraries) (env : Jwt.Environment) (now : ℤ) (call : Call)
    (w : World) where
  -- A request changes nothing, or it has a token of a user and does what that user may.
  pub data Effect (end : Option Response × World) : Type 0 where
    nothing : end.1 ≡ w → Effect end
    by_user :
        (token : List ℕ) (user_id : ℤ)
        → call.authorization ≡ WithAuth.bearer ++ token
        → Accepts jwt env now token user_id
        → Steps (pos_part user_id) w end.1
        → ((response : Response)
            → end.0 ≡ some response
            → 400 ≤ response.status
            → end.1.tables ≡ w.tables)
        → Effect end

  answer_of-Effect :
      (endpoint : Endpoint) (answer : Jwt.Throws (WithAuth.Response (World → Response × World)))
      → WithAuth.with_auth jwt env
          (run_endpoint lib jwt env endpoint)
          now
          (record { authorization = call.authorization; rest = call.request })
        ≡ answer
      → Effect (answer_of answer w)
  answer_of-Effect endpoint Jwt.runtime_error h = nothing refl
  answer_of-Effect endpoint (Jwt.returns (WithAuth.unauthorized r)) h = nothing refl
  answer_of-Effect endpoint (Jwt.returns (WithAuth.answered run)) h =
      let (token, user_id, header, accepts, same) =
        (WithAuth.with_auth_iff jwt env (run_endpoint lib jwt env endpoint) now
            (record { authorization = call.authorization; rest = call.request }) run).0
          h in
      let (steps, kept) =
        subst (λ (run : World → Response × World). Handled (pos_part user_id) w (run w)) same
          (routed-Handled lib call.request (pos_part user_id) w endpoint) in
      by_user token user_id header accepts steps
        (λ response e bad. kept (subst (λ o. 400 ≤ status_of o) (sym e) bad))

  pub request-Effect : Effect (handle_request lib jwt env now call w)
  unfolding handle_request
  request-Effect = answer_of-Effect call.endpoint _ refl

-- A request for a route of boards, statuses or tasks that is answered with an error has changed no
-- table.
pub error_changes_nothing :
    (lib : Libraries) (jwt : Jwt.Libraries) (env : Jwt.Environment) (now : ℤ) (call : Call)
    (w : World) (response : Response)
    → (handle_request lib jwt env now call w).0 ≡ some response
    → 400 ≤ response.status
    → (handle_request lib jwt env now call w).1.tables ≡ w.tables
error_changes_nothing lib jwt env now call w response e bad =
    kept (request-Effect lib jwt env now call w)
  where
    kept :
        Effect lib jwt env now call w (handle_request lib jwt env now call w)
        → (handle_request lib jwt env now call w).1.tables ≡ w.tables
    kept (nothing same) = ap (λ w. w.tables) same
    kept (by_user token user_id header accepts steps errors) = errors response e bad
