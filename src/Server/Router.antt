-- ===== src/Server/Router.antt =====
-- backend/src/server/server.cpp and session.cpp: the routes of boards, statuses and tasks, each
-- behind `with_auth`, and the answer to a request for one of them. An exception of `with_auth` leaves
-- the session without a response. The routes of accounts and of pomodoro sessions are no endpoint
-- here, and no request for them is a `Call`.
use hse_project_2026_chronos.Base.{ℕ, Bool, Option, none, some, List, [], ◌∷◌, if◌then◌else◌, codes}
use hse_project_2026_chronos.Base.Int.{ℤ, pos, pos_part}
use hse_project_2026_chronos.Json.{end}
use hse_project_2026_chronos.Auth.Jwt
use hse_project_2026_chronos.Auth.WithAuth
use hse_project_2026_chronos.Server.Rows.{Text}
use hse_project_2026_chronos.Server.Http.{
  Method, Request, Response, Libraries, get_method, post, patch, delete_method,
  build_error_response,
}
use hse_project_2026_chronos.Server.Action.{World}
use hse_project_2026_chronos.Server.Handlers.{method_is}
use hse_project_2026_chronos.Server.Handlers.Boards
use hse_project_2026_chronos.Server.Handlers.Statuses
use hse_project_2026_chronos.Server.Handlers.Tasks
use hse_project_2026_chronos.Server.Handlers.Queries

pub data Endpoint : Type 0 where
  board_create board_get_all board_tasks board_get board_delete board_edit : Endpoint
  task_create task_edit task_get_all task_delete : Endpoint
  status_create status_edit status_get_all status_delete : Endpoint

unfoldable pub method_of : Endpoint → Method
method_of board_create = post
method_of board_get_all = get_method
method_of board_tasks = get_method
method_of board_get = get_method
method_of board_delete = delete_method
method_of board_edit = patch
method_of task_create = post
method_of task_edit = patch
method_of task_get_all = get_method
method_of task_delete = delete_method
method_of status_create = post
method_of status_edit = patch
method_of status_get_all = get_method
method_of status_delete = delete_method

module _ (lib : Libraries) where
  unfoldable pub handler : Endpoint → Request → ℕ → World → Response × World
  handler board_create = Boards.handle_create lib
  handler board_get_all = Queries.handle_get_all_boards lib
  handler board_tasks = Queries.handle_get_board_tasks lib
  handler board_get = Queries.handle_get_board lib
  handler board_delete = Boards.handle_delete lib
  handler board_edit = Boards.handle_edit lib
  handler task_create = Tasks.handle_create lib
  handler task_edit = Tasks.handle_edit lib
  handler task_get_all = Queries.handle_get_all_tasks lib
  handler task_delete = Tasks.handle_delete lib
  handler status_create = Statuses.handle_create lib
  handler status_edit = Statuses.handle_edit lib
  handler status_get_all = Queries.handle_get_all_statuses lib
  handler status_delete = Statuses.handle_delete lib

  -- The lambda of a route.
  unfoldable pub routed : Endpoint → Request → ℕ → World → Response × World
  routed endpoint req user_id w =
      if method_is req.method (method_of endpoint)
      then handler endpoint req user_id w
      else (build_error_response 405 "DUPLICATE_RESOURCE" (codes "Method not allowed") end, w)

-- A request whose path is the route of an endpoint, with its Authorization header.
pub record Call : Type 0 where
  pub endpoint : Endpoint
  pub authorization : Text
  pub request : Request

unfoldable pub refusal_response : WithAuth.Refusal → Response
refusal_response WithAuth.user_is_not_authorized =
    build_error_response 401 "UNAUTHORIZED" (codes "User is not authorized") end
refusal_response WithAuth.bad_token =
    build_error_response 401 "INVALID_TOKEN" (codes "Invalid token") end
refusal_response WithAuth.token_is_expired =
    build_error_response 401 "INVALID_TOKEN" (codes "Token is expired") end

abbrev pub answer_of :
    Jwt.Throws (WithAuth.Response (World → Response × World)) → World → Option Response × World
answer_of Jwt.runtime_error w = (none, w)
answer_of (Jwt.returns (WithAuth.unauthorized refusal)) w = (some (refusal_response refusal), w)
answer_of (Jwt.returns (WithAuth.answered run)) w = (some (run w).0, (run w).1)

module _ (lib : Libraries) (jwt : Jwt.Libraries) (env : Jwt.Environment) where
  abbrev pub run_endpoint : Endpoint → Request → ℤ → World → Response × World
  run_endpoint endpoint req user_id w = routed lib endpoint req (pos_part user_id) w

  -- `Session::handleRequest` on a path that `router_` has, without the metrics.
  unfoldable pub handle_request : ℤ → Call → World → Option Response × World
  handle_request now call w =
      answer_of
        (WithAuth.with_auth jwt env (run_endpoint call.endpoint) now
          (record { authorization = call.authorization; rest = call.request }))
        w

-- A request as it reaches the server: the clock of the database, which connections fail, and the
-- call.
pub record Arrival : Type 0 where
  pub time : ℕ
  pub outages : List Bool
  pub call : Call

module _ (lib : Libraries) (jwt : Jwt.Libraries) (env : Jwt.Environment) where
  unfoldable pub serve : Arrival → World → World
  unfolding handle_request
  serve a w =
      (handle_request lib jwt env (pos a.time) a.call
        (record w { now = a.time; outages = a.outages })).1

  -- Requests that the server answers one after another.
  unfoldable pub serve_all : List Arrival → World → World
  unfolding serve
  serve_all [] w = w
  serve_all (a ∷ rest) w = serve_all rest (serve a w)
