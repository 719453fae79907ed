-- ===== src/Server/Requests/Histories.antt =====
-- What holds after any sequence of requests for the routes of boards, statuses and tasks, with any tokens, clocks and failing connections.
use hse_project_2026_chronos.Base.{
  ℕ, ◌≡◌, refl, sym, ap, subst, ◌∙◌, false, List, [], ◌∷◌, ◌++◌, All, arith,
}
use hse_project_2026_chronos.Base.Int.{ℤ, pos, negsuc, pos_part, leb_ℤ}
use hse_project_2026_chronos.Auth.Jwt
use hse_project_2026_chronos.Auth.Jwt.Checks.{Accepts}
use hse_project_2026_chronos.Auth.WithAuth
use hse_project_2026_chronos.Server.Http.{Libraries}
use hse_project_2026_chronos.Server.Action.{World}
use hse_project_2026_chronos.Server.Router.{Arrival, handle_request, serve, serve_all}
use hse_project_2026_chronos.Server.Requests.{Effect, nothing, by_user, request-Effect}
use hse_project_2026_chronos.Server.Invariant.Steps.{IsWellFormed, Steps-WellFormed}
use hse_project_2026_chronos.Server.Isolation.{view}
use hse_project_2026_chronos.Server.Isolation.Steps.{Steps-view}

positive-pos_part : (n : ℤ) → leb_ℤ n (pos 0) ≡ false → pos (pos_part n) ≡ n
positive-pos_part (pos n) h = refl
positive-pos_part (negsuc n) h = absurd (ground (arith, h))

module _ (lib : Libraries) (jwt : Jwt.Libraries) (env : Jwt.Environment) where
  -- The request brings no token that is accepted for this user.
  abbrev pub NotFrom : ℕ → Arrival → Type 0
  NotFrom other a =
      (token : List ℕ)
      → a.call.authorization ≡ WithAuth.bearer ++ token
      → ¬ Accepts jwt env (pos a.time) token (pos other)

  module _ (a : Arrival) (w : World) (wf : IsWellFormed w) where
    abbrev started : World
    started = record w { now = a.time; outages = a.outages }

    serve-WellFormed : IsWellFormed (serve lib jwt env a w)
    unfolding serve
    serve-WellFormed = go (request-Effect lib jwt env (pos a.time) a.call started)
      where
        go :
            Effect lib jwt env
              (pos a.time)
              a.call
              started
              (handle_request lib jwt env (pos a.time) a.call started)
            → IsWellFormed (handle_request lib jwt env (pos a.time) a.call started).1
        go (nothing same) = subst IsWellFormed (sym same) wf
        go (by_user token user_id header accepts steps errors) = Steps-WellFormed steps wf

    serve-view :
        (other : ℕ)
        → NotFrom other a
        → view other (serve lib jwt env a w).tables ≡ view other w.tables
    unfolding serve
    serve-view other foreign = go (request-Effect lib jwt env (pos a.time) a.call started)
      where
        go :
            Effect lib jwt env
              (pos a.time)
              a.call
              started
              (handle_request lib jwt env (pos a.time) a.call started)
            → view other (handle_request lib jwt env (pos a.time) a.call started).1.tables
              ≡ view other w.tables
        go (nothing same) = ap (λ w. view other w.tables) same
        go (by_user token user_id header accepts steps errors) =
            Steps-view other
              (λ same. foreign token header (
                subst (Accepts jwt env (pos a.time) token)
                  (sym (ap pos same ∙ positive-pos_part user_id accepts.claims.positive)) accepts))
              steps wf

  -- Whatever requests for the routes of boards, statuses and tasks the server answers, with whichever
  -- connections failing, the tables stay well formed: ids are unique and below the next ones, statuses are on boards that exist, and each task
  -- is in a status of its own board.
  pub serve_all-WellFormed :
      (arrivals : List Arrival) (w : World)
      → IsWellFormed w
      → IsWellFormed (serve_all lib jwt env arrivals w)
  unfolding serve_all
  serve_all-WellFormed [] w wf = wf
  serve_all-WellFormed (a ∷ rest) w wf =
      serve_all-WellFormed rest (serve lib jwt env a w) (serve-WellFormed a w wf)

  -- In well-formed tables, no sequence of requests for the routes of boards, statuses and tasks
  -- changes the boards, statuses and tasks that a user can see, unless one of them has a token that is
  -- accepted for that user when it comes.
  pub serve_all-view :
      (other : ℕ) (arrivals : List Arrival) (w : World)
      → IsWellFormed w
      → All (NotFrom other) arrivals
      → view other (serve_all lib jwt env arrivals w).tables ≡ view other w.tables
  unfolding serve_all
  serve_all-view other [] w wf foreign = refl
  serve_all-view other (a ∷ rest) w wf (first, foreign) =
      serve_all-view other rest (serve lib jwt env a w) (serve-WellFormed a w wf) foreign
      ∙ serve-view a w wf other first
