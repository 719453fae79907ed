-- ===== src/Server/Exceptions.antt =====
-- backend/repositories: what the methods throw.
use hse_project_2026_chronos.Base.{◌≡◌, inl, inr, ◌⊎◌, ◌++◌, codes, if◌then◌else◌, ◌==◌}
use hse_project_2026_chronos.Server.Rows.{Text, Board, Status, Task}
use hse_project_2026_chronos.Server.Http.{Libraries}
use hse_project_2026_chronos.Server.Action.{
  World, Result, Failure, ok, failed, runtime_error, rewrap, rewrapping, what,
}
use hse_project_2026_chronos.Server.Repositories.Boards
use hse_project_2026_chronos.Server.Repositories.Statuses
use hse_project_2026_chronos.Server.Repositories.Tasks
use Prim.Native.String.{String}

-- A std::runtime_error, which is no pqxx::sql_error.
abbrev pub IsRuntimeError : Failure → Type 0
IsRuntimeError f = (text : Text) × (f ≡ runtime_error text)

rewrap-IsRuntimeError :
    {A : Type 0} (lib : Libraries) (prefix : String) (outcome : Result A × World) (f : Failure)
    → (rewrap lib prefix outcome).0 ≡ failed f
    → IsRuntimeError f
rewrap-IsRuntimeError lib prefix (ok a, w) f h = absurd (cc)
rewrap-IsRuntimeError lib prefix (failed g, w) f h = (codes prefix ++ what lib g, cc)

-- What saving a board, a status or a task throws is a runtime_error, also where the database refuses
-- a second status of the same name.
pub save-IsRuntimeError :
    (lib : Libraries) (board : Board) (status : Status) (task : Task) (w : World) (f : Failure)
    → ((Boards.save lib board w).0 ≡ failed f)
      ⊎ ((Statuses.save lib status w).0 ≡ failed f)
      ⊎ ((Tasks.save lib task w).0 ≡ failed f)
    → IsRuntimeError f
unfolding Boards.save Statuses.save Tasks.save rewrapping
save-IsRuntimeError lib board status task w f (inl thrown) =
    rewrap-IsRuntimeError lib "Failed to save Board: "
      ((if board.id == 0 then Boards.insert lib board else Boards.update lib board) w) f thrown
save-IsRuntimeError lib board status task w f (inr (inl thrown)) =
    rewrap-IsRuntimeError lib "Failed to save Status: "
      ((if status.id == 0 then Statuses.insert lib status else Statuses.update lib status) w) f
      thrown
save-IsRuntimeError lib board status task w f (inr (inr thrown)) =
    rewrap-IsRuntimeError lib "Failed to save Task: "
      ((if task.id == 0 then Tasks.insert lib task else Tasks.update lib task) w) f thrown
