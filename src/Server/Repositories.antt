-- ===== src/Server/Repositories.antt =====
-- backend/repositories: what the repositories share. Each method is one transaction; ids come from
-- the sequences of the tables.
pub mod Boards
pub mod Statuses
pub mod Tasks
use hse_project_2026_chronos.Base.{
  ℕ, Bool, true, false, Option, none, some, List, [], ◌∷◌, if◌then◌else◌,
}
use hse_project_2026_chronos.Server.Rows.{Text}
use hse_project_2026_chronos.Server.Action.{M, pure, construct, ◌>>=◌}

module _ {A : Type 0} (error : A → Option Text) where
  -- The object of a row, where there is one, and the objects of all rows.
  unfoldable pub construct_found : Option A → M (Option A)
  construct_found none = pure none
  construct_found (some a) = do found ← construct error a; pure (some found)

  unfoldable pub construct_all : List A → M (List A)
  construct_all [] = pure []
  construct_all (a ∷ rest) = do
    first ← construct error a
    others ← construct_all rest
    pure (first ∷ others)

module _ {A : Type 0} (before : A → A → Bool) where
  -- ORDER BY.
  unfoldable pub insert_ordered : A → List A → List A
  insert_ordered a [] = a ∷ []
  insert_ordered a (b ∷ bs) = if before b a then b ∷ insert_ordered a bs else a ∷ b ∷ bs

  unfoldable pub order_by : List A → List A
  unfolding insert_ordered
  order_by [] = []
  order_by (a ∷ rest) = insert_ordered a (order_by rest)
