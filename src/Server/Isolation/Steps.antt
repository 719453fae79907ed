-- ===== src/Server/Isolation/Steps.antt =====
-- No run of steps for a user changes what another user can see.
use hse_project_2026_chronos.Base.{ℕ, ◌≡◌, ◌≢◌, refl, ap, ◌∙◌}
use hse_project_2026_chronos.Server.Tables.{Tables}
use hse_project_2026_chronos.Server.Action.{World}
use hse_project_2026_chronos.Server.Steps.{
  Step, Steps, idle, board_added, status_added, task_added, board_edited, status_edited,
  task_edited, board_deleted, status_deleted, task_deleted, done, step,
}
use hse_project_2026_chronos.Server.Invariant.Steps.{IsWellFormed, Step-WellFormed}
use hse_project_2026_chronos.Server.Isolation.{view}
use hse_project_2026_chronos.Server.Isolation.Rows

module _ {user : ℕ} (other : ℕ) (apart : other ≢ user) where
  Step-view :
      {w w' : World} → Step user w w' → IsWellFormed w → view other w'.tables ≡ view other w.tables
  Step-view {w} {w'} s wf = go s
    where
      t : Tables
      t = w.tables

      at :
          {t' : Tables}
          → w'.tables ≡ t'
          → view other t' ≡ view other t
          → view other w'.tables ≡ view other t
      at e h = ap (view other) e ∙ h

      go : Step user w w' → view other w'.tables ≡ view other t
      go (idle i) = at i.tables_kept refl
      go (board_added row fresh owner valid e) =
          at e (Rows.board_added-view t w.next_ids wf user other apart row owner)
      go (status_added row fresh owned sized free e) =
          at e (Rows.status_added-view t w.next_ids wf user other apart row owned)
      go (task_added row fresh owned placed e) =
          at e (Rows.task_added-view t w.next_ids wf user other apart row owned)
      go (board_edited old row l found owner owner' valid e) = at e (
          Rows.board_edited-view t w.next_ids wf user other apart row.id old found owner row refl
            owner')
      go (status_edited old row l found owned sized free e) =
          at e (
            Rows.status_edited-view t w.next_ids wf user other apart row.id old found owned row
              refl)
      go (task_edited old row l found owned same placed e) = at e (
          Rows.task_edited-view t w.next_ids wf user other apart row.id old found owned row refl
            same)
      go (board_deleted old id l found owner e) =
          at e (Rows.board_deleted-view t w.next_ids wf user other apart id old found owner)
      go (status_deleted old id l found owned e) =
          at e (Rows.status_deleted-view t w.next_ids wf user other apart id old found owned)
      go (task_deleted old id l found owned e) =
          at e (Rows.task_deleted-view t w.next_ids wf user other apart id old found owned)

  pub Steps-view :
      {w w' : World} → Steps user w w' → IsWellFormed w → view other w'.tables ≡ view other w.tables
  Steps-view done wf = refl
  Steps-view (step s rest) wf = Steps-view rest (Step-WellFormed s wf) ∙ Step-view s wf
