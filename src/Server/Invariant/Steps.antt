-- ===== src/Server/Invariant/Steps.antt =====
-- Each step of the specification, and any run of them, keeps the tables well formed.
use hse_project_2026_chronos.Base.{ℕ, ◌≡◌, sym, subst}
use hse_project_2026_chronos.Server.Tables.{Tables, NextIds}
use hse_project_2026_chronos.Server.Action.{World}
use hse_project_2026_chronos.Server.Action.Worlds.{LaterIds}
use hse_project_2026_chronos.Server.Steps.{
  Step, Steps, idle, board_added, status_added, task_added, board_edited, status_edited,
  task_edited, board_deleted, status_deleted, task_deleted, done, step,
}
use hse_project_2026_chronos.Server.Invariant.{WellFormed}
use hse_project_2026_chronos.Server.Invariant.Rows.{
  later-WellFormed, board_added-WellFormed, status_added-WellFormed, task_added-WellFormed,
  board_edited-WellFormed, status_edited-WellFormed, task_edited-WellFormed,
  board_deleted-WellFormed, status_deleted-WellFormed, task_deleted-WellFormed,
}

abbrev pub IsWellFormed : World → Type 0
IsWellFormed w = WellFormed w.tables w.next_ids

module _ {user : ℕ} where
  pub Step-WellFormed : {w w' : World} → Step user w w' → IsWellFormed w → IsWellFormed w'
  Step-WellFormed {w} {w'} s wf = go s
    where
      n : NextIds
      n = w.next_ids

      n' : NextIds
      n' = w'.next_ids

      at : {t : Tables} → w'.tables ≡ t → WellFormed t n' → IsWellFormed w'
      at e h = subst (λ t. WellFormed t n') (sym e) h

      later : (t : Tables) → WellFormed t n → LaterIds n n' → WellFormed t n'
      later t h l = later-WellFormed t n n' h l

      go : Step user w w' → IsWellFormed w'
      go (idle i) = at i.tables_kept (later w.tables wf i.later)
      go (board_added row fresh owner valid e) =
          at e (board_added-WellFormed w.tables n n' wf row fresh valid)
      go (status_added row fresh owned sized free e) =
          at e (status_added-WellFormed w.tables n n' wf row user fresh owned)
      go (task_added row fresh owned placed e) =
          at e (task_added-WellFormed w.tables n n' wf row fresh placed)
      go (board_edited old row l found owner owner' valid e) =
          at e (later _ (board_edited-WellFormed w.tables n n' wf row valid) l)
      go (status_edited old row l found owned sized free e) =
          at e (later _ (status_edited-WellFormed w.tables n n' wf row) l)
      go (task_edited old row l found owned same placed e) =
          at e (later _ (task_edited-WellFormed w.tables n n' wf row placed) l)
      go (board_deleted old id l found owner e) =
          at e (later _ (board_deleted-WellFormed w.tables n n' wf id) l)
      go (status_deleted old id l found owned e) =
          at e (later _ (status_deleted-WellFormed w.tables n n' wf id) l)
      go (task_deleted old id l found owned e) =
          at e (later _ (task_deleted-WellFormed w.tables n n' wf id) l)

  pub Steps-WellFormed : {w w' : World} → Steps user w w' → IsWellFormed w → IsWellFormed w'
  Steps-WellFormed done wf = wf
  Steps-WellFormed (step s rest) wf = Steps-WellFormed rest (Step-WellFormed s wf)
