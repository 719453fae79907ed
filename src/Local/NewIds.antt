-- ===== src/Local/NewIds.antt =====
-- The ids that `createLocalId` of the repositories gives to rows that the server does not know yet.
use hse_project_2026_chronos.Base.{◌≡◌, true, false}
use hse_project_2026_chronos.Base.Int.{pos, ltb_ℤ}
use hse_project_2026_chronos.Local.Ids.{min_id, next_local_id-fresh, next_local_id_negative}
use hse_project_2026_chronos.Local.Table.{any_row}
use hse_project_2026_chronos.Local.Schema.{has_board_id, has_status_id, has_task_id}
use hse_project_2026_chronos.Local.Db.{Db}
use hse_project_2026_chronos.Local.Boards
use hse_project_2026_chronos.Local.Statuses
use hse_project_2026_chronos.Local.Tasks

-- In any database, the local id of a new board, status or task is negative, so that it is none of
-- the server's, and no row of its table has it, deleted rows included.
pub create_local_id-fresh :
    (db : Db)
    → ((ltb_ℤ (Boards.create_local_id db) (pos 0) ≡ true)
        × (any_row (has_board_id (Boards.create_local_id db)) db.boards ≡ false))
      × ((ltb_ℤ (Statuses.create_local_id db) (pos 0) ≡ true)
          × (any_row (has_status_id (Statuses.create_local_id db)) db.statuses ≡ false))
      × ((ltb_ℤ (Tasks.create_local_id db) (pos 0) ≡ true)
          × (any_row (has_task_id (Tasks.create_local_id db)) db.tasks ≡ false))
unfolding Boards.create_local_id Statuses.create_local_id Tasks.create_local_id
create_local_id-fresh db = (
  (
    next_local_id_negative (min_id (λ b. b.id) db.boards),
    next_local_id-fresh (λ b. b.id) db.boards,
  ),
  (
    next_local_id_negative (min_id (λ s. s.id) db.statuses),
    next_local_id-fresh (λ s. s.id) db.statuses,
  ),
  (next_local_id_negative (min_id (λ t. t.id) db.tasks), next_local_id-fresh (λ t. t.id) db.tasks),
)
