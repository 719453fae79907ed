-- ===== src/Local/TestData.antt =====
-- A board with one status and one task, for the runs.
use hse_project_2026_chronos.Base.{Bool, false, [], ◌∷◌, codes}
use hse_project_2026_chronos.Base.Int.{ℤ, pos, negsuc}
use hse_project_2026_chronos.Local.Rows.{Env, LocalBoard, LocalStatus, LocalTask, pending, synced}
use hse_project_2026_chronos.Local.Db.{Db}

abbrev pub morning : Env
morning = record {
  trimmed = λ t. t;
  now_iso = codes "2026-03-01T08:00:00Z";
  now_sql = codes "2026-03-01 08:00:00";
}

abbrev pub home_board : ℤ → LocalBoard
home_board i = record {
  id = i;
  user_id = pos 5;
  title = codes "Home";
  description = [];
  created_at = codes "2026-02-01T08:00:00Z";
  updated_at = codes "2026-03-02T08:00:00Z";
  deleted_at = [];
  sync_status = pending;
  server_version = pos 0;
}

abbrev pub todo_status : ℤ → ℤ → LocalStatus
todo_status i board_id = record {
  id = i;
  board_id = board_id;
  name = codes "To do";
  position = pos 0;
  created_at = codes "2026-02-01T08:00:00Z";
  updated_at = codes "2026-02-01T08:00:00Z";
  deleted_at = [];
  sync_status = synced;
  server_version = pos 1;
}

abbrev pub dishes_task : ℤ → ℤ → ℤ → LocalTask
dishes_task i board_id status_id = record {
  id = i;
  board_id = board_id;
  title = codes "Dishes";
  description = [];
  status_id = status_id;
  priority_color = codes "gray";
  deadline = [];
  is_completed = false;
  created_at = codes "2026-02-01T08:00:00Z";
  updated_at = codes "2026-02-01T08:00:00Z";
  deleted_at = [];
  sync_status = pending;
  server_version = pos 0;
}

-- One board with a column and a task in it; the setting says whether foreign keys are enforced.
abbrev pub home : ℤ → Bool → Db
home board_id enforced = record {
  users = [];
  boards = home_board board_id ∷ [];
  statuses = todo_status (pos 7) board_id ∷ [];
  tasks = dishes_task (negsuc 0) board_id (pos 7) ∷ [];
  sessions = [];
  foreign_keys = enforced;
}
