-- ===== src/Sync/Tasks/Pushes.antt =====
-- Which tasks `TaskSyncManager::sync` sends to the server, and as what.
use hse_project_2026_chronos.Base.{
  ◌≡◌, refl, Bool, true, false, not, ◌&&◌, ◌||◌, List, [], ◌∷◌, All, All-append, All-map, is_empty,
  Bool-cases, Option, none, some, Option-cases, ap, inl, inr, arith,
}
use hse_project_2026_chronos.Base.Int.{ℤ, pos, eq_ℤ, eq_ℤ_iff, ltb_ℤ}
use hse_project_2026_chronos.Local.Rows.{Env, LocalBoard, LocalTask, is_pending, is_synced}
use hse_project_2026_chronos.Local.Table.{
  find_row, any_row, all_rows, all_rows_mono, any_row-append, select_where,
}
use hse_project_2026_chronos.Local.Schema.{has_board_id, has_task_id}
use hse_project_2026_chronos.Local.Db.{Db}
use hse_project_2026_chronos.Local.Tasks.{find_unsynced}
use hse_project_2026_chronos.Sync.Wire.{Push, Operation}
use hse_project_2026_chronos.Sync.Tasks.{is_parent_board_synced, push_task, push_all, sync}

-- The request says what became of the task.
abbrev pub fits : Operation → LocalTask → Bool
fits Operation.delete t = not (is_empty t.deleted_at)
fits Operation.create t = is_empty t.deleted_at && eq_ℤ t.server_version (pos 0)
fits Operation.update t = is_empty t.deleted_at && not (eq_ℤ t.server_version (pos 0))
fits Operation.unknown_operation t = false

-- A board of this id is synced, and the id is one of the server's.
unfoldable pub on_synced_board : ℤ → List LocalBoard → Bool
on_synced_board i boards =
    ltb_ℤ (pos 0) i && any_row (λ b. has_board_id i b && is_synced b.sync_status) boards

-- The row that stands behind a request.
unfoldable pub stands_behind : Db → Push → LocalTask → Bool
stands_behind db p t =
    has_task_id p.local_id t
    && is_pending t.sync_status
    && on_synced_board t.board_id db.boards
    && fits p.operation t

unfoldable pub sendable : Env → Db → LocalTask → Bool
sendable env db t =
    is_pending t.sync_status
    && not (ltb_ℤ t.board_id (pos 0))
    && is_parent_board_synced t.board_id db
    && (not (is_empty (env.trimmed t.title)) || not (is_empty t.deleted_at))

abbrev status_synced : Option LocalBoard → Bool
status_synced none = false
status_synced (some b) = is_synced b.sync_status

found_synced :
    (i : ℤ) (boards : List LocalBoard) (b : LocalBoard)
    → find_row (has_board_id i) boards ≡ some b
    → is_synced b.sync_status ≡ true
    → any_row (λ b. has_board_id i b && is_synced b.sync_status) boards ≡ true
unfolding find_row any_row
found_synced i [] b found h = cc
found_synced i (c ∷ boards) b found h = elim (Bool-cases (has_board_id i c)) [
  | inl here ↦
      let first : some c ≡ some b = rw here at found in
      ground (arith, here, h, first, ap (λ (o : Option LocalBoard). status_synced o) first)
  | inr other ↦ ground (arith, other, found, found_synced i boards b)
]

parent_synced :
    (i : ℤ) (db : Db) → is_parent_board_synced i db ≡ true → on_synced_board i db.boards ≡ true
unfolding is_parent_board_synced on_synced_board
parent_synced i db h = elim (Option-cases (find_row (has_board_id i) db.boards)) [
  | inl missing ↦ let e : false ≡ true = rw (missing, is_parent_board_synced) at h in absurd cc
  | inr (b, found) ↦
      let e : (is_synced b.sync_status && ltb_ℤ (pos 0) i) ≡ true =
        rw (found, is_parent_board_synced) at h in
      ground (arith, e, found_synced i db.boards b found)
]

module _ (env : Env) (db : Db) where
  push_task-fits :
      (t : LocalTask)
      → is_pending t.sync_status ≡ true
      → All (λ p. stands_behind db p t ≡ true) (push_task env db t)
  unfolding push_task stands_behind
  push_task-fits t h = ground (arith, h, eq_ℤ_iff t.id t.id, parent_synced t.board_id db)

  push_task-sent :
      (t : LocalTask)
      → sendable env db t ≡ true
      → any_row (λ p. eq_ℤ p.local_id t.id) (push_task env db t) ≡ true
  unfolding push_task any_row sendable
  push_task-sent t h = ground (arith, h, eq_ℤ_iff t.id t.id)

  pushes_fit :
      (ts : List LocalTask)
      → All
          (λ p. any_row (stands_behind db p) ts ≡ true)
          (push_all env db (select_where (λ t. is_pending t.sync_status) ts))
  unfolding push_all select_where any_row
  pushes_fit [] = tt
  pushes_fit (t ∷ ts) = elim (Bool-cases (is_pending t.sync_status)) [
    | inl here ↦ rw here (
        All-append (λ p. (stands_behind db p t || any_row (stands_behind db p) ts) ≡ true)
          (push_task env db t) (push_all env db (select_where (λ u. is_pending u.sync_status) ts))
          (All-map (λ p h. ground (arith, h)) (push_task env db t) (push_task-fits t here))
          (All-map (λ p h. ground (arith, h))
            (push_all env db (select_where (λ u. is_pending u.sync_status) ts)) (pushes_fit ts)))
    | inr there ↦ rw there (
        All-map (λ p h. ground (arith, h))
          (push_all env db (select_where (λ u. is_pending u.sync_status) ts)) (pushes_fit ts))
  ]

  -- Every request that `sync` hands out has a row behind it: a task that waits for the server, on a
  -- board that is synced and has an id of the server, and the request deletes it where it is deleted, creates it where
  -- the server has no version of it, and changes it otherwise. Conflicts are not sent.
  pub sync-justified : All (λ p. any_row (stands_behind db p) db.tasks ≡ true) (sync env db)
  unfolding sync find_unsynced
  sync-justified = pushes_fit db.tasks

  was_sent : List LocalTask → LocalTask → Bool
  was_sent ts t =
      any_row (λ p. eq_ℤ p.local_id t.id)
        (push_all env db (select_where (λ u. is_pending u.sync_status) ts))

  not_pending : (t : LocalTask) → is_pending t.sync_status ≡ false → sendable env db t ≡ false
  unfolding sendable
  not_pending t h = rw h

  sent_first :
      (t : LocalTask) (ts : List LocalTask)
      → (not (sendable env db t) || was_sent (t ∷ ts) t) ≡ true
  unfolding push_all select_where was_sent
  sent_first t ts = elim (Bool-cases (is_pending t.sync_status)) [
    | inl here ↦
        rw
          (
            here,
            any_row-append (λ p. eq_ℤ p.local_id t.id) (push_task env db t)
                (push_all env db (select_where (λ u. is_pending u.sync_status) ts)),
          )
          (ground (arith, push_task-sent t))
    | inr there ↦ ground (arith, not_pending t there)
  ]

  sent_later :
      (t u : LocalTask) (ts : List LocalTask)
      → (not (sendable env db u) || was_sent ts u) ≡ true
      → (not (sendable env db u) || was_sent (t ∷ ts) u) ≡ true
  unfolding push_all select_where was_sent
  sent_later t u ts h = elim (Bool-cases (is_pending t.sync_status)) [
    | inl here ↦
        rw
          (
            here,
            any_row-append (λ p. eq_ℤ p.local_id u.id) (push_task env db t)
                (push_all env db (select_where (λ v. is_pending v.sync_status) ts)),
          )
          (ground (arith, h))
    | inr there ↦ rw there h
  ]

  all_sent :
      (ts : List LocalTask) → all_rows (λ t. not (sendable env db t) || was_sent ts t) ts ≡ true
  unfolding all_rows
  all_sent [] = refl
  all_sent (t ∷ ts) = rw (sent_first t ts) (
      all_rows_mono (λ u. not (sendable env db u) || was_sent ts u)
        (λ u. not (sendable env db u) || was_sent (t ∷ ts) u) (λ u h. sent_later t u ts h) ts
        (all_sent ts))

  -- Every task that waits for the server and can be sent is sent: one on a board that the server
  -- knows, whose title is not blank or which is deleted.
  pub sync_complete :
      all_rows
        (λ t. not (sendable env db t) || any_row (λ p. eq_ℤ p.local_id t.id) (sync env db))
        db.tasks
      ≡ true
  unfolding sync find_unsynced was_sent
  sync_complete = all_sent db.tasks
