-- ===== src/Server/Action/Worlds.antt =====
-- What an action that writes nothing leaves of the world.
use hse_project_2026_chronos.Base.{ℕ, ◌≡◌, refl, ap, ◌∙◌, ◌≤◌, ◌<◌, arith}
use hse_project_2026_chronos.Server.Tables.{NextIds}
use hse_project_2026_chronos.Server.Action.{World}

-- Nothing but the connections has changed.
pub record Same (w w' : World) : Type 0 where
  pub tables_same : w'.tables ≡ w.tables
  pub ids_same : w'.next_ids ≡ w.next_ids
  pub now_same : w'.now ≡ w.now

-- The sequences may have given ids away.
pub record LaterIds (n n' : NextIds) : Type 0 where
  pub users_later : n.user ≤ n'.user
  pub boards_later : n.board ≤ n'.board
  pub statuses_later : n.status ≤ n'.status
  pub tasks_later : n.task ≤ n'.task
  pub sessions_later : n.session ≤ n'.session

abbrev pub Later : World → World → Type 0
Later w w' = LaterIds w.next_ids w'.next_ids

-- The tables have not changed.
pub record Idle (w w' : World) : Type 0 where
  pub tables_kept : w'.tables ≡ w.tables
  pub later : Later w w'

pub Same-refl : (w : World) → Same w w
Same-refl w = record { tables_same = refl; ids_same = refl; now_same = refl }

pub Same-trans : {u v w : World} → Same u v → Same v w → Same u w
Same-trans s r = record {
  tables_same = r.tables_same ∙ s.tables_same;
  ids_same = r.ids_same ∙ s.ids_same;
  now_same = r.now_same ∙ s.now_same;
}

pub Later-refl : (n : NextIds) → LaterIds n n
Later-refl n = record {
  users_later = omega arith;
  boards_later = omega arith;
  statuses_later = omega arith;
  tasks_later = omega arith;
  sessions_later = omega arith;
}

pub Later-of_same : {v w : World} → Same v w → Later v w
Later-of_same s = record {
  users_later = omega (arith, ap (λ n. n.user) s.ids_same);
  boards_later = omega (arith, ap (λ n. n.board) s.ids_same);
  statuses_later = omega (arith, ap (λ n. n.status) s.ids_same);
  tasks_later = omega (arith, ap (λ n. n.task) s.ids_same);
  sessions_later = omega (arith, ap (λ n. n.session) s.ids_same);
}

pub Later-trans : {n n1 n2 : NextIds} → LaterIds n n1 → LaterIds n1 n2 → LaterIds n n2
Later-trans s r = record {
  users_later = omega (arith, s.users_later, r.users_later);
  boards_later = omega (arith, s.boards_later, r.boards_later);
  statuses_later = omega (arith, s.statuses_later, r.statuses_later);
  tasks_later = omega (arith, s.tasks_later, r.tasks_later);
  sessions_later = omega (arith, s.sessions_later, r.sessions_later);
}

pub Idle-of_same : {v w : World} → Same v w → Idle v w
Idle-of_same s = record { tables_kept = s.tables_same; later = Later-of_same s }

pub Idle-trans : {u v w : World} → Idle u v → Idle v w → Idle u w
Idle-trans s r = record {
  tables_kept = r.tables_kept ∙ s.tables_kept;
  later = Later-trans s.later r.later;
}

-- The sequence gave this id.
pub record Fresh (sequence : NextIds → ℕ) (n n' : NextIds) (id : ℕ) : Type 0 where
  pub later : LaterIds n n'
  pub not_below : sequence n ≤ id
  pub below : id < sequence n'
