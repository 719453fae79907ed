-- ===== src/Pool/Handles.antt =====
-- `ConnectionPool::Handle` of backend/src/db/connection_pool.cpp: moving handles about and
-- destroying them.
use hse_project_2026_chronos.Base.{
  ℕ, ◌+◌, ◌≡◌, Bool, true, false, Option, none, some, ◌==◌, if◌then◌else◌, arith,
}

-- `in_pool` is whether `pool_` is set, `conn` the connection that `c_` owns.
pub record Handle : Type 0 where
  pub in_pool : Bool
  pub conn : Option ℕ

-- What is left of a handle that was moved from.
abbrev pub moved_from : Handle
moved_from = record { in_pool = false; conn = none }

-- The connection that the destructor gives back to the pool.
unfoldable pub destroy : Handle → Option ℕ
destroy h = if h.in_pool then h.conn else none

-- The new handle and the old one.
unfoldable pub move_construct : Handle → Handle × Handle
move_construct other = (record { in_pool = other.in_pool; conn = other.conn }, moved_from)

-- The connection that is given back, and the two handles after it. `is_self` is `this == &other`.
unfoldable pub move_assign : Bool → Handle → Handle → Option ℕ × Handle × Handle
move_assign true this other = (none, this, other)
move_assign false this other = (
  (if this.in_pool then this.conn else none),
  record { in_pool = other.in_pool; conn = other.conn },
  moved_from,
)

-- How often a connection is given back: once or not at all.
unfoldable pub times : ℕ → Option ℕ → ℕ
times c none = 0
times c (some d) = if d == c then 1 else 0

-- Assigning one handle to another by a move loses no connection and gives none back twice: a
-- connection is given back by the assignment and by the end of the two handles as often as it would
-- be by the end of the two handles without it. The same holds of constructing a handle by a move.
pub move-destroy :
    (c : ℕ) (is_self : Bool) (this other : Handle)
    → (times c (move_assign is_self this other).0
          + times c (destroy (move_assign is_self this other).1)
          + times c (destroy (move_assign is_self this other).2)
        ≡ times c (destroy this) + times c (destroy other))
      × (times c (destroy (move_construct other).0) + times c (destroy (move_construct other).1)
          ≡ times c (destroy other))
unfolding move_assign move_construct destroy times
move-destroy c true this other = ground arith
move-destroy c false this other = ground arith
