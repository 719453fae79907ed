-- ===== src/Pool.antt =====
-- backend/src/db/connection_pool.cpp. A connection is a number; threads that share the pool are
-- counted by where they stand: opening a connection with the lock released, waiting on the condition
-- variable, woken from it and on their way back to the head of the loop of `acquire`, or in
-- `release` between the end of the lock and `notify_one`.
pub mod Invariant
pub mod Safety
pub mod Handles
mod Tests
use hse_project_2026_chronos.Base.{
  ℕ, zero, suc, ◌+◌, ◌-◌, ◌≡◌, Bool, true, false, Option, none, some, List, [], ◌∷◌, ◌++◌, ltb,
  ◌==◌, if◌then◌else◌,
}

pub record Pool : Type 0 where
  pub max_size : ℕ
  pub total_created : ℕ
  pub free : List ℕ
  pub held : List ℕ
  pub opening : ℕ
  pub waiting : ℕ
  pub woken : ℕ
  pub notifying : ℕ
  -- The next connection that is opened.
  pub next : ℕ

-- The loop of `create_connection`: `attempts i` is whether attempt i gives an open connection.
unfoldable pub try_connect : (ℕ → Bool) → ℕ → ℕ → Bool
try_connect attempts zero attempt = false
try_connect attempts (suc left) attempt =
    let later = try_connect attempts left (suc attempt) in if attempts attempt then true else later

unfoldable pub create_connection : (ℕ → Bool) → Bool
unfolding try_connect
create_connection attempts = try_connect attempts 30 1

-- The constructor; `none` is an exception.
unfoldable pub new_pool : ℕ → (ℕ → Bool) → Option Pool
new_pool zero attempts = none
new_pool (suc n) attempts =
    if create_connection attempts
    then some (record {
      max_size = suc n;
      total_created = 1;
      free = 0 ∷ [];
      held = [];
      opening = 0;
      waiting = 0;
      woken = 0;
      notifying = 0;
      next = 1;
    })
    else none

-- One round of `acquire` with the lock held: it ends with a connection, unlocks to open one, or waits.
take_or_wait : List ℕ → Pool → Pool
take_or_wait (c ∷ rest) p = record p { free = rest; held = c ∷ p.held }
take_or_wait [] p =
    if ltb p.total_created p.max_size
    then record p { total_created = suc p.total_created; opening = suc p.opening }
    else record p { waiting = suc p.waiting }

unfoldable pub acquire_round : Pool → Pool
unfolding take_or_wait
acquire_round p = take_or_wait p.free p

-- `notify_one` on the condition variable.
wake : ℕ → Pool → Pool
wake zero p = p
wake (suc n) p = record p { waiting = n; woken = suc p.woken }

unfoldable pub notify_one : Pool → Pool
unfolding wake
notify_one p = wake p.waiting p

-- The end of `acquire` in a thread that opens a connection.
unfoldable pub finish_opening : (ℕ → Bool) → Pool → Pool
finish_opening attempts p =
    if create_connection attempts
    then record p { opening = p.opening - 1; held = p.next ∷ p.held; next = suc p.next }
    else notify_one (record p { opening = p.opening - 1; total_created = p.total_created - 1 })

unfoldable pub remove_one : ℕ → List ℕ → List ℕ
remove_one c [] = []
remove_one c (x ∷ xs) = if x == c then xs else x ∷ remove_one c xs

-- What `release` of a connection that a handle held does with the lock held; `notify_one` follows when
-- the lock is free again.
unfoldable pub put_back : ℕ → Bool → Pool → Pool
put_back c true p = record p { free = p.free ++ c ∷ [] }
put_back c false p =
    if ltb 0 p.total_created then record p { total_created = p.total_created - 1 } else p

unfoldable pub release : ℕ → Bool → Pool → Pool
unfolding put_back
release c is_open p =
    put_back c is_open (record p { held = remove_one c p.held; notifying = suc p.notifying })

unfoldable pub count : ℕ → List ℕ → ℕ
count c [] = 0
count c (x ∷ xs) = if x == c then suc (count c xs) else count c xs

-- What one thread does before another may run.
pub data Step : Pool → Pool → Type 0 where
  enter : (p : Pool) → Step p (acquire_round p)
  wake_up : (p : Pool) (n : ℕ) → p.woken ≡ suc n → Step p (acquire_round (record p { woken = n }))
  spurious_wake_up :
      (p : Pool) (n : ℕ)
      → p.waiting ≡ suc n
      → Step p (record p { waiting = n; woken = suc p.woken })
  finish :
      (p : Pool) (attempts : ℕ → Bool) (n : ℕ)
      → p.opening ≡ suc n
      → Step p (finish_opening attempts p)
  give_back :
      (p : Pool) (c : ℕ) (is_open : Bool) (n : ℕ)
      → count c p.held ≡ suc n
      → Step p (release c is_open p)
  notify :
      (p : Pool) (n : ℕ) → p.notifying ≡ suc n → Step p (notify_one (record p { notifying = n }))

pub data Reachable (start : Pool) : Pool → Type 0 where
  here : Reachable start start
  after : (p q : Pool) → Reachable start p → Step p q → Reachable start q
