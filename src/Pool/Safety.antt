-- ===== src/Pool/Safety.antt =====
-- What the pool of backend/src/db/connection_pool.cpp promises to the threads that share it.
use hse_project_2026_chronos.Base.{
  ℕ, zero, suc, ◌+◌, ◌≤◌, ◌≡◌, ◌⊎◌, ◌≢◌, refl, subst, Bool, none, some, List, [], ◌∷◌, length, inl,
  inr, Bool-cases, arith,
}
use hse_project_2026_chronos.Pool.{Pool, new_pool, create_connection, count, Reachable}
use hse_project_2026_chronos.Pool.Invariant.{WellFormed, Reachable-WellFormed}

-- The pool that the constructor makes.
abbrev first_pool : ℕ → Pool
first_pool n = record {
  max_size = suc n;
  total_created = 1;
  free = 0 ∷ [];
  held = [];
  opening = 0;
  waiting = 0;
  woken = 0;
  notifying = 0;
  next = 1;
}

first_pool-WellFormed : (n : ℕ) → WellFormed (first_pool n)
unfolding count
first_pool-WellFormed n = record {
  counted = refl;
  bounded = omega arith;
  once = λ c. ground arith;
  fresh = λ c late. ground arith;
  awake = inl refl;
}

first_pool-eq :
    (n : ℕ) (attempts : ℕ → Bool) (p : Pool) → new_pool (suc n) attempts ≡ some p → first_pool n ≡ p
unfolding new_pool
first_pool-eq n attempts p h = elim (Bool-cases (create_connection attempts)) [
  | inl opened ↦ let e : some (first_pool n) ≡ some p = rw opened at h in cc
  | inr failed ↦ let e : none ≡ some p = rw failed at h in absurd cc
]

new_pool-WellFormed :
    (size : ℕ) (attempts : ℕ → Bool) (p : Pool) → new_pool size attempts ≡ some p → WellFormed p
unfolding new_pool
new_pool-WellFormed zero attempts p h = cc
new_pool-WellFormed (suc n) attempts p h =
    subst WellFormed (first_pool-eq n attempts p h) (first_pool-WellFormed n)

free_place : (xs : List ℕ) → xs ≢ [] → 1 ≤ length xs
free_place [] h = absurd (h refl)
free_place (x ∷ xs) h = omega arith

served :
    (p : Pool)
    → WellFormed p
    → p.waiting ≢ 0
    → (p.free ≢ []) ⊎ (p.total_created ≢ p.max_size)
    → p.woken + p.notifying ≢ 0
served p w waits (inl some_free) none_woken =
    absurd (ground (arith, w.awake, w.bounded, waits, none_woken, free_place p.free some_free))
served p w waits (inr room) none_woken =
    absurd (ground (arith, w.awake, w.bounded, waits, none_woken, room))

module _ (size : ℕ) (attempts : ℕ → Bool) (start p : Pool)
    (made : new_pool size attempts ≡ some start) (reached : Reachable start p) where
  -- Whatever the threads do with a pool that the constructor made, in any interleaving of their
  -- steps: the connections that count as created are the free ones, the ones that handles hold and
  -- the ones being opened; there are at most `max_size` of them; and no connection is free and held
  -- at once or in either list twice.
  pub connections_accounted :
      (p.total_created ≡ length p.free + length p.held + p.opening)
      × (p.total_created ≤ p.max_size)
      × ((c : ℕ) → count c p.free + count c p.held ≤ 1)
  connections_accounted =
      let w = Reachable-WellFormed start p reached (new_pool-WellFormed size attempts start made) in
      (w.counted, w.bounded, w.once)

  -- No wake-up is lost: in every such state in which a thread waits for a connection although one is
  -- free or may be opened, some thread has been woken and is about to look again, or has given a
  -- connection back and is about to wake one.
  pub no_lost_wake_up :
      p.waiting ≢ 0 → (p.free ≢ []) ⊎ (p.total_created ≢ p.max_size) → p.woken + p.notifying ≢ 0
  no_lost_wake_up waits place =
      let w = Reachable-WellFormed start p reached (new_pool-WellFormed size attempts start made) in
      served p w waits place
