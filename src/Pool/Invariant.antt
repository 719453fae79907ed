-- ===== src/Pool/Invariant.antt =====
-- The invariant of the pool of backend/src/db/connection_pool.cpp.
use hse_project_2026_chronos.Base.{
  ℕ, zero, suc, ◌+◌, ◌≤◌, ◌≡◌, ◌⊎◌, refl, ap, Bool, true, false, List, [], ◌∷◌, ◌++◌, ltb, length,
  length-append, inl, inr, Bool-cases, arith,
}
use hse_project_2026_chronos.Pool.{
  Pool, create_connection, acquire_round, take_or_wait, notify_one, wake, finish_opening,
  remove_one, put_back, release, count, Step, enter, wake_up, spurious_wake_up, finish, give_back,
  notify, Reachable, here, after,
}

-- No connection is lost, none is given out twice, there are at most `max_size`, and a thread that
-- waits while the pool could serve it has, for each free place, one thread in front of it that is
-- woken or about to notify one.
pub record WellFormed (p : Pool) : Type 0 where
  pub counted : p.total_created ≡ length p.free + length p.held + p.opening
  pub bounded : p.total_created ≤ p.max_size
  pub once : (c : ℕ) → count c p.free + count c p.held ≤ 1
  pub fresh : (c : ℕ) → p.next ≤ c → count c p.free + count c p.held ≡ 0
  pub awake :
      (p.waiting ≡ 0) ⊎ (length p.free + p.max_size ≤ p.woken + p.notifying + p.total_created)

count-append : (c : ℕ) (xs ys : List ℕ) → count c (xs ++ ys) ≡ count c xs + count c ys
unfolding count
count-append c [] ys = omega arith
count-append c (x ∷ xs) ys = ground (arith, count-append c xs ys)

count-remove_one :
    (c d : ℕ) (xs : List ℕ) (n : ℕ)
    → count c xs ≡ suc n
    → count d xs ≡ count d (remove_one c xs) + count d (c ∷ [])
unfolding count remove_one
count-remove_one c d [] n h = absurd (omega arith)
count-remove_one c d (x ∷ xs) n h = ground (arith, count-remove_one c d xs n)

length-remove_one :
    (c : ℕ) (xs : List ℕ) (n : ℕ) → count c xs ≡ suc n → length xs ≡ suc (length (remove_one c xs))
unfolding count remove_one
length-remove_one c [] n h = absurd (omega arith)
length-remove_one c (x ∷ xs) n h = ground (arith, length-remove_one c xs n)

-- A thread at the head of the loop of `acquire`, or a notification, makes up for one free place.
record AlmostWellFormed (p : Pool) : Type 0 where
  counted : p.total_created ≡ length p.free + length p.held + p.opening
  bounded : p.total_created ≤ p.max_size
  once : (c : ℕ) → count c p.free + count c p.held ≤ 1
  fresh : (c : ℕ) → p.next ≤ c → count c p.free + count c p.held ≡ 0
  awake :
      (p.waiting ≡ 0) ⊎ (length p.free + p.max_size ≤ suc (p.woken + p.notifying + p.total_created))

weaker : (p : Pool) → WellFormed p → AlmostWellFormed p
weaker p w = record {
  counted = w.counted;
  bounded = w.bounded;
  once = w.once;
  fresh = w.fresh;
  awake = ground (arith, w.awake);
}

take-WellFormed :
    (free : List ℕ) (p : Pool)
    → p.free ≡ free
    → AlmostWellFormed p
    → WellFormed (take_or_wait free p)
unfolding take_or_wait count
take-WellFormed (c ∷ rest) p e w =
    let counted : p.total_created ≡ length (c ∷ rest) + length p.held + p.opening =
      rw e at w.counted in
    let once : (d : ℕ) → count d (c ∷ rest) + count d p.held ≤ 1 = rw e at w.once in
    let fresh : (d : ℕ) → p.next ≤ d → count d (c ∷ rest) + count d p.held ≡ 0 = rw e at w.fresh in
    let awake : (p.waiting ≡ 0)
        ⊎ (length (c ∷ rest) + p.max_size ≤ suc (p.woken + p.notifying + p.total_created)) =
      rw e at w.awake in
    record {
      counted = omega (arith, counted);
      bounded = w.bounded;
      once = λ d. ground (arith, once d);
      fresh = λ d h. ground (arith, fresh d h);
      awake = ground (arith, awake);
    }
take-WellFormed [] p e w = elim (Bool-cases (ltb p.total_created p.max_size)) [
  | inl room ↦ rw room (record {
    counted = omega (arith, w.counted);
    bounded = ground (arith, room);
    once = w.once;
    fresh = w.fresh;
    awake = ground (arith, w.awake);
  })
  | inr full ↦ rw full (record {
    counted = w.counted;
    bounded = w.bounded;
    once = w.once;
    fresh = w.fresh;
    awake =
        let none_free : length p.free ≡ 0 = ap length e in inr (ground (arith, full, none_free));
  })
]

wake-WellFormed :
    (waiting : ℕ) (p : Pool)
    → p.waiting ≡ waiting
    → AlmostWellFormed p
    → WellFormed (wake waiting p)
unfolding wake
wake-WellFormed zero p e w = record {
  counted = w.counted;
  bounded = w.bounded;
  once = w.once;
  fresh = w.fresh;
  awake = inl e;
}
wake-WellFormed (suc n) p e w = record {
  counted = w.counted;
  bounded = w.bounded;
  once = w.once;
  fresh = w.fresh;
  awake = ground (arith, w.awake);
}

finish_opening-WellFormed :
    (attempts : ℕ → Bool) (p : Pool) (n : ℕ)
    → p.opening ≡ suc n
    → WellFormed p
    → WellFormed (finish_opening attempts p)
unfolding finish_opening notify_one count
finish_opening-WellFormed attempts p n e w = elim (Bool-cases (create_connection attempts)) [
  | inl opened ↦ rw opened (record {
    counted = omega (arith, w.counted, e);
    bounded = w.bounded;
    once = λ d. ground (arith, w.once d, w.fresh d);
    fresh = λ d h. ground (arith, w.fresh d);
    awake = ground (arith, w.awake);
  })
  | inr failed ↦ rw failed (
      wake-WellFormed p.waiting _ refl (record {
        counted = omega (arith, w.counted, e);
        bounded = omega (arith, w.bounded);
        once = w.once;
        fresh = w.fresh;
        awake = ground (arith, w.awake, w.counted, e);
      }))
]

release-WellFormed :
    (c : ℕ) (is_open : Bool) (p : Pool) (n : ℕ)
    → count c p.held ≡ suc n
    → WellFormed p
    → WellFormed (release c is_open p)
unfolding release put_back
release-WellFormed c true p n h w = record {
  counted = omega (arith, w.counted, length-append p.free (c ∷ []), length-remove_one c p.held n h);
  bounded = w.bounded;
  once =
      λ d. omega (arith, w.once d, count-append d p.free (c ∷ []), count-remove_one c d p.held n h);
  fresh = λ d late.
      omega
        (arith, w.fresh d late, count-append d p.free (c ∷ []), count-remove_one c d p.held n h);
  awake = ground (arith, w.awake, length-append p.free (c ∷ []));
}
release-WellFormed c false p n h w =
    let some_created : ltb 0 p.total_created ≡ true =
      ground (arith, w.counted, length-remove_one c p.held n h) in
    rw some_created (record {
      counted = omega (arith, w.counted, length-remove_one c p.held n h);
      bounded = omega (arith, w.bounded);
      once = λ d. omega (arith, w.once d, count-remove_one c d p.held n h);
      fresh = λ d late. omega (arith, w.fresh d late, count-remove_one c d p.held n h);
      awake = ground (arith, w.awake, w.counted, length-remove_one c p.held n h);
    })

Step-WellFormed : {p q : Pool} → Step p q → WellFormed p → WellFormed q
unfolding acquire_round notify_one
Step-WellFormed (enter p) w = take-WellFormed p.free p refl (weaker p w)
Step-WellFormed (wake_up p n e) w =
    take-WellFormed p.free (record p { woken = n }) refl
      (record {
        counted = w.counted;
        bounded = w.bounded;
        once = w.once;
        fresh = w.fresh;
        awake = ground (arith, w.awake, e);
      })
Step-WellFormed (spurious_wake_up p n e) w = record {
  counted = w.counted;
  bounded = w.bounded;
  once = w.once;
  fresh = w.fresh;
  awake = ground (arith, w.awake, e);
}
Step-WellFormed (finish p attempts n e) w = finish_opening-WellFormed attempts p n e w
Step-WellFormed (give_back p c is_open n h) w = release-WellFormed c is_open p n h w
Step-WellFormed (notify p n e) w =
    wake-WellFormed p.waiting (record p { notifying = n }) refl
      (record {
        counted = w.counted;
        bounded = w.bounded;
        once = w.once;
        fresh = w.fresh;
        awake = ground (arith, w.awake, e);
      })

-- In every state that the threads reach from a state that is well formed, by any interleaving of
-- their steps: the connections that were created are the free ones, the ones that handles hold and
-- the ones being opened, at most `max_size` of them; no connection is in two places; and when a
-- thread waits for a connection while places are free or may be opened, at least as many threads
-- are woken and on their way back to take them, or about to notify one.
pub Reachable-WellFormed : (start p : Pool) → Reachable start p → WellFormed start → WellFormed p
Reachable-WellFormed start _ here w = w
Reachable-WellFormed start _ (after p q reached step) w =
    Step-WellFormed step (Reachable-WellFormed start p reached w)
