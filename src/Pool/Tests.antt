-- ===== src/Pool/Tests.antt =====
-- A run of a pool of one connection: three threads ask for it, and the one that has it gives it back.
use hse_project_2026_chronos.Base.{
  ℕ, ◌+◌, ◌≤◌, ◌≡◌, ◌≢◌, refl, subst, arith, true, false, some, [], ◌∷◌, length, inl, ◌==◌,
}
use hse_project_2026_chronos.Pool.{
  Pool, try_connect, create_connection, new_pool, acquire_round, take_or_wait, release, put_back,
  notify_one, wake, remove_one, count, Step, enter, give_back, notify, Reachable, here, after,
}
use hse_project_2026_chronos.Pool.Safety.{connections_accounted, no_lost_wake_up}
use hse_project_2026_chronos.Pool.Handles.{
  Handle, times, destroy, move_assign, move_construct, move-destroy,
}

abbrev one_place : Pool
one_place = record {
  max_size = 1;
  total_created = 1;
  free = 0 ∷ [];
  held = [];
  opening = 0;
  waiting = 0;
  woken = 0;
  notifying = 0;
  next = 1;
}

abbrev taken : Pool
taken = record one_place { free = []; held = 0 ∷ [] }

abbrev two_wait : Pool
two_wait = record taken { waiting = 2 }

abbrev given_back : Pool
given_back = record two_wait { free = 0 ∷ []; held = []; notifying = 1 }

abbrev one_woken : Pool
one_woken = record given_back { notifying = 0; waiting = 1; woken = 1 }

made : new_pool 1 (λ attempt. attempt == 3) ≡ some one_place
unfolding new_pool create_connection try_connect
made = refl

take_run : acquire_round one_place ≡ taken
unfolding acquire_round take_or_wait
take_run = refl

wait_run : acquire_round taken ≡ record taken { waiting = 1 }
unfolding acquire_round take_or_wait
wait_run = refl

wait_again_run : acquire_round (record taken { waiting = 1 }) ≡ two_wait
unfolding acquire_round take_or_wait
wait_again_run = refl

release_run : release 0 true two_wait ≡ given_back
unfolding release put_back remove_one
release_run = refl

notify_run : notify_one (record given_back { notifying = 0 }) ≡ one_woken
unfolding notify_one wake
notify_run = refl

one_held : count 0 two_wait.held ≡ 1
unfolding count
one_held = refl

given_back-reached : Reachable one_place given_back
given_back-reached =
    after two_wait given_back
      (after (record taken { waiting = 1 }) two_wait
        (after taken (record taken { waiting = 1 })
          (after one_place taken here (subst (Step one_place) take_run (enter one_place)))
          (subst (Step taken) wait_run (enter taken)))
        (subst (Step (record taken { waiting = 1 })) wait_again_run
          (enter (record taken { waiting = 1 }))))
      (subst (Step two_wait) release_run (give_back two_wait 0 true 0 one_held))

one_woken-reached : Reachable one_place one_woken
one_woken-reached =
    after given_back one_woken given_back-reached
      (subst (Step given_back) notify_run (notify given_back 0 refl))

connections_accounted_example :
    (one_woken.total_created ≡ length one_woken.free + length one_woken.held + one_woken.opening)
    × (one_woken.total_created ≤ one_woken.max_size)
    × ((c : ℕ) → count c one_woken.free + count c one_woken.held ≤ 1)
connections_accounted_example =
    connections_accounted 1 (λ attempt. attempt == 3) one_place one_woken made one_woken-reached

not_empty : given_back.free ≢ []
not_empty e = cc

still_waiting : given_back.waiting ≢ 0
still_waiting e = omega arith

no_lost_wake_up_example : given_back.woken + given_back.notifying ≢ 0
no_lost_wake_up_example =
    no_lost_wake_up 1 (λ attempt. attempt == 3) one_place given_back made given_back-reached
      still_waiting (inl not_empty)

abbrev first_handle : Handle
first_handle = record { in_pool = true; conn = some 4 }

abbrev second_handle : Handle
second_handle = record { in_pool = true; conn = some 5 }

move-destroy_example :
    (times 4 (move_assign false first_handle second_handle).0
        + times 4 (destroy (move_assign false first_handle second_handle).1)
        + times 4 (destroy (move_assign false first_handle second_handle).2)
      ≡ times 4 (destroy first_handle) + times 4 (destroy second_handle))
    × (times 4 (destroy (move_construct second_handle).0)
          + times 4 (destroy (move_construct second_handle).1)
        ≡ times 4 (destroy second_handle))
move-destroy_example = move-destroy 4 false first_handle second_handle
