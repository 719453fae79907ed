-- ===== src/Sync/Coordinator/Progress.antt =====
-- The end of a load cycle of frontend/sync/sync_coordinator.cpp.
use hse_project_2026_chronos.Base.{◌≡◌, ◌⊎◌, refl, Bool, true, false, Option, text_eq, arith}
use hse_project_2026_chronos.Base.Int.{ℤ}
use hse_project_2026_chronos.Json.{Json}
use hse_project_2026_chronos.Local.Rows.{Env, Text}
use hse_project_2026_chronos.Local.Db.{Result, ok}
use hse_project_2026_chronos.Sync.Coordinator.{
  Coordinator, boards_get_all_url, statuses_get_all_url, tasks_get_all_url, is_boards, is_statuses,
  is_tasks, starts_with, stop_waiting, advance, announce, handle_response,
}

boards_endpoint :
    (is_boards boards_get_all_url ≡ true)
    × (is_statuses boards_get_all_url ≡ false)
    × (is_tasks boards_get_all_url ≡ false)
unfolding text_eq starts_with
boards_endpoint = (refl, refl, refl)

statuses_endpoint :
    (is_boards statuses_get_all_url ≡ false)
    × (is_statuses statuses_get_all_url ≡ true)
    × (is_tasks statuses_get_all_url ≡ false)
unfolding text_eq starts_with
statuses_endpoint = (refl, refl, refl)

tasks_endpoint :
    (is_boards tasks_get_all_url ≡ false)
    × (is_statuses tasks_get_all_url ≡ false)
    × (is_tasks tasks_get_all_url ≡ true)
unfolding text_eq starts_with
tasks_endpoint = (refl, refl, refl)

abbrev Waits : Bool → Bool → Bool → Coordinator → Type 0
Waits b s t c =
    (c.waiting_initial_boards ≡ b)
    × (c.waiting_initial_statuses ≡ s)
    × (c.waiting_initial_tasks ≡ t)

-- Where a cycle stands: it has ended, or it waits for the given answer.
abbrev EndedOr : Bool → Bool → Bool → Coordinator → Type 0
EndedOr b s t c = (Waits false false false c × (c.remote_loading ≡ false)) ⊎ Waits b s t c

module _ (env : Env) (document : Option Json) (code : ℤ) (c : Coordinator) where
  after_boards :
      Waits true false false c
      → (handle_response env boards_get_all_url document code c).0 ≡ ok tt
      → EndedOr false true false (handle_response env boards_get_all_url document code c).1
  unfolding handle_response stop_waiting advance announce
  after_boards w h = ground (arith, boards_endpoint)

  after_statuses :
      EndedOr false true false c
      → (handle_response env statuses_get_all_url document code c).0 ≡ ok tt
      → EndedOr false false true (handle_response env statuses_get_all_url document code c).1
  unfolding handle_response stop_waiting advance announce
  after_statuses w h = ground (arith, statuses_endpoint)

  after_tasks :
      EndedOr false false true c
      → (handle_response env tasks_get_all_url document code c).0 ≡ ok tt
      → (handle_response env tasks_get_all_url document code c).1.remote_loading ≡ false
  unfolding handle_response stop_waiting advance announce
  after_tasks w h = ground (arith, tasks_endpoint)

-- An answer of the server: what was read at that time, the document and the status code.
pub record Answer : Type 0 where
  pub env : Env
  pub document : Option Json
  pub code : ℤ

abbrev pub answer_to : Text → Answer → Coordinator → Result (Unit {0}) × Coordinator
answer_to endpoint a c = handle_response a.env endpoint a.document a.code c

abbrev pub state_after : Text → Answer → Coordinator → Coordinator
state_after endpoint a c = (answer_to endpoint a c).1

abbrev pub Returns : Text → Answer → Coordinator → Type 0
Returns endpoint a c = (answer_to endpoint a c).0 ≡ ok tt

-- Once a cycle waits for the boards, answers for the boards, the statuses and the tasks end it,
-- whatever their documents and codes, unless storing one of them throws.
pub load_cycle_ends :
    (c : Coordinator) (boards statuses tasks : Answer)
    → c.waiting_initial_boards ≡ true
    → c.waiting_initial_statuses ≡ false
    → c.waiting_initial_tasks ≡ false
    → Returns boards_get_all_url boards c
    → Returns statuses_get_all_url statuses (state_after boards_get_all_url boards c)
    → Returns tasks_get_all_url tasks
        (state_after statuses_get_all_url statuses (state_after boards_get_all_url boards c))
    → (state_after tasks_get_all_url tasks (
        state_after statuses_get_all_url statuses
          (state_after boards_get_all_url boards c))).remote_loading
      ≡ false
load_cycle_ends c boards statuses tasks b s t r1 r2 r3 =
    after_tasks tasks.env tasks.document tasks.code _
      (after_statuses statuses.env statuses.document statuses.code _
        (after_boards boards.env boards.document boards.code c (b, s, t) r1) r2)
      r3
