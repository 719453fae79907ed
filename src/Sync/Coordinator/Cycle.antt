-- ===== src/Sync/Coordinator/Cycle.antt =====
-- The load cycle of frontend/sync/sync_coordinator.cpp: boards, then statuses, then tasks.
use hse_project_2026_chronos.Base.{
  ℕ, ◌+◌, ◌≡◌, refl, ◌∙◌, Bool, true, false, Option, List, [], ◌∷◌, arith,
}
use hse_project_2026_chronos.Base.Int.{ℤ}
use hse_project_2026_chronos.Json.{Json, Members}
use hse_project_2026_chronos.Local.Rows.{Env, Text}
use hse_project_2026_chronos.Local.Db.{Result, ok, thrown}
use hse_project_2026_chronos.Sync.Wire.{Push, Entity, board, Operation}
use hse_project_2026_chronos.Sync.Users
use hse_project_2026_chronos.Sync.Boards
use hse_project_2026_chronos.Sync.Statuses
use hse_project_2026_chronos.Sync.Tasks
use hse_project_2026_chronos.Sync.Coordinator.{
  Coordinator, emit_pushes, clear_local_data, load_all, begin_user_session, load_current_user,
  sync_all, stop_waiting, advance, announce, handle_response, push_children, handle_sync_response,
  on_periodic_sync, push_response,
}

abbrev bit : Bool → ℕ
bit true = 1
bit false = 0

-- A cycle that runs waits for one answer, and an idle coordinator for none.
abbrev pub IsCycle : Coordinator → Type 0
IsCycle c =
    bit c.waiting_initial_boards + bit c.waiting_initial_statuses + bit c.waiting_initial_tasks
    ≡ bit c.remote_loading

abbrev Flags : Type 0
Flags = Bool × Bool × Bool × Bool × Bool

-- The flags of the cycle; pushes and the database leave them alone.
abbrev pub flags : Coordinator → Flags
flags c = (
  c.waiting_initial_boards, c.waiting_initial_statuses, c.waiting_initial_tasks, c.remote_loading,
  c.emit_initial_after_load,
)

flags-emit_pushes : (ps : List Push) (c : Coordinator) → flags (emit_pushes ps c) ≡ flags c
unfolding emit_pushes
flags-emit_pushes [] c = refl
flags-emit_pushes (p ∷ ps) c = flags-emit_pushes ps _

load_all-IsCycle : (e : Bool) (c : Coordinator) → IsCycle c → IsCycle (load_all e c)
unfolding load_all
load_all-IsCycle e c h = ground arith

stop_waiting-IsCycle :
    (endpoint : Text) (c : Coordinator) → IsCycle c → IsCycle (stop_waiting endpoint c)
unfolding stop_waiting
stop_waiting-IsCycle endpoint c h = ground arith

advance-IsCycle : (endpoint : Text) (c : Coordinator) → IsCycle c → IsCycle (advance endpoint c)
unfolding advance
advance-IsCycle endpoint c h = ground arith

announce-IsCycle : (endpoint : Text) (c : Coordinator) → IsCycle c → IsCycle (announce endpoint c)
unfolding announce
announce-IsCycle endpoint c h = ground arith

IsCycle-of_flags : (c d : Coordinator) → flags d ≡ flags c → IsCycle c → IsCycle d
IsCycle-of_flags c d e h = ground arith

handle_response-IsCycle :
    (env : Env) (endpoint : Text) (document : Option Json) (code : ℤ) (c : Coordinator)
    → IsCycle c
    → IsCycle (handle_response env endpoint document code c).1
unfolding handle_response stop_waiting advance announce
handle_response-IsCycle env endpoint document code c h = ground arith

push_children-flags :
    (env : Env) (entity : Entity) (c : Coordinator) → flags (push_children env entity c) ≡ flags c
unfolding push_children
push_children-flags env board c =
    flags-emit_pushes (Tasks.sync env c.db) (emit_pushes (Statuses.sync env c.db) c)
    ∙ flags-emit_pushes (Statuses.sync env c.db) c
push_children-flags env _ c = refl

handle_sync_response-IsCycle :
    (env : Env) (response : Json) (code : ℤ) (entity : Entity) (local_id : ℤ)
    (operation : Operation) (c : Coordinator)
    → IsCycle c
    → IsCycle (handle_sync_response env response code entity local_id operation c).1
unfolding handle_sync_response
handle_sync_response-IsCycle env response code entity local_id operation c h = ground (
  arith,
  push_children-flags env entity
      (record c { db = (push_response env response code entity local_id operation c.db).1 }),
)

sync_all-flags : (env : Env) (c : Coordinator) → flags (sync_all env c) ≡ flags c
unfolding sync_all
sync_all-flags env c =
    let boards = emit_pushes (Boards.sync env c.db) c in
    let statuses = emit_pushes (Statuses.sync env c.db) boards in
    let tasks = emit_pushes (Tasks.sync env c.db) statuses in
    flags-emit_pushes (Users.sync env c.pending_password c.db).0 tasks
    ∙ flags-emit_pushes (Tasks.sync env c.db) statuses
    ∙ flags-emit_pushes (Statuses.sync env c.db) boards
    ∙ flags-emit_pushes (Boards.sync env c.db) c

on_periodic_sync-IsCycle :
    (env : Env) (has_token : Bool) (c : Coordinator)
    → IsCycle c
    → IsCycle (on_periodic_sync env has_token c)
unfolding on_periodic_sync load_all
on_periodic_sync-IsCycle env has_token c h = ground (arith, sync_all-flags env c)

begin_user_session-IsCycle :
    (env : Env) (user_obj : Members) (c : Coordinator)
    → IsCycle c
    → IsCycle (begin_user_session env user_obj c).1
unfolding begin_user_session clear_local_data load_all
begin_user_session-IsCycle env user_obj c h = ground arith

load_current_user-IsCycle : (c : Coordinator) → IsCycle c → IsCycle (load_current_user c)
unfolding load_current_user
load_current_user-IsCycle c h = ground arith

-- The calls that reach the coordinator: from the screens, the network and the timer.
pub data Call : Type 0 where
  log_in : Members → Call
  start : Call
  load : Bool → Call
  reply : Text → Option Json → ℤ → Call
  push_reply : Json → ℤ → Entity → ℤ → Operation → Call
  push : Call
  tick : Bool → Call
  log_out : Call

-- A call with its end, which is an exception where a manager throws.
unfoldable pub perform : Env → Call → Coordinator → Result (Unit {0}) × Coordinator
perform env (log_in user_obj) c = begin_user_session env user_obj c
perform env start c = (ok tt, load_current_user c)
perform env (load emit_initial_data) c = (ok tt, load_all emit_initial_data c)
perform env (reply endpoint document code) c = handle_response env endpoint document code c
perform env (push_reply response code entity local_id operation) c =
    handle_sync_response env response code entity local_id operation c
perform env push c = (ok tt, sync_all env c)
perform env (tick has_token) c = (ok tt, on_periodic_sync env has_token c)
perform env log_out c = (ok tt, clear_local_data c)

-- Each call comes with what it reads of Qt and the clock. The calls are slots, and Qt lets no
-- exception leave a slot: a call that throws is the last one, in the state that it had reached.
unfoldable pub run : List (Env × Call) → Coordinator → Coordinator
unfolding perform
run [] c = c
run ((env, call) ∷ calls) c = elim ((perform env call c).0) [
  | ok _ ↦ run calls (perform env call c).1
  | thrown ↦ (perform env call c).1
]

perform-IsCycle :
    (env : Env) (call : Call) (c : Coordinator) → IsCycle c → IsCycle (perform env call c).1
unfolding perform clear_local_data
perform-IsCycle env (log_in user_obj) c h = begin_user_session-IsCycle env user_obj c h
perform-IsCycle env start c h = load_current_user-IsCycle c h
perform-IsCycle env (load e) c h = load_all-IsCycle e c h
perform-IsCycle env (reply endpoint document code) c h =
    handle_response-IsCycle env endpoint document code c h
perform-IsCycle env (push_reply response code entity local_id operation) c h =
    handle_sync_response-IsCycle env response code entity local_id operation c h
perform-IsCycle env push c h = IsCycle-of_flags c (sync_all env c) (sync_all-flags env c) h
perform-IsCycle env (tick has_token) c h = on_periodic_sync-IsCycle env has_token c h
perform-IsCycle env log_out c h = h

IsCycle-either :
    (end : Result (Unit {0})) (c d : Coordinator)
    → IsCycle c
    → IsCycle d
    → IsCycle (elim end [ ok _ ↦ d | thrown ↦ c ])
IsCycle-either (ok _) c d h k = k
IsCycle-either thrown c d h k = h

-- After any calls, up to one that throws and with that one, a coordinator that started well waits for
-- exactly one answer of the load cycle while `remote_loading` is set, and for none while it is not.
pub run-IsCycle : (calls : List (Env × Call)) (c : Coordinator) → IsCycle c → IsCycle (run calls c)
unfolding run
run-IsCycle [] c h = h
run-IsCycle ((env, call) ∷ calls) c h =
    let after = perform-IsCycle env call c h in
    IsCycle-either (perform env call c).0 _ _ after (run-IsCycle calls (perform env call c).1 after)
