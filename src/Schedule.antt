-- ===== src/Schedule.antt =====
-- crates/nestforge-schedule/src/lib.rs: `ScheduleRegistry`. tokio spawns a task and gives a handle,
-- here its number among all that were spawned; a spawn outside a runtime panics, and poisons the
-- lock on the handles, which is held. The closure of a task is a key, a duration a number.
pub mod Handles
pub mod Running
mod Tests
use nestforge.Base.{
  ℕ, zero, suc, ◌+◌, Bool, true, false, List, [], ◌∷◌, ◌++◌, map, String, if◌then◌else◌, Result, ok,
  err, length, RwLock, unpoisoned,
}

pub data ScheduledTask : Type 0 where
  interval timeout : (name : String) (delay task : ℕ) → ScheduledTask

pub data ScheduledJobKind : Type 0 where
  interval_job timeout_job : ScheduledJobKind

pub record ScheduledJob : Type 0 where
  pub name : String
  pub kind : ScheduledJobKind
  pub delay : ℕ

pub record ScheduleRegistry : Type 0 where
  pub tasks : List ScheduledTask
  pub handles : RwLock (List ℕ)
  -- All that tokio was given to run, and whether it has been aborted.
  pub spawned : List (ScheduledTask × Bool)

abbrev pub empty_registry : ScheduleRegistry
empty_registry = record { tasks = []; handles = unpoisoned []; spawned = [] }

unfoldable pub every_named : String → ℕ → ℕ → ScheduleRegistry → ScheduleRegistry
every_named name every task s = record s { tasks = s.tasks ++ interval name every task ∷ [] }

unfoldable pub after_named : String → ℕ → ℕ → ScheduleRegistry → ScheduleRegistry
after_named name after task s = record s { tasks = s.tasks ++ timeout name after task ∷ [] }

abbrev pub job : ScheduledTask → ScheduledJob
job (interval name delay task) = record { name = name; kind = interval_job; delay = delay }
job (timeout name delay task) = record { name = name; kind = timeout_job; delay = delay }

unfoldable pub jobs : ScheduleRegistry → List ScheduledJob
jobs s = map job s.tasks

-- A panic is an error with its message.
unfoldable pub spawn_all :
    Bool → List ScheduledTask → ScheduleRegistry → Result String (Unit {0}) × ScheduleRegistry
spawn_all in_runtime [] s = (ok tt, s)
spawn_all in_runtime (t ∷ ts) s =
    let rest = spawn_all in_runtime ts (record s {
      handles = record s.handles { held = s.handles.held ++ length s.spawned ∷ [] };
      spawned = s.spawned ++ (t, false) ∷ [];
    }) in
    if in_runtime then rest else (
      err "there is no reactor running, must be called from the context of a Tokio 1.x runtime",
      record s { handles = record s.handles { poisoned = true } },
    )

unfoldable pub start : Bool → ScheduleRegistry → Result String (Unit {0}) × ScheduleRegistry
unfolding spawn_all
start in_runtime s =
    if s.handles.poisoned
    then (err "schedule handles should be writable", s)
    else elim s.handles.held [ [] ↦ spawn_all in_runtime s.tasks s | h ∷ hs ↦ (ok tt, s) ]

-- `handle.abort()`.
unfoldable pub abort : ℕ → List (ScheduledTask × Bool) → List (ScheduledTask × Bool)
abort i [] = []
abort zero ((t, aborted) ∷ rest) = (t, true) ∷ rest
abort (suc i) (x ∷ rest) = x ∷ abort i rest

unfoldable pub abort_all : List ℕ → List (ScheduledTask × Bool) → List (ScheduledTask × Bool)
unfolding abort
abort_all [] spawned = spawned
abort_all (h ∷ hs) spawned = abort_all hs (abort h spawned)

unfoldable pub shutdown : ScheduleRegistry → Result String (Unit {0}) × ScheduleRegistry
unfolding abort_all
shutdown s = if s.handles.poisoned then (err "schedule handles should be writable", s) else (
  ok tt,
  record s {
    handles = record s.handles { held = [] };
    spawned = abort_all s.handles.held s.spawned;
  },
)
