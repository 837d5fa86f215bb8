-- ===== src/Schedule/Running.antt =====
-- Which tasks run: none of those registered runs twice, and a shutdown aborts all that run.
use nestforge.Base.{
  ℕ, ◌≡◌, refl, ap, sym, subst, ◌∙◌, Bool, true, false, List, [], ◌∷◌, ◌++◌, append_assoc,
  append-nil, String, Result, ok, err, length, Bool-cases, inl, inr,
}
use nestforge.Schedule.{
  ScheduledTask, interval, timeout, ScheduleRegistry, empty_registry, every_named, after_named,
  spawn_all, start, abort_all, shutdown,
}
use nestforge.Schedule.Handles.{marked, range, length-marked, spawn_all_lem, abort_all-started}

-- What has been spawned is some tasks that were aborted, and then the first of the registered tasks,
-- each once, not aborted and with its handle kept.
pub record IsStarted (s : ScheduleRegistry) : Type 0 where
  pub dead : List ScheduledTask
  pub started : List ScheduledTask
  pub later : List ScheduledTask
  pub registered : s.tasks ≡ started ++ later
  pub spawned : s.spawned ≡ marked true dead ++ marked false started
  pub handled : s.handles.held ≡ range (length dead) (length started)

-- The operations of the registry, as steps; a `start` may stand outside a runtime.
pub data Step : ScheduleRegistry → ScheduleRegistry → Type 0 where
  schedules_every :
      (name : String) (every task : ℕ) (s : ScheduleRegistry)
      → Step s (every_named name every task s)
  schedules_after :
      (name : String) (after task : ℕ) (s : ScheduleRegistry)
      → Step s (after_named name after task s)
  starts : (in_runtime : Bool) (s : ScheduleRegistry) → Step s (start in_runtime s).1
  shuts_down : (s : ScheduleRegistry) → Step s (shutdown s).1

pub data Reachable : ScheduleRegistry → Type 0 where
  fresh : Reachable empty_registry
  step : {s s' : ScheduleRegistry} → Reachable s → Step s s' → Reachable s'

-- Where the lock on the handles is not poisoned, the registry is as `IsStarted` says.
abbrev Sound : ScheduleRegistry → Type 0
Sound s = s.handles.poisoned ≡ false → IsStarted s

-- The registry as an operation leaves it, where that is known.
Sound-subst : (p q : Result String (Unit {0}) × ScheduleRegistry) → p ≡ q → Sound q.1 → Sound p.1
Sound-subst p q e sound = subst (λ r. Sound r.1) (sym e) sound

IsStarted-shutdown :
    (s : ScheduleRegistry)
    → IsStarted s
    → IsStarted (record s {
      handles = record s.handles { held = [] };
      spawned = abort_all s.handles.held s.spawned;
    })
IsStarted-shutdown s d = record {
  dead = d.dead ++ d.started;
  started = [];
  later = s.tasks;
  registered = refl;
  spawned =
      rw (d.handled, d.spawned) (abort_all-started d.dead d.started)
      ∙ sym (append-nil (marked true (d.dead ++ d.started)));
  handled = refl;
}

shutdown-Sound : (s : ScheduleRegistry) → Sound s → Sound (shutdown s).1
unfolding shutdown
shutdown-Sound s sound = elim (Bool-cases s.handles.poisoned) [
  | inl broken ↦
      Sound-subst (shutdown s) (err "schedule handles should be writable", s)
        (simp (broken, shutdown)) sound
  | inr whole ↦
      Sound-subst (shutdown s)
        (
          ok tt,
          record s {
            handles = record s.handles { held = [] };
            spawned = abort_all s.handles.held s.spawned;
          },
        )
        (simp (whole, shutdown)) (λ _. IsStarted-shutdown s (sound whole))
]

range-nil : (n : ℕ) (ts : List ScheduledTask) → range n (length ts) ≡ [] → ts ≡ []
range-nil n [] h = refl
range-nil n (t ∷ ts) h = cc

IsStarted-start :
    (s : ScheduleRegistry)
    → s.handles.held ≡ []
    → IsStarted s
    → IsStarted (record s {
      handles = record s.handles {
        held = s.handles.held ++ range (length s.spawned) (length s.tasks);
      };
      spawned = s.spawned ++ marked false s.tasks;
    })
IsStarted-start s idle d =
    let none_started = range-nil (length d.dead) d.started (sym d.handled ∙ idle) in
    let all_dead : s.spawned ≡ marked true d.dead =
      d.spawned
      ∙ ap (λ ts. marked true d.dead ++ marked false ts) none_started
      ∙ append-nil (marked true d.dead) in
    record {
      dead = d.dead;
      started = s.tasks;
      later = [];
      registered = sym (append-nil s.tasks);
      spawned = ap (λ l. l ++ marked false s.tasks) all_dead;
      handled =
          ap (λ hs. hs ++ range (length s.spawned) (length s.tasks)) idle
          ∙ ap (λ n. range n (length s.tasks)) (ap length all_dead ∙ length-marked true d.dead);
    }

spawn_all-Sound :
    (in_runtime : Bool) (s : ScheduleRegistry)
    → s.handles.held ≡ []
    → IsStarted s
    → Sound (spawn_all in_runtime s.tasks s).1
unfolding spawn_all
spawn_all-Sound true s idle d =
    Sound-subst (spawn_all true s.tasks s) _ (spawn_all_lem s.tasks s)
      (λ _. IsStarted-start s idle d)
spawn_all-Sound false s idle d = outside s.tasks
  where
    outside : (ts : List ScheduledTask) → Sound (spawn_all false ts s).1
    outside [] open_so = d
    outside (t ∷ ts) open_so = cc

start-Sound : (in_runtime : Bool) (s : ScheduleRegistry) → Sound s → Sound (start in_runtime s).1
unfolding start
start-Sound in_runtime s sound = elim (Bool-cases s.handles.poisoned) [
  | inl broken ↦
      Sound-subst (start in_runtime s) (err "schedule handles should be writable", s)
        (simp (broken, start)) sound
  | inr whole ↦ go whole s.handles.held refl
]
  where
    go :
        s.handles.poisoned ≡ false
        → (hs : List ℕ) → s.handles.held ≡ hs
        → Sound (start in_runtime s).1
    go whole [] idle =
        Sound-subst (start in_runtime s) (spawn_all in_runtime s.tasks s)
          (simp (whole, idle, start)) (spawn_all-Sound in_runtime s idle (sound whole))
    go whole (h ∷ hs) busy =
        Sound-subst (start in_runtime s) (ok tt, s) (simp (whole, busy, start)) sound

-- A task that is registered now starts later.
IsStarted-push :
    (t : ScheduledTask) (s : ScheduleRegistry)
    → IsStarted s
    → IsStarted (record s { tasks = s.tasks ++ t ∷ [] })
IsStarted-push t s d = record {
  dead = d.dead;
  started = d.started;
  later = d.later ++ t ∷ [];
  registered = ap (λ l. l ++ t ∷ []) d.registered ∙ append_assoc d.started d.later (t ∷ []);
  spawned = d.spawned;
  handled = d.handled;
}

Step-Sound : {s s' : ScheduleRegistry} → Step s s' → Sound s → Sound s'
unfolding every_named after_named
Step-Sound (schedules_every name every task s) sound =
    λ open_so. IsStarted-push (interval name every task) s (sound open_so)
Step-Sound (schedules_after name after task s) sound =
    λ open_so. IsStarted-push (timeout name after task) s (sound open_so)
Step-Sound (starts in_runtime s) sound = start-Sound in_runtime s sound
Step-Sound (shuts_down s) sound = shutdown-Sound s sound

Reachable-Sound : {s : ScheduleRegistry} → Reachable s → Sound s
Reachable-Sound fresh = λ open_so. record {
  dead = [];
  started = [];
  later = [];
  registered = refl;
  spawned = refl;
  handled = refl;
}
Reachable-Sound (step r st) = Step-Sound st (Reachable-Sound r)

-- Whatever is registered, started and shut down, in whatever order, and as long as no `start` has
-- panicked: what has been spawned and not aborted is the first of the registered tasks, each once,
-- however often `start` is called, and it is just these that have a handle.
pub Reachable-IsStarted :
    {s : ScheduleRegistry} → Reachable s → s.handles.poisoned ≡ false → IsStarted s
Reachable-IsStarted r = Reachable-Sound r

-- A shutdown of a registry that a program can reach aborts all that runs, and a `start` after it, in
-- a runtime, spawns every registered task once.
pub start-shutdown :
    {s : ScheduleRegistry}
    → Reachable s
    → s.handles.poisoned ≡ false
    → (dead : List ScheduledTask) × ((shutdown s).1.spawned ≡ marked true dead)
      × ((start true (shutdown s).1).1.spawned ≡ marked true dead ++ marked false s.tasks)
unfolding start shutdown
start-shutdown {s} r whole =
    let d = Reachable-IsStarted r whole in
    let stopped : abort_all s.handles.held s.spawned ≡ marked true (d.dead ++ d.started) =
      rw (d.handled, d.spawned) (abort_all-started d.dead d.started) in
    let off : ScheduleRegistry = record s {
      handles = record s.handles { held = [] };
      spawned = abort_all s.handles.held s.spawned;
    } in
    let off_so : shutdown s ≡ (ok tt, off) = simp (whole, shutdown) in
    let on_so : start true off ≡ spawn_all true off.tasks off = simp (whole, start) in
    (
      d.dead ++ d.started,
      ap (λ (p : Result String (Unit {0}) × ScheduleRegistry). p.1.spawned) off_so ∙ stopped,
      ap (λ (p : Result String (Unit {0}) × ScheduleRegistry). (start true p.1).1.spawned) off_so
          ∙ ap (λ (p : Result String (Unit {0}) × ScheduleRegistry). p.1.spawned)
              (on_so ∙ spawn_all_lem s.tasks off)
          ∙ ap (λ l. l ++ marked false s.tasks) stopped,
    )
