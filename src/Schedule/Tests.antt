-- ===== src/Schedule/Tests.antt =====
-- The theorems on schedules at concrete inputs, and a unit test of
-- crates/nestforge-schedule/src/lib.rs.
use nestforge.Base.{◌≡◌, refl, true, [], ◌∷◌}
use nestforge.Schedule.{
  interval_job, timeout_job, ScheduleRegistry, empty_registry, every_named, after_named, jobs,
  spawn_all, start,
}
use nestforge.Schedule.Running.{
  IsStarted, Reachable, fresh, step, schedules_every, schedules_after, starts, Reachable-IsStarted,
}

abbrev registry : ScheduleRegistry
registry = after_named "warmup" 5 2 (every_named "metrics" 30 1 empty_registry)

-- `registry_tracks_named_jobs`.
tracked_jobs :
    jobs registry
    ≡ record { name = "metrics"; kind = interval_job; delay = 30 }
      ∷ record { name = "warmup"; kind = timeout_job; delay = 5 }
      ∷ []
unfolding jobs every_named after_named
tracked_jobs = refl

-- The registry started twice.
abbrev twice : ScheduleRegistry
twice = (start true (start true registry).1).1

twice-Reachable : Reachable twice
twice-Reachable =
    step
      (step
        (step (step fresh (schedules_every "metrics" 30 1 empty_registry))
          (schedules_after "warmup" 5 2 (every_named "metrics" 30 1 empty_registry)))
        (starts true registry))
      (starts true (start true registry).1)

Reachable-IsStarted_example : IsStarted twice
unfolding start spawn_all every_named after_named
Reachable-IsStarted_example = Reachable-IsStarted twice-Reachable refl
