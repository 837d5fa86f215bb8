-- ===== src/ModuleGraph/Runtime/Hooks.antt =====
-- How far the hooks of a phase run.
use nestforge.Base.{◌≡◌, refl, ◌∙◌, some, List, [], ◌∷◌, ◌++◌, String, ok, err, inl, inr}
use nestforge.Base.Exec.{pure}
use nestforge.Base.Exec.Invert.{bind-of-ok, bind-eq-err}
use nestforge.Container.State.{Shared}
use nestforge.ModuleGraph.ModuleRef.{LifecycleHook}
use nestforge.ModuleGraph.Runtime.{run_lifecycle_hooks}

module _ {V E : Type 0} where
  -- Where the hooks of a phase fail, some hook has failed: those before it have run with success, and
  -- its error and the container that it left are those of the whole; none behind it has run.
  pub run_lifecycle_hooks-fails :
      (hooks : List (LifecycleHook V E)) (s s' : Shared V E) (e : String)
      → run_lifecycle_hooks hooks s ≡ some (err e, s')
      → (before : List (LifecycleHook V E)) × (hook : LifecycleHook V E) × (after : List
          (LifecycleHook V E))
        × (s1 : Shared V E) × (hooks ≡ before ++ hook ∷ after)
        × (run_lifecycle_hooks before s ≡ some (ok tt, s1))
        × (hook s1 ≡ some (err e, s'))
  unfolding run_lifecycle_hooks pure
  run_lifecycle_hooks-fails [] s s' e h = cc
  run_lifecycle_hooks-fails (hook ∷ hooks) s s' e h = elim (bind-eq-err hook _ s h) [
    | inl here ↦ ([], hook, hooks, s, refl, refl, here)
    | inr (_, s1, first, rest) ↦
        let (before, failing, after, s2, split, ran, failed) =
          run_lifecycle_hooks-fails hooks s1 s' e rest in
        (hook ∷ before, failing, after, s2, rw split, bind-of-ok hook _ s first ∙ ran, failed)
  ]
