-- ===== src/Pipeline/Effects.antt =====
-- What guards and interceptors may change outside: a relation that goes from what was there to what
-- they leave.
use nestforge.Base.{◌≡◌, refl, none, some, ok, err, List, [], ◌∷◌, All, Result, ◌⊎◌, inl, inr}
use nestforge.Base.Exec.Keeps.{IsPreorder}
use nestforge.HttpException.{HttpException}
use nestforge.Pipeline.{
  RequestContext, Request, Guard, Interceptor, Next, Flow, Plan, reply, calls, acts, run_guards,
}

module _ {Req Res W : Type 0} where
  -- A plan whose own changes are of the kind.
  abbrev pub PlanChanges : (W → W → Type 0) → Plan Req Res W → Type 0
  PlanChanges Changes (reply res) = Unit
  PlanChanges Changes (calls req rest) = (res : Res) → PlanChanges Changes (rest res)
  PlanChanges Changes (acts change rest) =
      ((w : W) → Changes w (change w)) × ((w : W) → PlanChanges Changes (rest w))

module _ {Value W : Type 0} where
  abbrev pub GuardChanges : (W → W → Type 0) → Guard Value W → Type 0
  GuardChanges Changes guard = (ctx : RequestContext Value) (w : W) → Changes w (guard ctx w).1

module _ {Value Body Res W : Type 0} where
  abbrev pub InterceptorChanges : (W → W → Type 0) → Interceptor Value Body Res W → Type 0
  InterceptorChanges Changes interceptor =
      (ctx : RequestContext Value) (req : Request Value Body)
      → PlanChanges Changes (interceptor ctx req)

  -- The handler has not run, and waits; or it has run once, and is gone: before and behind the run,
  -- there are changes of the kind alone.
  abbrev pub RanOnce : (W → W → Type 0) → Next Value Body Res W → W → Flow Value Body Res W → Type 0
  RanOnce Changes next w s =
      ((s.next ≡ some next) × Changes w s.world)
      ⊎ ((s.next ≡ none)
          × ((q : Request Value Body) × (u : W) × Changes w u × Changes (next q u).1 s.world))

module _ {Value W : Type 0} (Changes : W → W → Type 0) (order : IsPreorder Changes) where
  guard_then :
      (g : Guard Value W) (gs : List (Guard Value W)) (ctx : RequestContext Value) (w : W)
      (p : Result (HttpException Value) (Unit {0}) × W)
      → g ctx w ≡ p
      → Changes w p.1
      → ((w1 : W) → Changes w1 (run_guards gs ctx w1).1)
      → Changes w (run_guards (g ∷ gs) ctx w).1
  unfolding run_guards
  guard_then g gs ctx w (err e, w1) is changed rest = rw is changed
  guard_then g gs ctx w (ok _, w1) is changed rest =
      rw is (order.then_by w w1 (run_guards gs ctx w1).1 changed (rest w1))

  pub run_guards-Changes :
      (guards : List (Guard Value W)) (ctx : RequestContext Value) (w : W)
      → All (GuardChanges Changes) guards
      → Changes w (run_guards guards ctx w).1
  unfolding run_guards
  run_guards-Changes [] ctx w keep = order.same w
  run_guards-Changes (g ∷ gs) ctx w keep =
      guard_then g gs ctx w (g ctx w) refl (keep.0 ctx w)
        (λ w1. run_guards-Changes gs ctx w1 keep.1)

module _ {Value Body Res W : Type 0} (Changes : W → W → Type 0) (order : IsPreorder Changes) where
  -- A change of the kind, before or behind the run.
  pub change-RanOnce :
      (next : Next Value Body Res W) (w : W) (change : W → W) (s : Flow Value Body Res W)
      → Changes s.world (change s.world)
      → RanOnce Changes next w s
      → RanOnce Changes next w (record s { world = change s.world })
  change-RanOnce next w change s more ran = elim ran [
    | inl (waiting, changed) ↦ inl (waiting, order.then_by w s.world (change s.world) changed more)
    | inr (gone, (q, u, before, behind)) ↦
        inr (gone, (q, u, before, order.then_by (next q u).1 s.world (change s.world) behind more))
  ]
