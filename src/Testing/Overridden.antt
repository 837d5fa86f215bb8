-- ===== src/Testing/Overridden.antt =====
-- The overrides of a testing module are in place before its modules are initialized.
use nestforge.Base.{
  ℕ, suc, ◌≡◌, ◌≢◌, refl, sym, subst, ap, ◌∙◌, false, Option, none, some, [], ◌∷◌, Result, ok,
  Bool-cases, Option-cases, Result-cases, inl, inr, if◌then◌else◌, ◌==◌, ==_iff, arith,
}
use nestforge.Base.Exec.Invert.{bind-eq-ok, map_error-eq-ok, pure-eq-ok}
use nestforge.Container.State.{RustType, Shared, Container, new}
use nestforge.Container.Register.{override_value}
use nestforge.Container.Resolve.{resolve}
use nestforge.Container.Resolve.Overridden.{
  Holds, resolve-Holds, override_value-Holds, override_value-Holds_other,
}
use nestforge.ModuleGraph.ModuleRef.{ModuleRef}
use nestforge.ModuleGraph.Runtime.{
  InitializedModule, initialize_module_runtime, run_lifecycle_hooks,
}
use nestforge.Testing.{
  TestFactory, TestingModule, apply_overrides, initialize_and_boot, build_test, graph_failed,
  hook_failed, TestError,
}

module _ {V : Type 0} where
  -- The value that overrides a type last.
  abbrev pub last_override : TestFactory V → ℕ → Option V
  last_override [] id = none
  last_override (o ∷ os) id =
      let later = last_override os id in
      elim later [ some v ↦ some v | none ↦ if o.target.id == id then some o.value else none ]

value_of : {V : Type 0} {v w : V} → ◌≡◌ {A = Option V} (some v) (some w) → v ≡ w
value_of h = cc h

distinct : (i j : ℕ) → (j == i) ≡ false → i ≢ j
distinct i j differ = ground (arith, ==_iff j i)

module _ {V E : Type 0} (c : Container) where
  abbrev IsOpen : Shared V E → Type 0
  IsOpen s = (s.overrides c.scope).poisoned ≡ false

  -- What the loop leaves: the last override of each type, and else what was held.
  abbrev Applied : TestFactory V → Shared V E → Shared V E → Type 0
  Applied os s s1 =
      ((t : RustType) (v : V) → last_override os t.id ≡ some v → Holds c t v s1)
      × ((t : RustType) (v : V) → last_override os t.id ≡ none → Holds c t v s → Holds c t v s1)

  pair_state :
      {s s1 : Shared V E}
      → ◌≡◌ {A = Option (Result TestError (Unit {0}) × Shared V E)}
          (some (ok tt, s))
          (some (ok tt, s1))
      → s ≡ s1
  pair_state h = cc h

  Holds-same :
      (t u : RustType) (v w : V) (s : Shared V E)
      → t.id ≡ u.id
      → v ≡ w
      → Holds c t v s
      → Holds c u w s
  Holds-same t u v w s same_id same_value held =
      subst
        (λ (i : ℕ).
          ((s.overrides c.scope).poisoned ≡ false)
          × ((s.overrides c.scope).held i ≡ some (record { type_id = i; content = w })))
        same_id (subst (λ (x : V). Holds c t x s) same_value held)

  apply_overrides-Applied :
      (os : TestFactory V) (s s1 : Shared V E)
      → IsOpen s
      → apply_overrides c os s ≡ some (ok tt, s1)
      → Applied os s s1
  unfolding apply_overrides
  apply_overrides-Applied [] s s1 is_open h =
      (λ t v e. cc, λ t v e held. subst (λ (x : Shared V E). Holds c t v x) (pair_state h) held)
  apply_overrides-Applied (o ∷ os) s s1 is_open h =
      elim (Result-cases (override_value c o.target o.value s).0) [
        | inr (e, failed) ↦ cc (rw (failed, apply_overrides) at h)
        | inl (u, done) ↦
            let s2 = (override_value c o.target o.value s).1 in
            let here = override_value-Holds c o.target o.value s is_open in
            let (lasts, keeps) =
              apply_overrides-Applied os s2 s1 here.0 (rw (done, apply_overrides) at h) in
            (
              λ t v e. elim (Option-cases (last_override os t.id)) [
                | inr (w, later) ↦ lasts t v (later ∙ (rw (later) at e))
                | inl never ↦ elim (Bool-cases (o.target.id == t.id)) [
                  | inl same ↦ keeps t v never (
                      Holds-same o.target t o.value v s2 ((==_iff o.target.id t.id).0 same)
                        (value_of (rw (same) at rw (never) at e)) here)
                  | inr differ ↦ cc (rw (differ) at rw (never) at e)
                ]
              ],
              λ t v e held. elim (Option-cases (last_override os t.id)) [
                | inr (w, later) ↦ cc (rw (later) at e)
                | inl never ↦ elim (Bool-cases (o.target.id == t.id)) [
                  | inl same ↦ cc (rw (same) at rw (never) at e)
                  | inr differ ↦ keeps t v never (
                      override_value-Holds_other c o.target t o.value v s
                        (distinct t.id o.target.id differ) held)
                ]
              ],
            )
      ]

module _ {V E Router Doc K : Type 0} (modules : K → ModuleRef V E Router Doc K) where
  -- The phases of a build: the state that initialization starts in, and those behind it and behind the
  -- hooks of module initialization.
  pub record Built (overrides : TestFactory V) (fuel : ℕ) (root : K) (m : TestingModule V E Router)
      (s' : Shared V E) : Type 0 where
    overridden : Shared V E
    initialized : Shared V E
    hooked : Shared V E
    resolves :
        (n : ℕ) (t : RustType) (v : V)
        → last_override overrides t.id ≡ some v
        → resolve (suc n) m.container t overridden ≡ some (ok v, overridden)
    initializes :
        initialize_module_runtime modules fuel root overridden ≡ some (ok m.runtime, initialized)
    inits : run_lifecycle_hooks m.runtime.module_init_hooks initialized ≡ some (ok tt, hooked)
    boots : run_lifecycle_hooks m.runtime.application_bootstrap_hooks hooked ≡ some (ok tt, s')

  -- A testing module that is built: before any module registers, so that their factories see it, every
  -- type that is overridden resolves to the last value that overrides it; the graph is initialized
  -- there, and the hooks of module initialization and those of the application's start run behind it.
  pub build_test-Built :
      (overrides : TestFactory V) (fuel : ℕ) (root : K) (e : E) (m : TestingModule V E Router)
      (s' : Shared V E)
      → build_test modules fuel overrides root e ≡ some (ok m, s')
      → Built overrides fuel root m s'
  unfolding build_test initialize_and_boot new
  build_test-Built overrides fuel root e m s' h =
      let (u, s1, overriding, rest) = bind-eq-ok _ _ (new e).0 h in
      let (runtime, s2, graph, hooks) = bind-eq-ok _ _ s1 rest in
      let (_, s3, inits, more) = bind-eq-ok _ _ s2 hooks in
      let (_, s4, boots, last) = bind-eq-ok _ _ s3 more in
      let (made, ended) = pure-eq-ok _ s4 last in
      let (lasts, keeps) =
        apply_overrides-Applied (new {V = V} e).1 overrides (new e).0 s1 refl overriding in
      let its : runtime ≡ m.runtime = sym (ap (λ (x : TestingModule V E Router). x.runtime) made) in
      record {
        overridden = s1;
        initialized = s2;
        hooked = s3;
        resolves = λ n t v is.
            subst (λ (c : Container). resolve (suc n) c t s1 ≡ some (ok v, s1))
              (sym (ap (λ (x : TestingModule V E Router). x.container) made))
              (resolve-Holds n (new {V = V} e).1 t v s1 (lasts t v is));
        initializes =
            map_error-eq-ok graph_failed _ s1 graph
            ∙ ap (λ (r : InitializedModule V E Router). some (ok r, s2)) its;
        inits =
            subst
              (λ (r : InitializedModule V E Router).
                run_lifecycle_hooks r.module_init_hooks s2 ≡ some (ok tt, s3))
              its (map_error-eq-ok hook_failed _ s2 inits);
        boots =
            subst
              (λ (r : InitializedModule V E Router).
                run_lifecycle_hooks r.application_bootstrap_hooks s3 ≡ some (ok tt, s'))
              its
              (map_error-eq-ok hook_failed _ s3 boots
                ∙ ap (λ (x : Shared V E). some (ok tt, x)) (sym ended));
      }
