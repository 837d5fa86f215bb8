-- ===== src/Container/Resolve/Errors.antt =====
-- Errors of `resolve`, and the recursion that has no end.
use nestforge.Base.{
  ℕ, zero, suc, ◌≡◌, ◌≢◌, refl, false, Option, none, some, String, Result, ok, err, arith, inl, inr,
  ◌⊎◌, Option-cases,
}
use nestforge.Base.Exec.{Exec, pure, throw, lift, asks, modify, map_error, try, ◌>>=◌, on_option}
use nestforge.Container.State.{
  RustType, AnyValue, ContainerError, Factory, resolving, StoredFactory, RwLock, TypeMap, Shared,
  Container, downcast_failed, type_not_registered,
}
use nestforge.Container.Resolve.{
  Resolver, resolve_from_map, resolve_from_request_factory, cache_value,
  resolve_from_transient_factory, resolve, or_else,
}
use nestforge.Container.Resolve.Cache.{request_factory_holds, resolve_from_map-eq-ok}
use nestforge.Container.Resolve.Tags.{IsTagged, Reachable, Reachable-IsTagged}

module _ {V E : Type 0} where
  abbrev BadCast : {A : Type 0} → Option (Result ContainerError A × Shared V E) → Type 0
  BadCast o = (n : String) × (s' : Shared V E) × (o ≡ some (err (downcast_failed n), s'))

  map-no_downcast :
      (t : RustType) (lock : Shared V E → RwLock (TypeMap (AnyValue V))) (s : Shared V E)
      → ((v : AnyValue V) → (lock s).held t.id ≡ some v → v.type_id ≡ t.id)
      → ¬ BadCast (resolve_from_map t lock s)
  unfolding resolve_from_map ◌>>=◌ asks lift pure on_option
  map-no_downcast t lock s h (n, s', e) = elim (Option-cases ((lock s).held t.id)) [
    | inl missing ↦ ground arith
    | inr (v, found) ↦ ground (arith, h v found)
  ]

  cache-no_downcast :
      (c : Container) (t : RustType) (v : AnyValue V) (s : Shared V E)
      → v.type_id ≡ t.id
      → ¬ BadCast (cache_value c t v s)
  unfolding cache_value ◌>>=◌ asks lift pure modify
  cache-no_downcast c t v s same (n, s', e) = ground arith

  request-no_downcast :
      (r : Resolver V E) (c : Container) (t : RustType) (s : Shared V E)
      → IsTagged s
      → ¬ BadCast (resolve_from_request_factory r c t s)
  unfolding resolve_from_request_factory ◌>>=◌ asks pure on_option map_error lift modify
  request-no_downcast r c t s h (n, s', e) = elim (Option-cases (s.request_factories.held t.id)) [
    | inl missing ↦ ground arith
    | inr (f, found) ↦ ground (arith, h.request_factories t.id f found)
  ]

  transient-no_downcast :
      (r : Resolver V E) (c : Container) (t : RustType) (s : Shared V E)
      → IsTagged s
      → ¬ BadCast (resolve_from_transient_factory r c t s)
  unfolding resolve_from_transient_factory ◌>>=◌ asks pure on_option map_error lift
  transient-no_downcast r c t s h (n, s', e) =
      elim (Option-cases (s.transient_factories.held t.id)) [
        | inl missing ↦ ground arith
        | inr (f, found) ↦ ground (arith, h.transient_factories t.id f found)
      ]

  or_else-eq-err :
      (step : Exec (Shared V E) ContainerError (Option V))
      (rest : Exec (Shared V E) ContainerError V) (s s' : Shared V E) (x : ContainerError)
      → or_else step rest s ≡ some (err x, s')
      → (step s ≡ some (err x, s'))
        ⊎ ((s1 : Shared V E) × (step s ≡ some (ok none, s1)) × (rest s1 ≡ some (err x, s')))
  unfolding ◌>>=◌ on_option pure
  or_else-eq-err step rest s s' x h = after (step s) refl
    where
      after :
          (o : Option (Result ContainerError (Option V) × Shared V E))
          → step s ≡ o
          → (step s ≡ some (err x, s'))
            ⊎ ((s1 : Shared V E) × (step s ≡ some (ok none, s1)) × (rest s1 ≡ some (err x, s')))
      after none e = cc (rw (e, ◌>>=◌) at h)
      after (some (err y, s1)) e = let h' = rw (e, ◌>>=◌) at h in inl (rw e (ground arith))
      after (some (ok none, s1)) e = inr (s1, e, rw (e, ◌>>=◌) at h)
      after (some (ok (some v), s1)) e = cc (rw (e, ◌>>=◌) at h)

  last-no_downcast :
      (r : Resolver V E) (c : Container) (t : RustType) (s : Shared V E)
      → IsTagged s
      → ¬ BadCast (
          or_else
            (resolve_from_transient_factory r c t)
            (throw (type_not_registered t.type_name))
            s)
  unfolding throw
  last-no_downcast r c t s h (n, s', e) = elim (or_else-eq-err _ _ s s' _ e) [
    | inl here ↦ transient-no_downcast r c t s h (n, s', here)
    | inr (s1, missed, e1) ↦ cc
  ]

  factories-no_downcast :
      (r : Resolver V E) (c : Container) (t : RustType) (s : Shared V E)
      → IsTagged s
      → ¬ BadCast (
          or_else
            (resolve_from_request_factory r c t)
            (or_else
              (resolve_from_transient_factory r c t)
              (throw (type_not_registered t.type_name)))
            s)
  factories-no_downcast r c t s h (n, s', e) = elim (or_else-eq-err _ _ s s' _ e) [
    | inl here ↦ request-no_downcast r c t s h (n, s', here)
    | inr (s1, missed, e1) ↦ elim (request_factory_holds r c t s s1 none missed) [
      | inl (_, same) ↦ last-no_downcast r c t s1 (rw same h) (n, s', e1)
      | inr (w, found, _, _) ↦ cc
    ]
  ]

  -- In a container that a program can reach, no `resolve` fails with `DowncastFailed`, in any scope,
  -- of any type and however deep its factories run.
  pub resolve-no_downcast :
      (fuel : ℕ) (c : Container) (t : RustType) (s s' : Shared V E) (n : String)
      → Reachable s
      → resolve fuel c t s ≢ some (err (downcast_failed n), s')
  unfolding resolve
  resolve-no_downcast zero c t s s' n reached e = cc
  resolve-no_downcast (suc fuel) c t s s' n reached e =
      let h = Reachable-IsTagged reached in
      elim (or_else-eq-err _ _ s s' _ e) [
        | inl here ↦ map-no_downcast t _ s (h.overrides c.scope t.id) (n, s', here)
        | inr (s1, missed, e1) ↦
            let same = (resolve_from_map-eq-ok t _ s s1 none missed).0 in
            let h1 : IsTagged s1 = rw (← same) h in
            elim (or_else-eq-err _ _ s1 s' _ e1) [
              | inl here ↦ map-no_downcast t _ s1 (h1.inner t.id) (n, s', here)
              | inr (s2, missed2, e2) ↦
                  let same2 = (resolve_from_map-eq-ok t _ s1 s2 none missed2).0 in
                  factories-no_downcast (resolve fuel) c t s2 (rw (← same2) h1) (n, s', e2)
            ]
      ]

  -- A request-scoped factory that begins by resolving its own type never ends, where the type has
  -- no override and no singleton and the locks are not poisoned: however much fuel there is, it
  -- runs out.
  pub resolve_circular :
      (fuel : ℕ) (c : Container) (t : RustType) (s : Shared V E) (f : StoredFactory V E)
      (next : Result ContainerError V → Factory V E)
      → (s.overrides c.scope).poisoned ≡ false
      → (s.overrides c.scope).held t.id ≡ none
      → s.inner.poisoned ≡ false
      → s.inner.held t.id ≡ none
      → s.request_factories.poisoned ≡ false
      → s.request_factories.held t.id ≡ some f
      → f.factory c ≡ resolving c t next
      → resolve fuel c t s ≡ none
  unfolding resolve resolve_from_map resolve_from_request_factory ◌>>=◌ asks lift pure on_option
      map_error try
  resolve_circular zero c t s f next p1 h1 p2 h2 p3 h3 e = refl
  resolve_circular (suc fuel) c t s f next p1 h1 p2 h2 p3 h3 e =
      ground (arith, resolve_circular fuel c t s f next p1 h1 p2 h2 p3 h3 e)
