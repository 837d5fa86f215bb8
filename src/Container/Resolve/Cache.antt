-- ===== src/Container/Resolve/Cache.antt =====
-- What a second `resolve` of the same type returns, and the errors of a first.
use nestforge.Base.{
  ℕ, zero, suc, ◌≡◌, refl, subst, false, Option, none, some, ok, ◌⊎◌, inl, inr, arith, Option-cases,
}
use nestforge.Base.Exec.{Exec, pure, throw, lift, asks, modify, map_error, ◌>>=◌, on_option}
use nestforge.Base.Exec.Invert.{bind-eq-ok, asks-eq-ok, pure-eq-ok}
use nestforge.Container.State.{
  RustType, AnyValue, ContainerError, StoredFactory, RwLock, TypeMap, Shared, Container,
  type_not_registered, request_factory_failed,
}
use nestforge.Container.Resolve.{
  Resolver, run_factory, cache_value, resolve_from_map, resolve_from_request_factory,
  resolve_from_transient_factory, resolve, or_else,
}
use nestforge.Container.Resolve.Order.{resolve_from_map-found}

module _ {V E : Type 0} where
  -- A cached value is what the scope holds afterwards, at its own type.
  cache_value_holds :
      (c : Container) (t : RustType) (v : AnyValue V) (s s' : Shared V E) (o : Option V)
      → cache_value c t v s ≡ some (ok o, s')
      → (w : V) × (o ≡ some w)
        × ((s'.overrides c.scope).poisoned ≡ false)
        × ((s'.overrides c.scope).held t.id ≡ some (record { type_id = t.id; content = w }))
  unfolding cache_value ◌>>=◌ asks lift pure modify
  cache_value_holds c t v s s' o h = (v.content, ground arith, ground arith, ground arith)

  -- What `resolve_from_request_factory` leaves when it returns without an error.
  abbrev pub Held : Container → RustType → Option V → Shared V E → Type 0
  Held c t o s' =
      (w : V) × (o ≡ some w)
      × ((s'.overrides c.scope).poisoned ≡ false)
      × ((s'.overrides c.scope).held t.id ≡ some (record { type_id = t.id; content = w }))

  run_and_cache :
      (r : Resolver V E) (c : Container) (t : RustType) (s s' : Shared V E) (o : Option V)
      (f : Option (StoredFactory V E))
      → on_option f
          (pure none)
          (λ f.
            map_error (request_factory_failed t.type_name) (run_factory r (f.factory c))
            >>= (λ value. cache_value c t (record { type_id = f.type_id; content = value })))
          s
        ≡ some (ok o, s')
      → ((o ≡ none) × (s' ≡ s)) ⊎ Held c t o s'
  unfolding on_option pure
  run_and_cache r c t s s' o none h = inl (ground arith)
  run_and_cache r c t s s' o (some f) h =
      let (v, s1, _, cached) = bind-eq-ok _ _ s h in inr (cache_value_holds c t _ s1 s' o cached)

  pub request_factory_holds :
      (r : Resolver V E) (c : Container) (t : RustType) (s s' : Shared V E) (o : Option V)
      → resolve_from_request_factory r c t s ≡ some (ok o, s')
      → ((o ≡ none) × (s' ≡ s)) ⊎ Held c t o s'
  unfolding resolve_from_request_factory
  request_factory_holds r c t s s' o h =
      let (fs, s1, looked, ran) = bind-eq-ok _ _ s h in
      let (_, same) = asks-eq-ok _ s looked in
      rw (← same) (run_and_cache r c t s1 s' o (fs t.id) ran)

  or_else-eq-ok :
      (step : Exec (Shared V E) ContainerError (Option V))
      (rest : Exec (Shared V E) ContainerError V) (s s' : Shared V E) (v : V)
      → or_else step rest s ≡ some (ok v, s')
      → (step s ≡ some (ok (some v), s'))
        ⊎ ((s1 : Shared V E) × (step s ≡ some (ok none, s1)) × (rest s1 ≡ some (ok v, s')))
  unfolding on_option
  or_else-eq-ok step rest s s' v h =
      let (o, s1, first, rest_of) = bind-eq-ok step _ s h in
      elim (Option-cases o) [
        | inl missed ↦ inr (s1, rw (← missed) first, rw (missed, on_option) at rest_of)
        | inr (w, found) ↦
            let (same, left) = pure-eq-ok w s1 (rw (found, on_option) at rest_of) in
            inl (rw (same, left, ← found) first)
      ]

  pub resolve_from_map-eq-ok :
      (t : RustType) (lock : Shared V E → RwLock (TypeMap (AnyValue V))) (s s' : Shared V E)
      (o : Option V)
      → resolve_from_map t lock s ≡ some (ok o, s')
      → (s ≡ s') × (resolve_from_map t lock s' ≡ some (ok o, s'))
  unfolding resolve_from_map ◌>>=◌ asks lift pure on_option
  resolve_from_map-eq-ok t lock s s' o h =
      let same : s ≡ s' = ground arith in
      (same, subst (λ x. resolve_from_map t lock x ≡ some (ok o, s')) same h)

  transient-ne-ok :
      (r : Resolver V E) (c : Container) (t : RustType) (s s' : Shared V E) (v : V)
      → s.transient_factories.held t.id ≡ none
      → ¬ (
          or_else (resolve_from_transient_factory r c t) (throw (type_not_registered t.type_name)) s
          ≡ some (ok v, s'))
  unfolding resolve_from_transient_factory ◌>>=◌ asks lift pure on_option throw
  transient-ne-ok r c t s s' v q h = ground arith

  hit_override :
      (fuel : ℕ) (c : Container) (t : RustType) (s : Shared V E) (v : V)
      → resolve_from_map t (λ s. s.overrides c.scope) s ≡ some (ok (some v), s)
      → resolve (suc fuel) c t s ≡ some (ok v, s)
  unfolding resolve ◌>>=◌ on_option pure
  hit_override fuel c t s v h = rw (h, ◌>>=◌)

  hit_singleton :
      (fuel : ℕ) (c : Container) (t : RustType) (s : Shared V E) (v : V)
      → resolve_from_map t (λ s. s.overrides c.scope) s ≡ some (ok none, s)
      → resolve_from_map t (λ s. s.inner) s ≡ some (ok (some v), s)
      → resolve (suc fuel) c t s ≡ some (ok v, s)
  unfolding resolve ◌>>=◌ on_option pure
  hit_singleton fuel c t s v h k = rw (h, ◌>>=◌, k)

  hit_cached :
      (r : Resolver V E) (again : ℕ) (c : Container) (t : RustType) (s s' : Shared V E) (v : V)
      → s.transient_factories.held t.id ≡ none
      → or_else
          (resolve_from_request_factory r c t)
          (or_else (resolve_from_transient_factory r c t) (throw (type_not_registered t.type_name)))
          s
        ≡ some (ok v, s')
      → resolve (suc again) c t s' ≡ some (ok v, s')
  hit_cached r again c t s s' v q h = elim (or_else-eq-ok _ _ s s' v h) [
    | inl made ↦ elim (request_factory_holds r c t s s' (some v) made) [
      | inl (missed, _) ↦ cc
      | inr (w, e, p, held) ↦
          hit_override again c t s' v
            (rw (e, resolve_from_map-found t (λ s. s.overrides c.scope) s' _ p held refl))
    ]
    | inr (s1, missed, rest) ↦ elim (request_factory_holds r c t s s1 none missed) [
      | inl (_, same) ↦ absurd (transient-ne-ok r c t s1 s' v (rw same q) rest)
      | inr (w, e, _, _) ↦ cc
    ]
  ]

  -- A type with no transient factory resolves, in one scope, to one value: where a `resolve` has
  -- succeeded, every later one returns the same value, runs no factory and changes nothing.
  pub resolve_again :
      (fuel again : ℕ) (c : Container) (t : RustType) (v : V) (s s' : Shared V E)
      → s.transient_factories.held t.id ≡ none
      → resolve fuel c t s ≡ some (ok v, s')
      → resolve (suc again) c t s' ≡ some (ok v, s')
  unfolding resolve
  resolve_again zero again c t v s s' q h = cc
  resolve_again (suc fuel) again c t v s s' q h = elim (or_else-eq-ok _ _ s s' v h) [
    | inl overridden ↦
        hit_override again c t s' v (resolve_from_map-eq-ok t _ s s' (some v) overridden).1
    | inr (s1, missed, h1) ↦
        let (same, missed') = resolve_from_map-eq-ok t _ s s1 none missed in
        elim (or_else-eq-ok _ _ s1 s' v h1) [
          | inl single ↦
              let (same', single') = resolve_from_map-eq-ok t _ s1 s' (some v) single in
              hit_singleton again c t s' v
                (subst (λ x. resolve_from_map t (λ s. s.overrides c.scope) x ≡ some (ok none, x))
                  same' missed')
                single'
          | inr (s2, missed2, h2) ↦
              let (same', _) = resolve_from_map-eq-ok t _ s1 s2 none missed2 in
              hit_cached (resolve fuel) again c t s2 s' v (rw (← same', ← same) q) h2
        ]
  ]
