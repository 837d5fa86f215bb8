-- ===== src/Container/Resolve/Overridden.antt =====
-- What an override leaves in the maps of the scopes, and that a scope resolves to what its map holds.
use nestforge.Base.{ℕ, suc, ◌≡◌, ◌≢◌, false, some, ==_iff, ==_refl, ok, arith}
use nestforge.Base.Exec.{pure, lift, asks, ◌>>=◌, on_option}
use nestforge.Container.State.{RustType, Shared, Container}
use nestforge.Container.Register.{record_name, put_override, override_value}
use nestforge.Container.Resolve.{resolve_from_map, resolve}

module _ {V E : Type 0} where
  -- The map of a scope is readable, and holds a value of this type.
  abbrev pub Holds : Container → RustType → V → Shared V E → Type 0
  Holds c t v s =
      ((s.overrides c.scope).poisoned ≡ false)
      × ((s.overrides c.scope).held t.id ≡ some (record { type_id = t.id; content = v }))

  pub resolve-Holds :
      (fuel : ℕ) (c : Container) (t : RustType) (v : V) (s : Shared V E)
      → Holds c t v s
      → resolve (suc fuel) c t s ≡ some (ok v, s)
  unfolding resolve resolve_from_map ◌>>=◌ asks lift pure on_option
  resolve-Holds fuel c t v s (open_so, held) = ground arith

  -- An override is in place even where its name could not be recorded.
  pub override_value-Holds :
      (c : Container) (t : RustType) (v : V) (s : Shared V E)
      → (s.overrides c.scope).poisoned ≡ false
      → Holds c t v (override_value c t v s).1
  unfolding override_value record_name put_override
  override_value-Holds c t v s open_so = ground (arith, ==_refl c.scope, ==_refl t.id)

  pub override_value-Holds_other :
      (c : Container) (t u : RustType) (v x : V) (s : Shared V E)
      → u.id ≢ t.id
      → Holds c u x s
      → Holds c u x (override_value c t v s).1
  unfolding override_value record_name put_override
  override_value-Holds_other c t u v x s other (open_so, held) =
      ground (arith, ==_refl c.scope, ==_iff u.id t.id)

  pub overrides-override_value :
      (c : Container) (t : RustType) (v : V) (s : Shared V E) (j : ℕ)
      → j ≢ c.scope
      → (override_value c t v s).1.overrides j ≡ s.overrides j
  unfolding override_value record_name put_override
  overrides-override_value c t v s j other = ground (arith, ==_iff j c.scope)
