-- ===== src/ModuleGraph/Runtime/Turns.antt =====
-- What the turn of one module registers, collects and checks.
use nestforge.Base.{
  ◌≡◌, ap, ◌∙◌, sym, subst, true, some, List, [], ◌∷◌, ◌++◌, append_assoc, String, ok,
  map_err-eq-ok, All, arith, Bool-cases, inl, inr,
}
use nestforge.Base.Exec.{Exec, pure, throw, map_error}
use nestforge.Base.Exec.Invert.{bind-eq-ok, modify-eq-ok, asks-eq-ok, map_error-eq-ok}
use nestforge.Container.State.{Shared, is_type_registered_name}
use nestforge.ModuleGraph.ModuleRef.{ModuleRef}
use nestforge.ModuleGraph.Runtime.{
  Built, on_container, check_exports, extend, register_module, failed_to_register,
}

-- `extend` of a vector, module after module.
abbrev pub gather : {A B : Type 0} → (B → List A) → List B → List A
gather f [] = []
gather f (x ∷ xs) = f x ++ gather f xs

module _ {A K : Type 0} where
  pub longer :
      (f : K → List A) (k : K) (ks : List K) (x y z : List A)
      → y ≡ x ++ f k
      → z ≡ y ++ gather f ks
      → z ≡ x ++ gather f (k ∷ ks)
  longer f k ks x y z p q = q ∙ ap (λ l. l ++ gather f ks) p ∙ append_assoc x (f k) (gather f ks)

-- Every name of a list is that of a registered type.
abbrev pub AllRegistered : {V E : Type 0} → Shared V E → List String → Type 0
AllRegistered s = All (λ export. is_type_registered_name export s ≡ ok true)

module _ {V E Router : Type 0} where
  check_exports-ok :
      (name : String) (exports : List String) (b b' : Built V E Router)
      → check_exports name exports b ≡ some (ok tt, b')
      → (b' ≡ b) × AllRegistered b.container exports
  unfolding check_exports pure throw
  check_exports-ok name [] b b' h = (ground arith, tt)
  check_exports-ok name (e ∷ es) b b' h =
      let (reg, b1, asked, rest) = bind-eq-ok _ _ b h in
      let (answer, same) = asks-eq-ok _ b asked in
      let yes_so = map_err-eq-ok _ _ answer in
      elim (Bool-cases reg) [
        | inl listed ↦
            let (same', others) = check_exports-ok name es b1 b' (rw listed at rest) in
            (
              same' ∙ same,
              (rw (← listed) yes_so, subst (λ x. AllRegistered x.container es) same others),
            )
        | inr absent ↦ cc
      ]

  on_container-ok :
      (m : Exec (Shared V E) String (Unit {0})) (b b' : Built V E Router)
      → on_container m b ≡ some (ok tt, b')
      → (m b.container ≡ some (ok tt, b'.container)) × (b' ≡ record b { container = b'.container })
  on_container-ok m b b' h = ground arith

module _ {V E Router Doc K : Type 0} where
  -- The container's history: each module registers itself in turn, and right after that every type
  -- that it exports is registered.
  pub data Registers (modules : K → ModuleRef V E Router Doc K)
      : List K → Shared V E → Shared V E → Type 0 where
    nothing : (s : Shared V E) → Registers modules [] s s
    module_then :
        {k : K} {ks : List K} {s s1 s2 : Shared V E}
        → (modules k).register s ≡ some (ok tt, s1)
        → AllRegistered s1 (modules k).exports
        → Registers modules ks s1 s2
        → Registers modules (k ∷ ks) s s2

  pub register_module-ok :
      (m : ModuleRef V E Router Doc K) (b b' : Built V E Router)
      → register_module m b ≡ some (ok tt, b')
      → (m.register b.container ≡ some (ok tt, b'.container))
        × AllRegistered b'.container m.exports
        × (b' ≡ extend m (record b { container = b'.container }))
  unfolding register_module
  register_module-ok m b b' h =
      let (_, b1, registered, h1) = bind-eq-ok _ _ b h in
      let (_, b2, extended, checked) = bind-eq-ok _ _ b1 h1 in
      let (ran, kept) =
        on_container-ok (map_error (failed_to_register m.name) m.register) b b1 registered in
      let grown = modify-eq-ok (extend m) b1 extended in
      let (same, listed) = check_exports-ok m.name m.exports b2 b' checked in
      let held = ap (λ (x : Built V E Router). x.container) (same ∙ grown) in
      (
        rw held (map_error-eq-ok _ m.register b.container ran),
        subst (λ x. AllRegistered x.container m.exports) (sym same) listed,
        same
            ∙ grown
            ∙ ap (extend m) kept
            ∙ ap (λ x. extend m (record b { container = x })) (sym held),
      )
