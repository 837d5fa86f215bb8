-- ===== src/Base/Exec/Invert.antt =====
-- What a successful block has done: inversion of binds.
use mathlib.Core.Path.{◌≡◌, refl, ap, fun_ext}
use mathlib.Core.Logic.{◌⊎◌, inl, inr}
use mathlib.Core.Option.{Option, none, some}
use native.Mathlib.Omega.{arith}
use nestforge.Base.Results.{Result, ok, err}
use nestforge.Base.Exec.{Exec, pure, lift, asks, modify, map_error, ◌>>=◌}

module _ {S E A B : Type 0} where
  -- Two blocks with the same beginning.
  pub bind_same :
      (m : Exec S E A) (f g : A → Exec S E B) (s : S)
      → ((a : A) (s1 : S) → f a s1 ≡ g a s1)
      → (m >>= f) s ≡ (m >>= g) s
  bind_same m f g s same =
      ap (λ (k : A → Exec S E B). (m >>= k) s) (fun_ext (λ a. fun_ext (same a)))

  after_ok :
      (o : Option (Result E A × S)) (f : A → Exec S E B) (s : S) {b : B} {s' : S}
      → ◌>>=◌ (λ _. o) f s ≡ some (ok b, s')
      → (a : A) × (s1 : S) × (o ≡ some (ok a, s1)) × (f a s1 ≡ some (ok b, s'))
  unfolding ◌>>=◌
  after_ok none f s h = cc
  after_ok (some (err e, s1)) f s h = cc
  after_ok (some (ok a, s1)) f s h = (a, s1, refl, h)

  pub bind-eq-ok :
      (m : Exec S E A) (f : A → Exec S E B) (s : S) {b : B} {s' : S}
      → (m >>= f) s ≡ some (ok b, s')
      → (a : A) × (s1 : S) × (m s ≡ some (ok a, s1)) × (f a s1 ≡ some (ok b, s'))
  unfolding ◌>>=◌
  bind-eq-ok m f s h = after_ok (m s) f s h

  after_err :
      (o : Option (Result E A × S)) (f : A → Exec S E B) (s : S) {e : E} {s' : S}
      → ◌>>=◌ (λ _. o) f s ≡ some (err e, s')
      → (o ≡ some (err e, s'))
        ⊎ ((a : A) × (s1 : S) × (o ≡ some (ok a, s1)) × (f a s1 ≡ some (err e, s')))
  unfolding ◌>>=◌
  after_err none f s h = cc
  after_err (some (err x, s1)) f s h = inl (ground arith)
  after_err (some (ok a, s1)) f s h = inr (a, s1, refl, h)

  pub bind-eq-err :
      (m : Exec S E A) (f : A → Exec S E B) (s : S) {e : E} {s' : S}
      → (m >>= f) s ≡ some (err e, s')
      → (m s ≡ some (err e, s'))
        ⊎ ((a : A) × (s1 : S) × (m s ≡ some (ok a, s1)) × (f a s1 ≡ some (err e, s')))
  unfolding ◌>>=◌
  bind-eq-err m f s h = after_err (m s) f s h

  after_none :
      (o : Option (Result E A × S)) (f : A → Exec S E B) (s : S)
      → ◌>>=◌ (λ _. o) f s ≡ none
      → (o ≡ none) ⊎ ((a : A) × (s1 : S) × (o ≡ some (ok a, s1)) × (f a s1 ≡ none))
  unfolding ◌>>=◌
  after_none none f s h = inl refl
  after_none (some (err x, s1)) f s h = cc
  after_none (some (ok a, s1)) f s h = inr (a, s1, refl, h)

  pub bind-eq-none :
      (m : Exec S E A) (f : A → Exec S E B) (s : S)
      → (m >>= f) s ≡ none
      → (m s ≡ none) ⊎ ((a : A) × (s1 : S) × (m s ≡ some (ok a, s1)) × (f a s1 ≡ none))
  unfolding ◌>>=◌
  bind-eq-none m f s h = after_none (m s) f s h

  pub bind-of-ok :
      (m : Exec S E A) (f : A → Exec S E B) (s : S) {a : A} {s1 : S}
      → m s ≡ some (ok a, s1)
      → (m >>= f) s ≡ f a s1
  unfolding ◌>>=◌
  bind-of-ok m f s h = rw (h, ◌>>=◌)

  pub bind-of-err :
      (m : Exec S E A) (f : A → Exec S E B) (s : S) {e : E} {s1 : S}
      → m s ≡ some (err e, s1)
      → (m >>= f) s ≡ some (err e, s1)
  unfolding ◌>>=◌
  bind-of-err m f s h = rw (h, ◌>>=◌)

module _ {S E F A : Type 0} where
  after_map_error :
      (g : E → F) (o : Option (Result E A × S)) (s : S) {a : A} {s' : S}
      → map_error g (λ _. o) s ≡ some (ok a, s')
      → o ≡ some (ok a, s')
  unfolding map_error
  after_map_error g none s h = cc
  after_map_error g (some (ok a, s1)) s h = ground arith
  after_map_error g (some (err e, s1)) s h = cc

  pub map_error-eq-ok :
      (g : E → F) (m : Exec S E A) (s : S) {a : A} {s' : S}
      → map_error g m s ≡ some (ok a, s')
      → m s ≡ some (ok a, s')
  unfolding map_error
  map_error-eq-ok g m s h = after_map_error g (m s) s h

module _ {S E F A : Type 0} where
  pub map_error-of-ok :
      (g : E → F) (m : Exec S E A) (s : S) {a : A} {s' : S}
      → m s ≡ some (ok a, s')
      → map_error g m s ≡ some (ok a, s')
  unfolding map_error
  map_error-of-ok g m s h = rw (h, map_error) refl

  pub map_error-eq-err :
      (g : E → F) (m : Exec S E A) (s : S) {x : F} {s' : S}
      → map_error g m s ≡ some (err x, s')
      → (e : E) × (m s ≡ some (err e, s')) × (x ≡ g e)
  unfolding map_error
  map_error-eq-err g m s {x} {s'} h = go (m s) refl
    where
      go : (o : Option (Result E A × S)) → m s ≡ o → (e : E) × (m s ≡ some (err e, s')) × (x ≡ g e)
      go none q = cc (rw (q, map_error) at h)
      go (some (ok a, s1)) q = cc (rw (q, map_error) at h)
      go (some (err e, s1)) q =
          let same = rw (q, map_error) at h in (e, ground (arith, q, same), ground arith)

module _ {S E A : Type 0} where
  pub asks-eq-ok :
      (f : S → Result E A) (s : S) {a : A} {s' : S}
      → asks f s ≡ some (ok a, s')
      → (f s ≡ ok a) × (s' ≡ s)
  unfolding asks
  asks-eq-ok f s h = (ground arith, ground arith)

  pub lift-eq-ok :
      (r : Result E A) (a : A) (s s' : S) → lift r s ≡ some (ok a, s') → (r ≡ ok a) × (s ≡ s')
  unfolding lift
  lift-eq-ok r a s s' h = (cc, cc)

  pub pure-eq-ok :
      (a : A) (s : S) {b : A} {s' : S} → pure {E = E} a s ≡ some (ok b, s') → (b ≡ a) × (s' ≡ s)
  unfolding pure
  pure-eq-ok a s h = (ground arith, ground arith)

module _ {S E : Type 0} where
  pub modify-eq-ok : (f : S → S) (s : S) {s' : S} → modify {E = E} f s ≡ some (ok tt, s') → s' ≡ f s
  unfolding modify
  modify-eq-ok f s h = ground arith

  pub modify-ne-err :
      (f : S → S) (s : S) {e : E} {s' : S} → ¬ (modify {E = E} f s ≡ some (err e, s'))
  unfolding modify
  modify-ne-err f s h = cc

  pub modify-ne-none : (f : S → S) (s : S) → ¬ (modify {E = E} f s ≡ none)
  unfolding modify
  modify-ne-none f s h = cc

module _ {S E A : Type 0} where
  pub bind_lift_ok : (m : Exec S E A) (s : S) → (m >>= λ a. lift (ok a)) s ≡ m s
  unfolding ◌>>=◌ lift
  bind_lift_ok m s = go (m s) refl
    where
      go : (o : Option (Result E A × S)) → m s ≡ o → (m >>= λ a. lift (ok a)) s ≡ m s
      go none e = rw (e, ◌>>=◌) refl
      go (some (ok u, s1)) e = rw (e, ◌>>=◌) refl
      go (some (err x, s1)) e = rw (e, ◌>>=◌) refl

module _ {S E A B C : Type 0} where
  pub bind_assoc :
      (m : Exec S E A) (f : A → Exec S E B) (g : B → Exec S E C) (s : S)
      → ((m >>= f) >>= g) s ≡ (m >>= λ a. f a >>= g) s
  unfolding ◌>>=◌
  bind_assoc m f g s = go (m s) refl
    where
      go : (o : Option (Result E A × S)) → m s ≡ o → ((m >>= f) >>= g) s ≡ (m >>= λ a. f a >>= g) s
      go none e = rw (e, ◌>>=◌) refl
      go (some (ok u, s1)) e = rw (e, ◌>>=◌) refl
      go (some (err x, s1)) e = rw (e, ◌>>=◌) refl
