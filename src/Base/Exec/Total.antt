-- ===== src/Base/Exec/Total.antt =====
-- Actions that come to an end from every state with a property, and keep it.
use mathlib.Core.Path.{◌≡◌, refl}
use mathlib.Core.Logic.{inl, inr}
use mathlib.Core.Option.{Option, none, some}
use nestforge.Base.Results.{Result, ok, err, Result-cases}
use nestforge.Base.Exec.{Exec, pure, throw, lift, asks, modify, try, map_error, ◌>>=◌, on_option}

abbrev pub EndsIn : {S E A : Type 0} → (S → Type 0) → Option (Result E A × S) → Type 0
EndsIn P none = ⊥
EndsIn P (some (_, s')) = P s'

pub record Total {S E A : Type 0} (P : S → Type 0) (m : Exec S E A) : Type 0 where
  pub at : (s : S) → P s → EndsIn P (m s)

module _ {S : Type 0} (P : S → Type 0) where
  EndsIn-bind :
      {E A B : Type 0} (s : S) (o : Option (Result E A × S)) (f : A → Exec S E B)
      → EndsIn P o
      → ((a : A) → Total P (f a))
      → EndsIn P (◌>>=◌ (λ _. o) f s)
  unfolding ◌>>=◌
  EndsIn-bind s none f h k = h
  EndsIn-bind s (some (err e, s')) f h k = h
  EndsIn-bind s (some (ok a, s')) f h k = (k a).at s' h

  EndsIn-try :
      {E A : Type 0} (F : Type 0) (s : S) (o : Option (Result E A × S))
      → EndsIn P o
      → EndsIn P (try {F = F} (λ _. o) s)
  unfolding try
  EndsIn-try F s none h = h
  EndsIn-try F s (some (r, s')) h = h

  EndsIn-map_error :
      {E F A : Type 0} (g : E → F) (s : S) (o : Option (Result E A × S))
      → EndsIn P o
      → EndsIn P (map_error g (λ _. o) s)
  unfolding map_error
  EndsIn-map_error g s none h = h
  EndsIn-map_error g s (some (ok a, s')) h = h
  EndsIn-map_error g s (some (err e, s')) h = h

module _ {S : Type 0} {P : S → Type 0} where
  pub Total-pure : {E A : Type 0} (a : A) → Total {E = E} P (pure a)
  unfolding pure
  Total-pure a = record { at = λ s h. h }

  pub Total-throw : {E A : Type 0} (e : E) → Total {A = A} P (throw e)
  unfolding throw
  Total-throw e = record { at = λ s h. h }

  pub Total-lift : {E A : Type 0} (r : Result E A) → Total P (lift r)
  unfolding lift
  Total-lift r = record { at = λ s h. h }

  pub Total-asks : {E A : Type 0} (f : S → Result E A) → Total P (asks f)
  unfolding asks
  Total-asks f = record { at = λ s h. h }

  pub Total-modify :
      {E : Type 0} (f : S → S) → ((s : S) → P s → P (f s)) → Total {E = E} P (modify f)
  unfolding modify
  Total-modify f h = record { at = h }

  pub Total-bind :
      {E A B : Type 0} (m : Exec S E A) (f : A → Exec S E B)
      → Total P m
      → ((a : A) → Total P (f a))
      → Total P (m >>= f)
  unfolding ◌>>=◌
  Total-bind m f km kf = record { at = λ s h. EndsIn-bind P s (m s) f (km.at s h) kf }

  -- What is read comes from a state with the property.
  pub Total-bind-asks :
      {E A B : Type 0} (g : S → Result E A) (f : A → Exec S E B)
      → ((s : S) (a : A) → P s → g s ≡ ok a → Total P (f a))
      → Total P (asks g >>= f)
  unfolding asks ◌>>=◌
  Total-bind-asks g f k = record {
    at = λ s h. elim (Result-cases (g s)) [
      | inl (a, e) ↦ rw (e, ◌>>=◌) ((k s a h e).at s h)
      | inr (x, e) ↦ rw (e, ◌>>=◌) h
    ];
  }

  pub Total-try : {E F A : Type 0} (m : Exec S E A) → Total P m → Total {E = F} P (try m)
  unfolding try
  Total-try {F = F} m k = record { at = λ s h. EndsIn-try P F s (m s) (k.at s h) }

  pub Total-map_error :
      {E F A : Type 0} (g : E → F) (m : Exec S E A) → Total P m → Total P (map_error g m)
  unfolding map_error
  Total-map_error g m k = record { at = λ s h. EndsIn-map_error P g s (m s) (k.at s h) }

  pub Total-on_option :
      {E A B : Type 0} (o : Option A) (m : Exec S E B) (f : A → Exec S E B)
      → Total P m
      → ((a : A) → o ≡ some a → Total P (f a))
      → Total P (on_option o m f)
  unfolding on_option
  Total-on_option none m f km kf = km
  Total-on_option (some a) m f km kf = kf a refl

pub ruleset total_rules = (
  Total-pure, Total-throw, Total-lift, Total-asks, Total-modify, Total-try, Total-map_error,
  Total-on_option, Total-bind,
)
