-- ===== src/Base/Exec/Keeps.antt =====
-- A relation between the states before and after, for each way to build an action.
use mathlib.Core.Option.{Option, none, some}
use nestforge.Base.Results.{Result, ok, err}
use nestforge.Base.Exec.{Exec, pure, throw, lift, asks, modify, try, map_error, ◌>>=◌, on_option}

-- The state of an outcome is related to `s`, whatever the result.
abbrev pub After : {S B : Type 0} → (S → S → Type 0) → S → Option (B × S) → Type 0
After R s none = Unit
After R s (some (_, s')) = R s s'

pub record Keeps {S E A : Type 0} (R : S → S → Type 0) (m : Exec S E A) : Type 0 where
  pub at : (s : S) → After R s (m s)

pub record IsPreorder {S : Type 0} (R : S → S → Type 0) : Type 0 where
  pub same : (s : S) → R s s
  pub then_by : (s t u : S) → R s t → R t u → R s u

module _ {S : Type 0} {R : S → S → Type 0} (p : IsPreorder R) where
  pub Keeps-asks : {E A : Type 0} (f : S → Result E A) → Keeps R (asks f)
  unfolding asks
  Keeps-asks f = record { at = λ s. p.same s }

  pub Keeps-pure : {E A : Type 0} (a : A) → Keeps {S = S} {E = E} R (pure a)
  unfolding pure
  Keeps-pure a = record { at = λ s. p.same s }

  pub Keeps-throw : {E A : Type 0} (e : E) → Keeps {S = S} {A = A} R (throw e)
  unfolding throw
  Keeps-throw e = record { at = λ s. p.same s }

  pub Keeps-lift : {E A : Type 0} (r : Result E A) → Keeps {S = S} R (lift r)
  unfolding lift
  Keeps-lift r = record { at = λ s. p.same s }

  After-trans : {B : Type 0} (s s' : S) (o : Option (B × S)) → R s s' → After R s' o → After R s o
  After-trans s s' none h q = tt
  After-trans s s' (some (r, s'')) h q = p.then_by s s' s'' h q

  After-bind :
      {E A B : Type 0} (s : S) (o : Option (Result E A × S)) (f : A → Exec S E B)
      → After R s o
      → ((a : A) → Keeps R (f a))
      → After R s (◌>>=◌ (λ _. o) f s)
  unfolding ◌>>=◌
  After-bind s none f h k = tt
  After-bind s (some (err e, s')) f h k = h
  After-bind s (some (ok a, s')) f h k = After-trans s s' (f a s') h ((k a).at s')

  pub Keeps-bind :
      {E A B : Type 0} (m : Exec S E A) (f : A → Exec S E B)
      → Keeps R m
      → ((a : A) → Keeps R (f a))
      → Keeps R (m >>= f)
  unfolding ◌>>=◌
  Keeps-bind m f km kf = record { at = λ s. After-bind s (m s) f (km.at s) kf }

module _ {S : Type 0} {R : S → S → Type 0} where
  pub Keeps-modify : {E : Type 0} (f : S → S) → ((s : S) → R s (f s)) → Keeps {E = E} R (modify f)
  unfolding modify
  Keeps-modify f h = record { at = h }

module _ {S : Type 0} (R : S → S → Type 0) where
  After-try :
      {E A : Type 0} (F : Type 0) (s : S) (o : Option (Result E A × S))
      → After R s o
      → After R s (try {F = F} (λ _. o) s)
  unfolding try
  After-try F s none h = tt
  After-try F s (some (r, s')) h = h

  After-map_error :
      {E F A : Type 0} (g : E → F) (s : S) (o : Option (Result E A × S))
      → After R s o
      → After R s (map_error g (λ _. o) s)
  unfolding map_error
  After-map_error g s none h = tt
  After-map_error g s (some (ok a, s')) h = h
  After-map_error g s (some (err e, s')) h = h

module _ {S : Type 0} {R : S → S → Type 0} where
  pub Keeps-try : {E F A : Type 0} (m : Exec S E A) → Keeps R m → Keeps {E = F} R (try m)
  unfolding try
  Keeps-try {F = F} m k = record { at = λ s. After-try R F s (m s) (k.at s) }

  pub Keeps-map_error :
      {E F A : Type 0} (g : E → F) (m : Exec S E A) → Keeps R m → Keeps R (map_error g m)
  unfolding map_error
  Keeps-map_error g m k = record { at = λ s. After-map_error R g s (m s) (k.at s) }

  pub Keeps-on_option :
      {E A B : Type 0} (o : Option A) (m : Exec S E B) (f : A → Exec S E B)
      → Keeps R m
      → ((a : A) → Keeps R (f a))
      → Keeps R (on_option o m f)
  unfolding on_option
  Keeps-on_option none m f km kf = km
  Keeps-on_option (some a) m f km kf = kf a

pub ruleset keeps_rules = (
  Keeps-pure, Keeps-throw, Keeps-lift, Keeps-asks, Keeps-modify, Keeps-try, Keeps-map_error,
  Keeps-on_option, Keeps-bind,
)
