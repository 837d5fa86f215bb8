-- ===== src/Base/Pieces.antt =====
-- Laws of `split`, `split_once` and `trim` on texts without the characters that they look for.
use Prim.Native.Nat.{ℕ}
use mathlib.Core.Path.{◌≡◌, refl, ap, ◌∙◌}
use mathlib.Core.Logic.{◌≢◌}
use mathlib.Core.Bool.{Bool, true, false}
use mathlib.Core.Option.{some}
use mathlib.Core.List.{[], ◌∷◌, ◌++◌}
use native.Mathlib.Omega.{arith}
use nestforge.Base.Tests.{==_iff, ==_refl}
use nestforge.Base.Lists.{All}
use nestforge.Base.Texts.{
  Text, split, split_once, trim_start_matches, trim_end_matches, trim_matches,
}

pub split_of_absent : (p : ℕ) (s : Text) → All (λ c. c ≢ p) s → split p s ≡ s ∷ []
unfolding split
split_of_absent p [] h = refl
split_of_absent p (c ∷ cs) h = ground (arith, ==_iff c p, split_of_absent p cs h.1)

pub split-append : (p : ℕ) (s t : Text) → All (λ c. c ≢ p) s → split p (s ++ p ∷ t) ≡ s ∷ split p t
unfolding split
split-append p [] t h = rw (==_refl p, split) refl
split-append p (c ∷ cs) t h = ground (arith, ==_iff c p, split-append p cs t h.1)

pub split_once-append :
    (p : ℕ) (s t : Text) → All (λ c. c ≢ p) s → split_once p (s ++ p ∷ t) ≡ some (s, t)
unfolding split_once
split_once-append p [] t h = rw (==_refl p, split_once) refl
split_once-append p (c ∷ cs) t h = ground (arith, ==_iff c p, split_once-append p cs t h.1)

pub trim_start_matches-append :
    (p : ℕ → Bool) (s t : Text)
    → All (λ c. p c ≡ true) s
    → trim_start_matches p (s ++ t) ≡ trim_start_matches p t
unfolding trim_start_matches
trim_start_matches-append p [] t h = refl
trim_start_matches-append p (c ∷ cs) t h =
    rw (h.0, trim_start_matches) (trim_start_matches-append p cs t h.1)

trim_start_matches_of_none :
    (p : ℕ → Bool) (s : Text) → All (λ c. p c ≡ false) s → trim_start_matches p s ≡ s
unfolding trim_start_matches
trim_start_matches_of_none p [] h = refl
trim_start_matches_of_none p (c ∷ cs) h = rw (h.0, trim_start_matches) refl

trim_end_matches_of_none :
    (p : ℕ → Bool) (s : Text) → All (λ c. p c ≡ false) s → trim_end_matches p s ≡ s
unfolding trim_end_matches
trim_end_matches_of_none p [] h = refl
trim_end_matches_of_none p (c ∷ []) h = rw (h.0, trim_end_matches) refl
trim_end_matches_of_none p (c ∷ d ∷ ds) h =
    rw (trim_end_matches_of_none p (d ∷ ds) h.1, trim_end_matches) refl

pub trim_matches_of_none :
    (p : ℕ → Bool) (s : Text) → All (λ c. p c ≡ false) s → trim_matches p s ≡ s
trim_matches_of_none p s h =
    ap (trim_end_matches p) (trim_start_matches_of_none p s h) ∙ trim_end_matches_of_none p s h
