-- ===== src/Base/Decimals.antt =====
-- Numbers as `Display` prints them: decimal digits with no leading zero.
use Prim.Native.Nat.{ℕ, zero, suc, ◌+◌, ◌-◌, ◌*◌, ◌/◌, ◌%◌, ◌^◌, ◌≤◌, ◌<◌}
use mathlib.Core.Path.{◌≡◌, refl, sym, ap, ◌∙◌}
use mathlib.Core.List.{[], ◌∷◌, ◌++◌}
use native.Mathlib.Omega.{arith}
use nestforge.Base.Tests.{ltb, if◌then◌else◌}
use nestforge.Base.Lists.{All, All-append}
use nestforge.Base.Texts.{Text, codes}

-- With fuel for `suc fuel` digits.
unfoldable pub digits : ℕ → ℕ → Text
digits zero n = (48 + n % 10) ∷ []
digits (suc fuel) n =
    let rest = digits fuel (n / 10) in
    if ltb n 10 then (48 + n) ∷ [] else rest ++ (48 + n % 10) ∷ []

-- A `u128` has 39 digits at most.
unfoldable pub decimal : ℕ → Text
unfolding digits
decimal n = digits 38 n

abbrev pub IsDigit : ℕ → Type 0
IsDigit c = (48 ≤ c) × (c ≤ 57)

abbrev number_from : ℕ → Text → ℕ
number_from n [] = n
number_from n (c ∷ s) = number_from (n * 10 + (c - 48)) s

number_from-append :
    (n c : ℕ) (s : Text) → number_from n (s ++ c ∷ []) ≡ number_from n s * 10 + (c - 48)
number_from-append n c [] = refl
number_from-append n c (d ∷ s) = number_from-append (n * 10 + (d - 48)) c s

digits-All : (fuel n : ℕ) → All IsDigit (digits fuel n)
unfolding digits
digits-All zero n = (omega arith, tt)
digits-All (suc fuel) n = ground (
  arith,
  All-append IsDigit (digits fuel (n / 10)) ((48 + n % 10) ∷ []) (digits-All fuel (n / 10)),
)

number_from-digits : (fuel n : ℕ) → n < 10 ^ suc fuel → number_from 0 (digits fuel n) ≡ n
unfolding digits
number_from-digits zero n h = ground arith
number_from-digits (suc fuel) n h = ground (
  arith,
  number_from-append 0 (48 + n % 10) (digits fuel (n / 10)),
  number_from-digits fuel (n / 10),
)

pub decimal-All : (n : ℕ) → All IsDigit (decimal n)
unfolding decimal
decimal-All n = digits-All 38 n

-- Numbers of 128 bits print differently.
pub decimal_injective : (m n : ℕ) → m < 2 ^ 128 → n < 2 ^ 128 → decimal m ≡ decimal n → m ≡ n
unfolding decimal
decimal_injective m n hm hn e =
    sym (number_from-digits 38 m (omega arith))
    ∙ ap (number_from 0) e
    ∙ number_from-digits 38 n (omega arith)

decimal_max : decimal 18446744073709551615 ≡ codes "18446744073709551615"
unfolding decimal
decimal_max = refl
