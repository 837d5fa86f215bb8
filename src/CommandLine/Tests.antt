-- ===== src/CommandLine/Tests.antt =====
-- The theorems on names and options at concrete inputs, with the letters of ASCII.
use nestforge.Base.{
  ℕ, ◌≡◌, refl, ap, ◌+◌, ◌-◌, true, ◌&&◌, [], ◌∷◌, if◌then◌else◌, leb, Text, codes, All, arith,
}
use nestforge.CommandLine.{Cases, to_snake_case, to_pascal_case, singular_name}
use nestforge.CommandLine.Names.{IsLetter, IsNormal, to_pascal_case-to_snake_case}

abbrev ascii : Cases
ascii = record {
  is_uppercase = λ c. leb 65 c && leb c 90;
  to_lowercase = λ c. if leb 65 c && leb c 90 then (c + 32) ∷ [] else c ∷ [];
  to_uppercase = λ c. if leb 97 c && leb c 122 then (c - 32) ∷ [] else c ∷ [];
}

snake_user_profile : to_snake_case ascii (codes "User-Profile X") ≡ codes "user__profile__x"
unfolding to_snake_case
snake_user_profile = refl

pascal_user_profile : to_pascal_case ascii (codes "user_profile-v2") ≡ codes "UserProfileV2"
unfolding to_pascal_case
pascal_user_profile = refl

singular_categories : singular_name (codes "categories") ≡ codes "category"
unfolding singular_name
singular_categories = refl

singular_ies : singular_name (codes "ies") ≡ codes "ie"
unfolding singular_name
singular_ies = refl

singular_s : singular_name (codes "s") ≡ codes "s"
unfolding singular_name
singular_s = refl

abbrev http_server : Text
http_server = codes "HTTPServer"

small : (c : ℕ) → (leb 97 c && leb c 122) ≡ true → IsLetter ascii c
small c h = record { is_no_separator = ground arith; comes_back = λ upper. absurd (ground arith) }

is_small : (c : ℕ) → (leb 65 c && leb c 90) ≡ true → (leb 97 (c + 32) && leb (c + 32) 122) ≡ true
is_small c h = ground arith

capital : (c : ℕ) → (leb 65 c && leb c 90) ≡ true → IsLetter ascii c
capital c h = record {
  is_no_separator = ground arith;
  comes_back = λ upper.
      (c + 32, rw h refl, ground arith, rw (is_small c h) (ap (λ (d : ℕ). d ∷ []) (omega arith)));
}

to_pascal_case-to_snake_case_example :
    to_pascal_case ascii (to_snake_case ascii (codes "IpV")) ≡ codes "IpV"
to_pascal_case-to_snake_case_example =
    to_pascal_case-to_snake_case ascii 73 (codes "pV") refl
      (capital 73 refl, (small 112 refl, (capital 86 refl, tt)))

ascii_small : (c : ℕ) → ascii.is_uppercase c ≡ true → All (IsNormal ascii) (ascii.to_lowercase c)
ascii_small c h = rw h ((ground arith, ground arith, ground arith), tt)
