-- ===== src/RouteBuilder/Tests.antt =====
-- The theorems on the paths of routes at concrete inputs.
use nestforge.Base.{
  ◌≡◌, refl, some, [], ◌∷◌, Text, slash, text_eq, starts_with, trim_start_matches, trim_end_matches,
}
use nestforge.RouteBuilder.{route_path, normalized_version, full_path}

-- "/u", ":id" and "1".
abbrev users : Text
users = slash ∷ 117 ∷ []

abbrev by_id : Text
by_id = 58 ∷ 105 ∷ 100 ∷ []

abbrev one : Text
one = 49 ∷ []

-- "/v1/u/:id".
users_path :
    full_path users by_id (some one) ≡ slash ∷ 118 ∷ 49 ∷ slash ∷ 117 ∷ slash ∷ 58 ∷ 105 ∷ 100 ∷ []
unfolding full_path route_path normalized_version text_eq starts_with trim_start_matches
    trim_end_matches
users_path = refl
