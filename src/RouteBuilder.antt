-- ===== src/RouteBuilder.antt =====
-- crates/nestforge-core/src/route_builder.rs: `RouteBuilder::full_path`, of a controller with some
-- base path.
pub mod Paths
mod Tests
use nestforge.Base.{
  Bool, true, false, ◌||◌, Option, none, some, List, [], ◌∷◌, ◌++◌, if◌then◌else◌, Text, slash,
  is_slash, text_eq, starts_with, trim, trim_matches, trim_start_matches, trim_end_matches,
}

-- The letter v.
abbrev pub letter_v : Text
letter_v = 118 ∷ []

-- The path without a version.
unfoldable pub route_path : Text → Text → Text
unfolding text_eq trim_start_matches trim_end_matches
route_path base_path path =
    let base = trim_end_matches is_slash base_path in
    let trimmed = trim path in
    let sub = if text_eq trimmed (slash ∷ []) then [] else trim_start_matches is_slash trimmed in
    if text_eq base []
    then (if text_eq sub [] then slash ∷ [] else slash ∷ sub)
    else (if text_eq sub [] then base else base ++ slash ∷ sub)

-- The version as it stands in a path.
unfoldable pub normalized_version : Text → Text
unfolding starts_with
normalized_version raw = if starts_with letter_v raw then raw else letter_v ++ raw

unfoldable pub full_path : Text → Text → Option Text → Text
unfolding route_path normalized_version text_eq trim_start_matches trim_end_matches
full_path base_path path none = route_path base_path path
full_path base_path path (some version) =
    let route = route_path base_path path in
    let raw = trim_matches is_slash (trim version) in
    if text_eq raw []
    then route
    else (if text_eq route (slash ∷ [])
        then slash ∷ normalized_version raw
        else slash ∷ normalized_version raw ++ route)
