-- ===== src/OpenApi.antt =====
-- crates/nestforge-openapi/src/lib.rs: the configuration of the documentation, the document that is made
-- of the routes, and the relative paths by which its pages find each other. The documentation of routes
-- is that of crates/nestforge-core/src/documentation.rs; JSON schemas are opaque.
pub mod Relative
pub mod Document
pub mod Browser
pub mod Links
pub mod Components
mod Tests
use nestforge.Base.{
  ℕ, zero, suc, ◌-◌, Bool, Option, none, some, List, [], ◌∷◌, ◌++◌, map, if◌then◌else◌, any, length,
  drop, drop_last, Text, codes, slash, is_slash, text_eq, starts_with, trim, trim_matches, split,
  ◌||◌, trim_start_matches, trim_end_matches,
}

pub data OpenApiUi : Type 0 where
  simple swagger_ui redoc : OpenApiUi

pub record OpenApiConfig : Type 0 where
  pub json_path : Text
  pub yaml_path : Text
  pub docs_path : Text
  pub swagger_ui_path : Option Text
  pub redoc_path : Option Text
  pub default_ui : OpenApiUi

-- `OpenApiConfig::default`.
abbrev pub default_config : OpenApiConfig
default_config = record {
  json_path = codes "/openapi.json";
  yaml_path = codes "/openapi.yaml";
  docs_path = codes "/docs";
  swagger_ui_path = some (codes "/swagger-ui");
  redoc_path = some (codes "/redoc");
  default_ui = swagger_ui;
}

-- `normalize_path`.
unfoldable pub documentation_path : Text → Text → Text
unfolding text_eq starts_with trim_start_matches trim_end_matches
documentation_path path default_path =
    let trimmed = trim path in
    if text_eq trimmed [] || text_eq trimmed (slash ∷ [])
    then default_path
    else if starts_with (slash ∷ []) trimmed
    then trimmed
    else slash ∷ trimmed

unfoldable pub with_json_path : Text → OpenApiConfig → OpenApiConfig
unfolding documentation_path
with_json_path path config = record config {
  json_path = documentation_path path (codes "/openapi.json");
}

unfoldable pub with_yaml_path : Text → OpenApiConfig → OpenApiConfig
unfolding documentation_path
with_yaml_path path config = record config {
  yaml_path = documentation_path path (codes "/openapi.yaml");
}

unfoldable pub with_docs_path : Text → OpenApiConfig → OpenApiConfig
unfolding documentation_path
with_docs_path path config = record config { docs_path = documentation_path path (codes "/docs") }

unfoldable pub with_swagger_ui_path : Text → OpenApiConfig → OpenApiConfig
unfolding documentation_path
with_swagger_ui_path path config = record config {
  swagger_ui_path = some (documentation_path path (codes "/swagger-ui"));
}

unfoldable pub without_swagger_ui : OpenApiConfig → OpenApiConfig
without_swagger_ui config = record config { swagger_ui_path = none }

unfoldable pub with_redoc_path : Text → OpenApiConfig → OpenApiConfig
unfolding documentation_path
with_redoc_path path config = record config {
  redoc_path = some (documentation_path path (codes "/redoc"));
}

unfoldable pub without_redoc : OpenApiConfig → OpenApiConfig
without_redoc config = record config { redoc_path = none }

unfoldable pub with_default_ui : OpenApiUi → OpenApiConfig → OpenApiConfig
with_default_ui ui config = record config { default_ui = ui }

-- The segments of a path that are not empty.
unfoldable pub non_empty : List Text → List Text
non_empty [] = []
non_empty (s ∷ ss) = let rest = non_empty ss in elim s [ [] ↦ rest | c ∷ cs ↦ (c ∷ cs) ∷ rest ]

unfoldable pub path_segments : Text → List Text
unfolding split non_empty trim_start_matches trim_end_matches
path_segments path = non_empty (split slash (trim_matches is_slash path))

-- The length of the longest common prefix.
unfoldable pub common_len : List Text → List Text → ℕ
unfolding text_eq
common_len [] to = 0
common_len (f ∷ from) [] = 0
common_len (f ∷ from) (t ∷ to) =
    let rest = common_len from to in if text_eq f t then suc rest else 0

abbrev pub dots : Text
dots = codes ".."

abbrev pub repeated : ℕ → List Text
repeated zero = []
repeated (suc n) = dots ∷ repeated n

-- `parts.join("/")`.
unfoldable pub join_segments : List Text → Text
join_segments [] = []
join_segments (s ∷ []) = s
join_segments (s ∷ t ∷ ts) = s ++ slash ∷ join_segments (t ∷ ts)

unfoldable pub relative_parts : List Text → List Text → List Text
unfolding common_len
relative_parts from_dir to =
    let common = common_len from_dir to in repeated (length from_dir - common) ++ drop common to

unfoldable pub relative_browser_path : Text → Text → Text
unfolding path_segments relative_parts join_segments
relative_browser_path from_path to_path =
    elim (relative_parts (drop_last (path_segments from_path)) (path_segments to_path)) [
      | [] ↦ codes "."
      | p ∷ ps ↦ join_segments (p ∷ ps)
    ]
