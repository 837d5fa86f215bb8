-- ===== src/OpenApi/Tests.antt =====
-- The theorems on the documentation at concrete inputs, and unit tests of
-- crates/nestforge-openapi/src/lib.rs. Schemas are numbers.
use nestforge.Base.{◌≡◌, refl, ℕ, some, List, [], ◌∷◌, String, codes}
use nestforge.Documentation.{
  OpenApiSchemaComponent, RouteDocumentation, new_documentation, with_schema_components,
}
use nestforge.Documentation.Components.{component_named, DistinctNames}
use nestforge.OpenApi.{
  OpenApiConfig, default_config, path_segments, relative_browser_path, with_json_path,
  relative_parts, join_segments,
}
use nestforge.OpenApi.Document.{from_routes}
use nestforge.OpenApi.Browser.{follow, is_relative, are_path_letters, is_path_letter, trailing}
use nestforge.OpenApi.Components.{mentioned, from_routes-components}

-- `relative_browser_path_handles_nested_paths`.
nested_paths :
    (relative_browser_path (codes "/api/v1/docs") (codes "/api/openapi.json")
      ≡ codes "../openapi.json")
    × (relative_browser_path (codes "/docs") (codes "/openapi.json") ≡ codes "openapi.json")
unfolding relative_browser_path path_segments relative_parts join_segments
nested_paths = (refl, refl)

abbrev config : OpenApiConfig
config = with_json_path (codes " api/openapi.json") default_config

-- A page with a slash at its end, and a path that a page stands beneath: the browser asks for another
-- path.
links_astray :
    (follow (codes "/docs/") (relative_browser_path (codes "/docs/") (codes "/openapi.json"))
      ≡ some (codes "/docs/openapi.json"))
    × (follow (codes "/api/docs/ui") (relative_browser_path (codes "/api/docs/ui") (codes "/api"))
        ≡ some (codes "/api/"))
unfolding relative_browser_path path_segments relative_parts join_segments follow is_relative
    are_path_letters is_path_letter trailing
links_astray = (refl, refl)

abbrev component : String → ℕ → OpenApiSchemaComponent ℕ
component name schema = record { name = name; schema = schema }

abbrev routes : List (RouteDocumentation ℕ)
routes =
    with_schema_components (component "User" 1 ∷ component "Role" 2 ∷ [])
      (new_documentation "GET" "/users")
    ∷ with_schema_components (component "User" 3 ∷ component "Post" 4 ∷ [])
        (new_documentation "GET" "/posts")
    ∷ []

from_routes-components_example :
    DistinctNames (from_routes "App" "1" routes).components
    × ((name : String)
        → component_named name (from_routes "App" "1" routes).components
          ≡ component_named name (mentioned routes))
from_routes-components_example = from_routes-components "App" "1" routes
