-- ===== src/OpenApi/Links.antt =====
-- The links of the pages lead to what they name.
use nestforge.Base.{◌≡◌, Option, none, some, Text}
use nestforge.OpenApi.{OpenApiConfig}
use nestforge.OpenApi.Browser.{follow, IsPlain, IsApart}
use nestforge.OpenApi.Document.{Page, json_page, yaml_page, simple_page, swagger_page, redoc_page}

-- A browser that follows the link from a page asks for the path.
abbrev pub LeadsTo : Text → Text → Text → Type 0
LeadsTo page link path = follow page link ≡ some path

abbrev pub LeadsToOption : Text → Option Text → Option Text → Type 0
LeadsToOption page none none = Unit
LeadsToOption page (some link) (some path) = LeadsTo page link path
LeadsToOption page none (some path) = ¬ Unit {0}
LeadsToOption page (some link) none = ¬ Unit {0}

abbrev pub HasLinks : OpenApiConfig → Text × Page → Type 0
HasLinks config (path, json_page) = path ≡ config.json_path
HasLinks config (path, yaml_page) = path ≡ config.yaml_path
HasLinks config (path, simple_page json yaml to_swagger to_redoc) =
    LeadsTo path json config.json_path
    × LeadsTo path yaml config.yaml_path
    × LeadsToOption path to_swagger config.swagger_ui_path
    × LeadsToOption path to_redoc config.redoc_path
HasLinks config (path, swagger_page json) = LeadsTo path json config.json_path
HasLinks config (path, redoc_page json) = LeadsTo path json config.json_path

-- Both paths are plain, and the page does not stand in the directory of the other or beneath it.
abbrev pub IsReachable : Text → Text → Type 0
IsReachable page path = IsPlain page × IsPlain path × IsApart page path

abbrev pub OfOption : (Text → Type 0) → Option Text → Type 0
OfOption P none = Unit
OfOption P (some path) = P path
