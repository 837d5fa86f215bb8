-- ===== src/OpenApi/Document.antt =====
-- crates/nestforge-openapi/src/lib.rs: the document that is made of the routes, and the pages that are
-- served of it.
use nestforge.Base.{ℕ, Bool, false, Option, none, some, List, [], ◌∷◌, ◌++◌, map, String, Text}
use nestforge.Documentation.{
  OpenApiSchemaComponent, RouteResponseDocumentation, RouteDocumentation, add_components,
}
use nestforge.OpenApi.{
  OpenApiUi, simple, swagger_ui, redoc, OpenApiConfig, default_config, relative_browser_path,
}

pub record OpenApiResponse (Value : Type 0) : Type 0 where
  pub status : ℕ
  pub description : String
  pub schema : Option Value

pub record OpenApiRoute (Value : Type 0) : Type 0 where
  pub method : String
  pub path : String
  pub summary : Option String
  pub description : Option String
  pub tags : List String
  pub requires_auth : Bool
  pub required_roles : List String
  pub request_body : Option Value
  pub responses : List (OpenApiResponse Value)

pub record OpenApiDoc (Value : Type 0) : Type 0 where
  pub title : String
  pub version : String
  pub routes : List (OpenApiRoute Value)
  pub components : List (OpenApiSchemaComponent Value)

module _ {Value : Type 0} where
  -- `OpenApiDoc::new`.
  unfoldable pub new_doc : String → String → OpenApiDoc Value
  new_doc title version = record { title = title; version = version; routes = []; components = [] }

  unfoldable pub add_route : String → String → OpenApiDoc Value → OpenApiDoc Value
  add_route method path doc = record doc {
    routes =
        doc.routes
        ++ record {
          method = method;
          path = path;
          summary = none;
          description = none;
          tags = [];
          requires_auth = false;
          required_roles = [];
          request_body = none;
          responses = record { status = 200; description = "OK"; schema = none } ∷ [];
        }
          ∷ [];
  }

  abbrev pub response_of : RouteResponseDocumentation Value → OpenApiResponse Value
  response_of response = record {
    status = response.status;
    description = response.description;
    schema = response.schema;
  }

  abbrev pub route_of : RouteDocumentation Value → OpenApiRoute Value
  route_of route = record {
    method = route.method;
    path = route.path;
    summary = route.summary;
    description = route.description;
    tags = route.tags;
    requires_auth = route.requires_auth;
    required_roles = route.required_roles;
    request_body = route.request_body;
    responses = map response_of route.responses;
  }

  -- The loop of `collect_schema_components`, over the components that are there.
  unfoldable pub collect_onto :
      List (RouteDocumentation Value)
      → List (OpenApiSchemaComponent Value)
      → List (OpenApiSchemaComponent Value)
  unfolding add_components
  collect_onto [] components = components
  collect_onto (route ∷ routes) components =
      collect_onto routes (add_components route.schema_components components)

  unfoldable pub collect_schema_components :
      List (RouteDocumentation Value) → List (OpenApiSchemaComponent Value)
  unfolding collect_onto
  collect_schema_components routes = collect_onto routes []

  unfoldable pub from_routes : String → String → List (RouteDocumentation Value) → OpenApiDoc Value
  unfolding collect_schema_components
  from_routes title version routes = record {
    title = title;
    version = version;
    routes = map route_of routes;
    components = collect_schema_components routes;
  }

-- What a page is rendered from: the title of the document and the paths that stand in its HTML. The
-- JSON and the YAML are those of the document.
pub data Page : Type 0 where
  json_page yaml_page : Page
  simple_page : (json yaml : Text) → (swagger redoc : Option Text) → Page
  swagger_page redoc_page : (json : Text) → Page

abbrev link_from : Text → Option Text → Option Text
link_from from none = none
link_from from (some path) = some (relative_browser_path from path)

unfoldable pub render_simple_docs : OpenApiConfig → Page
render_simple_docs config =
    simple_page (relative_browser_path config.docs_path config.json_path)
      (relative_browser_path config.docs_path config.yaml_path)
      (link_from config.docs_path config.swagger_ui_path)
      (link_from config.docs_path config.redoc_path)

unfoldable pub docs_page : OpenApiUi → OpenApiConfig → Page
unfolding render_simple_docs
docs_page simple config = render_simple_docs config
docs_page swagger_ui config = swagger_page (relative_browser_path config.docs_path config.json_path)
docs_page redoc config = redoc_page (relative_browser_path config.docs_path config.json_path)

-- `docs_router_with_config`: its routes, in the order in which they are added.
unfoldable pub docs_router_with_config : OpenApiConfig → List (Text × Page)
unfolding docs_page
docs_router_with_config config =
    (config.json_path, json_page)
      ∷ (config.yaml_path, yaml_page)
      ∷ (config.docs_path, docs_page config.default_ui config)
      ∷ elim config.swagger_ui_path [
        | none ↦ []
        | some path ↦ (path, swagger_page (relative_browser_path path config.json_path)) ∷ []
      ]
    ++ elim config.redoc_path [
      | none ↦ []
      | some path ↦ (path, redoc_page (relative_browser_path path config.json_path)) ∷ []
    ]

-- `docs_router`.
abbrev pub docs_router : List (Text × Page)
docs_router = docs_router_with_config default_config
