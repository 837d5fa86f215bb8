-- ===== src/Documentation.antt =====
-- crates/nestforge-core/src/documentation.rs: the documentation of a route, built option by option. JSON
-- schemas are opaque.
pub mod Components
use nestforge.Base.{
  ℕ, Bool, true, false, Option, none, some, List, [], ◌∷◌, ◌++◌, String, str_eq, ltb, leb, ◌&&◌,
  if◌then◌else◌, any,
}

pub record OpenApiSchemaComponent (Value : Type 0) : Type 0 where
  pub name : String
  pub schema : Value

pub record RouteResponseDocumentation (Value : Type 0) : Type 0 where
  pub status : ℕ
  pub description : String
  pub schema : Option Value

pub record RouteDocumentation (Value : Type 0) : Type 0 where
  pub method : String
  pub path : String
  pub summary : Option String
  pub description : Option String
  pub tags : List String
  pub responses : List (RouteResponseDocumentation Value)
  pub requires_auth : Bool
  pub required_roles : List String
  pub request_body : Option Value
  pub schema_components : List (OpenApiSchemaComponent Value)

module _ {Value : Type 0} where
  abbrev pub ok_response : Option Value → RouteResponseDocumentation Value
  ok_response schema = record { status = 200; description = "OK"; schema = schema }

  -- `RouteDocumentation::new`.
  unfoldable pub new_documentation : String → String → RouteDocumentation Value
  new_documentation method path = record {
    method = method;
    path = path;
    summary = none;
    description = none;
    tags = [];
    responses = ok_response none ∷ [];
    requires_auth = false;
    required_roles = [];
    request_body = none;
    schema_components = [];
  }

  unfoldable pub with_summary : String → RouteDocumentation Value → RouteDocumentation Value
  with_summary summary doc = record doc { summary = some summary }

  unfoldable pub with_description : String → RouteDocumentation Value → RouteDocumentation Value
  with_description description doc = record doc { description = some description }

  unfoldable pub with_tags : List String → RouteDocumentation Value → RouteDocumentation Value
  with_tags tags doc = record doc { tags = tags }

  unfoldable pub with_responses :
      List (RouteResponseDocumentation Value) → RouteDocumentation Value → RouteDocumentation Value
  with_responses responses doc = record doc { responses = responses }

  unfoldable pub with_request_body_schema :
      Value → RouteDocumentation Value → RouteDocumentation Value
  with_request_body_schema schema doc = record doc { request_body = some schema }

  abbrev pub is_success : RouteResponseDocumentation Value → Bool
  is_success response = leb 200 response.status && ltb response.status 300

  -- The schema goes to the first response of success, if there is one.
  unfoldable pub set_success_schema :
      Value
      → List (RouteResponseDocumentation Value)
      → Option (List (RouteResponseDocumentation Value))
  set_success_schema schema [] = none
  set_success_schema schema (response ∷ responses) =
      let rest = set_success_schema schema responses in
      if is_success response
      then some (record response { schema = some schema } ∷ responses)
      else elim rest [ none ↦ none | some changed ↦ some (response ∷ changed) ]

  unfoldable pub with_success_response_schema :
      Value → RouteDocumentation Value → RouteDocumentation Value
  unfolding set_success_schema
  with_success_response_schema schema doc = elim (set_success_schema schema doc.responses) [
    | some responses ↦ record doc { responses = responses }
    | none ↦ elim doc.responses [
      | response ∷ responses ↦ record doc {
        responses = record response { schema = some schema } ∷ responses;
      }
      | [] ↦ record doc { responses = ok_response (some schema) ∷ [] }
    ]
  ]

  abbrev pub has_name : String → OpenApiSchemaComponent Value → Bool
  has_name name existing = str_eq existing.name name

  unfoldable pub add_component :
      OpenApiSchemaComponent Value
      → List (OpenApiSchemaComponent Value)
      → List (OpenApiSchemaComponent Value)
  add_component component components =
      if any (has_name component.name) components then components else components ++ component ∷ []

  -- The loop over the components that are added.
  unfoldable pub add_components :
      List (OpenApiSchemaComponent Value)
      → List (OpenApiSchemaComponent Value)
      → List (OpenApiSchemaComponent Value)
  unfolding add_component
  add_components [] components = components
  add_components (component ∷ rest) components =
      add_components rest (add_component component components)

  unfoldable pub with_schema_components :
      List (OpenApiSchemaComponent Value) → RouteDocumentation Value → RouteDocumentation Value
  unfolding add_components
  with_schema_components components doc = record doc {
    schema_components = add_components components doc.schema_components;
  }

  unfoldable pub require_auth : RouteDocumentation Value → RouteDocumentation Value
  require_auth doc = record doc { requires_auth = true }

  unfoldable pub with_required_roles :
      List String → RouteDocumentation Value → RouteDocumentation Value
  with_required_roles roles doc = record doc { required_roles = roles }
