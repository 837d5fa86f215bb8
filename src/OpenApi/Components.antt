-- ===== src/OpenApi/Components.antt =====
-- The schemas of the document: one of each name that the routes mention.
use nestforge.Base.{◌≡◌, refl, sym, ap, ◌∙◌, Option, none, some, List, [], ◌∷◌, ◌++◌, String}
use nestforge.Documentation.{OpenApiSchemaComponent, RouteDocumentation, add_components}
use nestforge.Documentation.Components.{
  component_named, DistinctNames, or_else, or_else-none, add_components-DistinctNames,
  component_named-append, component_named-add_components,
}
use nestforge.OpenApi.Document.{collect_onto, collect_schema_components, from_routes}

module _ {Value : Type 0} where
  -- The components of all routes, one route's behind another's.
  abbrev pub mentioned : List (RouteDocumentation Value) → List (OpenApiSchemaComponent Value)
  mentioned [] = []
  mentioned (route ∷ routes) = route.schema_components ++ mentioned routes

  collect_onto-DistinctNames :
      (routes : List (RouteDocumentation Value)) (cs : List (OpenApiSchemaComponent Value))
      → DistinctNames cs
      → DistinctNames (collect_onto routes cs)
  unfolding collect_onto
  collect_onto-DistinctNames [] cs distinct = distinct
  collect_onto-DistinctNames (route ∷ routes) cs distinct =
      collect_onto-DistinctNames routes (add_components route.schema_components cs)
        (add_components-DistinctNames route.schema_components cs distinct)

  component_named-collect_onto :
      (name : String) (routes : List (RouteDocumentation Value))
      (cs : List (OpenApiSchemaComponent Value))
      → component_named name (collect_onto routes cs)
        ≡ or_else (component_named name cs) (component_named name (mentioned routes))
  unfolding collect_onto
  component_named-collect_onto name [] cs = sym (or_else-none (component_named name cs))
  component_named-collect_onto name (route ∷ routes) cs =
      component_named-collect_onto name routes (add_components route.schema_components cs)
      ∙ ap
          (λ (o : Option (OpenApiSchemaComponent Value)).
            or_else o (component_named name (mentioned routes)))
          (component_named-add_components name route.schema_components cs)
      ∙ regroup (component_named name cs) (component_named name route.schema_components)
      ∙ ap (or_else (component_named name cs))
          (sym (component_named-append name route.schema_components (mentioned routes)))
    where
      regroup :
          (o p : Option (OpenApiSchemaComponent Value))
          → or_else (or_else o p) (component_named name (mentioned routes))
            ≡ or_else o (or_else p (component_named name (mentioned routes)))
      regroup none p = refl
      regroup (some c) p = refl

  -- The schemas of a document that is made of routes have distinct names, and of every name that a route
  -- mentions the document has the schema that is mentioned first, and no other names.
  pub from_routes-components :
      (title version : String) (routes : List (RouteDocumentation Value))
      → DistinctNames (from_routes title version routes).components
        × ((name : String)
            → component_named name (from_routes title version routes).components
              ≡ component_named name (mentioned routes))
  unfolding from_routes collect_schema_components
  from_routes-components title version routes =
      (collect_onto-DistinctNames routes [] tt, λ name. component_named-collect_onto name routes [])
