-- ===== src/Documentation/Components.antt =====
-- Components are collected under distinct names, and the first of a name stays.
use nestforge.Base.{
  ◌≡◌, refl, sym, ap, subst, ◌∙◌, Bool, true, false, ◌||◌, Option, none, some, List, [], ◌∷◌, ◌++◌,
  String, str_eq, eq_iff, if◌then◌else◌, any, Bool-cases, inl, inr, arith,
}
use nestforge.Documentation.{OpenApiSchemaComponent, has_name, add_component, add_components}

module _ {Value : Type 0} where
  -- The first component of a name.
  abbrev pub component_named :
      String → List (OpenApiSchemaComponent Value) → Option (OpenApiSchemaComponent Value)
  component_named name [] = none
  component_named name (c ∷ cs) =
      let rest = component_named name cs in if str_eq c.name name then some c else rest

  abbrev pub DistinctNames : List (OpenApiSchemaComponent Value) → Type 0
  DistinctNames [] = Unit
  DistinctNames (c ∷ cs) = (any (has_name c.name) cs ≡ false) × DistinctNames cs

  any-append :
      (name : String) (cs ds : List (OpenApiSchemaComponent Value))
      → any (has_name name) (cs ++ ds) ≡ (any (has_name name) cs || any (has_name name) ds)
  any-append name [] ds = refl
  any-append name (c ∷ cs) ds = ground (arith, any-append name cs ds)

  DistinctNames-append :
      (cs : List (OpenApiSchemaComponent Value)) (d : OpenApiSchemaComponent Value)
      → any (has_name d.name) cs ≡ false
      → DistinctNames cs
      → DistinctNames (cs ++ d ∷ [])
  DistinctNames-append [] d h distinct = (refl, tt)
  DistinctNames-append (c ∷ cs) d h (first, distinct) = (
    ground (arith, any-append c.name cs (d ∷ []), eq_iff c.name d.name, eq_iff d.name c.name),
    DistinctNames-append cs d (ground (arith, h)) distinct,
  )

  pub add_components-DistinctNames :
      (new cs : List (OpenApiSchemaComponent Value))
      → DistinctNames cs
      → DistinctNames (add_components new cs)
  unfolding add_components add_component
  add_components-DistinctNames [] cs distinct = distinct
  add_components-DistinctNames (c ∷ new) cs distinct =
      elim (Bool-cases (any (has_name c.name) cs)) [
        | inl known ↦ rw (known) (add_components-DistinctNames new cs distinct)
        | inr fresh ↦ rw (fresh) (
            add_components-DistinctNames new (cs ++ c ∷ [])
              (DistinctNames-append cs c fresh distinct))
      ]

  -- The first of two, or the second.
  abbrev pub or_else :
      Option (OpenApiSchemaComponent Value)
      → Option (OpenApiSchemaComponent Value)
      → Option (OpenApiSchemaComponent Value)
  or_else none o = o
  or_else (some c) o = some c

  pub or_else-none : (o : Option (OpenApiSchemaComponent Value)) → or_else o none ≡ o
  or_else-none none = refl
  or_else-none (some c) = refl

  pub component_named-append :
      (name : String) (cs ds : List (OpenApiSchemaComponent Value))
      → component_named name (cs ++ ds)
        ≡ or_else (component_named name cs) (component_named name ds)
  component_named-append name [] ds = refl
  component_named-append name (c ∷ cs) ds = ground (arith, component_named-append name cs ds)

  component_named-any :
      (name : String) (cs : List (OpenApiSchemaComponent Value))
      → any (has_name name) cs ≡ true
      → (c : OpenApiSchemaComponent Value) × (component_named name cs ≡ some c)
  component_named-any name [] h = cc
  component_named-any name (c ∷ cs) h = elim (Bool-cases (str_eq c.name name)) [
    | inl same ↦ (c, rw same refl)
    | inr other ↦
        let (d, found) = component_named-any name cs (ground (arith, h, other)) in
        (d, rw (other, found) refl)
  ]

  component_named-add_component :
      (name : String) (c : OpenApiSchemaComponent Value) (cs : List (OpenApiSchemaComponent Value))
      → component_named name (add_component c cs)
        ≡ or_else (component_named name cs) (component_named name (c ∷ []))
  unfolding add_component
  component_named-add_component name c cs = elim (Bool-cases (any (has_name c.name) cs)) [
    | inr fresh ↦ rw (fresh, add_component) (component_named-append name cs (c ∷ []))
    | inl known ↦
        let (d, found) = component_named-any c.name cs known in
        elim (Bool-cases (str_eq c.name name)) [
          | inr other ↦
              rw (known, other, add_component) (sym (or_else-none (component_named name cs)))
          | inl same ↦
              let it : component_named name cs ≡ some d =
                subst (λ n. component_named n cs ≡ some d) ((eq_iff c.name name).0 same) found in
              rw (known, it, add_component) refl
        ]
  ]

  -- Of every name the first component that was there, or else the first that is added, stays; and names
  -- that were distinct are so still.
  pub component_named-add_components :
      (name : String) (new cs : List (OpenApiSchemaComponent Value))
      → component_named name (add_components new cs)
        ≡ or_else (component_named name cs) (component_named name new)
  unfolding add_components
  component_named-add_components name [] cs = sym (or_else-none (component_named name cs))
  component_named-add_components name (c ∷ new) cs =
      component_named-add_components name new (add_component c cs)
      ∙ ap (λ (o : Option (OpenApiSchemaComponent Value)). or_else o (component_named name new))
          (component_named-add_component name c cs)
      ∙ regroup (component_named name cs) (str_eq c.name name)
    where
      regroup :
          (o : Option (OpenApiSchemaComponent Value)) (b : Bool)
          → or_else (or_else o (if b then some c else none)) (component_named name new)
            ≡ or_else o (if b then some c else component_named name new)
      regroup none true = refl
      regroup none false = refl
      regroup (some d) b = refl
