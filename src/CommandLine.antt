-- ===== src/CommandLine.antt =====
-- crates/nestforge-cli/src/main.rs: the conversions of names that the generators use, and their options.
-- The letters' cases are those of Unicode, which Rust's library has, and are parameters.
pub mod Names
pub mod Options
mod Tests
use nestforge.Base.{
  ℕ, ◌+◌, Bool, true, false, not, ◌&&◌, ◌||◌, Option, none, some, List, [], ◌∷◌, ◌++◌, String,
  if◌then◌else◌, Result, ok, err, ◌==◌, Text, codes, text_eq, cons_head,
}

abbrev pub underscore : ℕ
underscore = 95

abbrev pub hyphen : ℕ
hyphen = 45

abbrev pub blank : ℕ
blank = 32

-- `char::is_uppercase`, `char::to_lowercase` and `char::to_uppercase`.
pub record Cases : Type 0 where
  pub is_uppercase : ℕ → Bool
  pub to_lowercase : ℕ → Text
  pub to_uppercase : ℕ → Text

-- `replace(' ', "_")`.
unfoldable pub replaced : Text → Text
replaced [] = []
replaced (c ∷ cs) = (if c == blank then underscore else c) ∷ replaced cs

module _ (cases : Cases) where
  -- The loop of `to_snake_case`; `first` says whether the index is 0.
  unfoldable pub snake : Bool → Text → Text
  snake first [] = []
  snake first (c ∷ cs) =
      let rest = snake false cs in
      if cases.is_uppercase c
      then (if first then [] else underscore ∷ []) ++ (cases.to_lowercase c ++ rest)
      else if (c == hyphen) || (c == blank)
      then underscore ∷ rest
      else c ∷ rest

  unfoldable pub to_snake_case : Text → Text
  unfolding snake
  to_snake_case input = snake true input

  unfoldable pub normalize_resource_name : Text → Text
  unfolding to_snake_case replaced
  normalize_resource_name name = replaced (to_snake_case name)

-- A separator of `to_pascal_case`.
abbrev pub is_separator : ℕ → Bool
is_separator c = (c == underscore) || ((c == hyphen) || (c == blank))

-- `split`, by the separators.
unfoldable pub split_words : Text → List Text
split_words [] = [] ∷ []
split_words (c ∷ cs) =
    let rest = split_words cs in if is_separator c then [] ∷ rest else cons_head c rest

-- One part of `to_pascal_case`; one that is empty gives nothing, as the filter has it.
abbrev pub capitalized : Cases → Text → Text
capitalized cases [] = []
capitalized cases (c ∷ cs) = cases.to_uppercase c ++ cs

abbrev joined : Cases → List Text → Text
joined cases [] = []
joined cases (w ∷ ws) = capitalized cases w ++ joined cases ws

unfoldable pub to_pascal_case : Cases → Text → Text
unfolding split_words
to_pascal_case cases input = joined cases (split_words input)

-- `strip_suffix`: the text in front of an ending.
unfoldable pub strip_suffix : Text → Text → Option Text
unfolding text_eq
strip_suffix ending [] = if text_eq ending [] then some [] else none
strip_suffix ending (c ∷ cs) =
    let rest = strip_suffix ending cs in
    if text_eq ending (c ∷ cs) then some [] else elim rest [ none ↦ none | some s ↦ some (c ∷ s) ]

-- The tests on the length say that something stands in front of the ending.
unfoldable pub singular_name : Text → Text
unfolding strip_suffix
singular_name resource = elim (strip_suffix (codes "ies") resource) [
  | some (c ∷ cs) ↦ (c ∷ cs) ++ codes "y"
  | some [] ↦ without_s resource
  | none ↦ without_s resource
]
  where
    without_s : Text → Text
    without_s s = elim (strip_suffix (codes "s") s) [
      | some (c ∷ cs) ↦ c ∷ cs
      | some [] ↦ s
      | none ↦ s
    ]

pub data GeneratorLayout : Type 0 where
  nested flat : GeneratorLayout

pub record GeneratorOptions : Type 0 where
  pub target_module : Option Text
  pub layout : GeneratorLayout
  pub prompt_for_dto : Bool

abbrev pub invalid_options : String
invalid_options = "Invalid generator options. Use: --module <feature> [--flat] [--no-prompt]"

module _ (cases : Cases) where
  -- The loop of `parse_generator_options`.
  unfoldable pub parse_options : GeneratorOptions → List Text → Result String GeneratorOptions
  unfolding text_eq normalize_resource_name
  parse_options options [] = ok options
  parse_options options (arg ∷ []) =
      if text_eq arg (codes "--module")
      then err invalid_options
      else if text_eq arg (codes "--flat")
      then ok (record options { layout = flat })
      else if text_eq arg (codes "--no-prompt")
      then ok (record options { prompt_for_dto = false })
      else err invalid_options
  parse_options options (arg ∷ value ∷ rest) =
      let name = normalize_resource_name cases value in
      let with_module = parse_options (record options { target_module = some name }) rest in
      let with_flat = parse_options (record options { layout = flat }) (value ∷ rest) in
      let with_no_prompt =
        parse_options (record options { prompt_for_dto = false }) (value ∷ rest) in
      if text_eq arg (codes "--module")
      then (if text_eq name [] then err "Module name cannot be empty." else with_module)
      else if text_eq arg (codes "--flat")
      then with_flat
      else if text_eq arg (codes "--no-prompt")
      then with_no_prompt
      else err invalid_options

  unfoldable pub parse_generator_options : List Text → Result String GeneratorOptions
  unfolding parse_options
  parse_generator_options args =
      parse_options (record { target_module = none; layout = nested; prompt_for_dto = true }) args
