-- ===== src/CommandLine/Options.antt =====
-- The options of the generators, in whatever order they are given.
use nestforge.Base.{
  ◌≡◌, refl, ◌∙◌, true, false, none, some, List, [], ◌∷◌, ok, Text, codes, text_eq, All,
}
use nestforge.CommandLine.{
  Cases, normalize_resource_name, flat, nested, GeneratorOptions, parse_options,
  parse_generator_options,
}

-- What a user may ask for.
pub data Flag : Type 0 where
  module_flag : Text → Flag
  flat_flag no_prompt_flag : Flag

-- The arguments of the command line.
abbrev pub arguments : List Flag → List Text
arguments [] = []
arguments (module_flag value ∷ flags) = codes "--module" ∷ value ∷ arguments flags
arguments (flat_flag ∷ flags) = codes "--flat" ∷ arguments flags
arguments (no_prompt_flag ∷ flags) = codes "--no-prompt" ∷ arguments flags

module _ (cases : Cases) where
  -- What they ask for: the last module, a flat layout or no prompt if either is asked for at all.
  abbrev pub asked : GeneratorOptions → List Flag → GeneratorOptions
  asked options [] = options
  asked options (module_flag value ∷ flags) =
      asked (record options { target_module = some (normalize_resource_name cases value) }) flags
  asked options (flat_flag ∷ flags) = asked (record options { layout = flat }) flags
  asked options (no_prompt_flag ∷ flags) = asked (record options { prompt_for_dto = false }) flags

  -- The module has a name.
  abbrev pub IsNamed : Flag → Type 0
  IsNamed (module_flag value) = text_eq (normalize_resource_name cases value) [] ≡ false
  IsNamed flat_flag = Unit
  IsNamed no_prompt_flag = Unit

  parse_options_flat :
      (options : GeneratorOptions) (args : List Text)
      → parse_options cases options (codes "--flat" ∷ args)
        ≡ parse_options cases (record options { layout = flat }) args
  unfolding parse_options text_eq
  parse_options_flat options [] = refl
  parse_options_flat options (arg ∷ args) = refl

  parse_options_no_prompt :
      (options : GeneratorOptions) (args : List Text)
      → parse_options cases options (codes "--no-prompt" ∷ args)
        ≡ parse_options cases (record options { prompt_for_dto = false }) args
  unfolding parse_options text_eq
  parse_options_no_prompt options [] = refl
  parse_options_no_prompt options (arg ∷ args) = refl

  parse_options-arguments :
      (options : GeneratorOptions) (flags : List Flag)
      → All IsNamed flags
      → parse_options cases options (arguments flags) ≡ ok (asked options flags)
  unfolding parse_options text_eq
  parse_options-arguments options [] h = refl
  parse_options-arguments options (module_flag value ∷ flags) (h, hs) =
      rw (h, parse_options)
        (parse_options-arguments
          (record options { target_module = some (normalize_resource_name cases value) }) flags hs)
  parse_options-arguments options (flat_flag ∷ flags) (h, hs) =
      parse_options_flat options (arguments flags)
      ∙ parse_options-arguments (record options { layout = flat }) flags hs
  parse_options-arguments options (no_prompt_flag ∷ flags) (h, hs) =
      parse_options_no_prompt options (arguments flags)
      ∙ parse_options-arguments (record options { prompt_for_dto = false }) flags hs

  -- The arguments of flags, in whatever order and however often they are given, are read as what they
  -- ask for, where the name of each module that is given has something left when it is normalized: the
  -- last module, a flat layout if there is a flag for it, a prompt if there is none against it.
  pub parse_generator_options-arguments :
      (flags : List Flag)
      → All IsNamed flags
      → parse_generator_options cases (arguments flags)
        ≡ ok (asked (record { target_module = none; layout = nested; prompt_for_dto = true }) flags)
  unfolding parse_generator_options
  parse_generator_options-arguments flags h =
      parse_options-arguments
        (record { target_module = none; layout = nested; prompt_for_dto = true }) flags h
