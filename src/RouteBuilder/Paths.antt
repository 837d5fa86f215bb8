-- ===== src/RouteBuilder/Paths.antt =====
-- The shape of the paths that routes are registered at.
use nestforge.Base.{
  ◌≡◌, refl, ap, sym, ◌∙◌, ◌⊎◌, inl, inr, Bool, true, false, Option, none, some, [], ◌∷◌, ◌++◌,
  if◌then◌else◌, Bool-cases, Text, slash, is_slash, text_eq, text_eq_iff, starts_with, trim,
  trim_matches, trim_end_matches, trim_end_matches_head,
}
use nestforge.RouteBuilder.{letter_v, route_path, normalized_version, full_path}

-- A text that starts with a slash.
abbrev pub IsRooted : Text → Type 0
IsRooted s = (rest : Text) × (s ≡ slash ∷ rest)

IsRooted-trim_end_matches :
    (s : Text)
    → (s ≡ []) ⊎ IsRooted s
    → (trim_end_matches is_slash s ≡ []) ⊎ IsRooted (trim_end_matches is_slash s)
unfolding trim_end_matches
IsRooted-trim_end_matches s (inl e) = inl (rw e refl)
IsRooted-trim_end_matches s (inr (rest, e)) = elim (trim_end_matches_head is_slash slash rest) [
  | inl (gone, _) ↦ inl (rw e gone)
  | inr (ds, kept) ↦ inr (ds, rw e kept)
]

IsRooted-append : (s t : Text) → IsRooted s → IsRooted (s ++ t)
IsRooted-append s t (rest, e) = (rest ++ t, rw e refl)

IsRooted-joined :
    (base sub : Text)
    → (base ≡ []) ⊎ IsRooted base
    → IsRooted (
        if text_eq base []
        then (if text_eq sub [] then slash ∷ [] else slash ∷ sub)
        else (if text_eq sub [] then base else base ++ slash ∷ sub))
IsRooted-joined base sub h = elim (Bool-cases (text_eq base [])) [
  | inl bare ↦ elim (Bool-cases (text_eq sub [])) [
    | inl root ↦ rw (bare, root) ([], refl)
    | inr deeper ↦ rw (bare, deeper) (sub, refl)
  ]
  | inr based ↦ elim h [
    | inl e ↦ let contrary = (text_eq_iff base []).1 e in cc
    | inr rooted ↦ elim (Bool-cases (text_eq sub [])) [
      | inl root ↦ rw (based, root) rooted
      | inr deeper ↦ rw (based, deeper) (IsRooted-append base (slash ∷ sub) rooted)
    ]
  ]
]

IsRooted-route_path :
    (base path : Text) → (base ≡ []) ⊎ IsRooted base → IsRooted (route_path base path)
unfolding route_path
IsRooted-route_path base path h =
    IsRooted-joined (trim_end_matches is_slash base) _ (IsRooted-trim_end_matches base h)

IsRooted-either :
    (b c : Bool) (route x y : Text)
    → IsRooted route
    → IsRooted (if b then route else (if c then slash ∷ x else slash ∷ y))
IsRooted-either true c route x y h = h
IsRooted-either false true route x y h = (x, refl)
IsRooted-either false false route x y h = (y, refl)

-- A route's path starts with a slash, as axum asks, if the controller's base path is empty or starts
-- with one, whatever the route's own path and the version are.
pub full_path-IsRooted :
    (base path : Text) (version : Option Text)
    → (base ≡ []) ⊎ IsRooted base
    → IsRooted (full_path base path version)
unfolding full_path
full_path-IsRooted base path none h = IsRooted-route_path base path h
full_path-IsRooted base path (some version) h =
    IsRooted-either (text_eq (trim_matches is_slash (trim version)) [])
      (text_eq (route_path base path) (slash ∷ [])) (route_path base path) _ _
      (IsRooted-route_path base path h)

-- The path of a route under a version that has been trimmed.
abbrev versioned : Text → Text → Text
versioned route raw =
    if text_eq raw []
    then route
    else (if text_eq route (slash ∷ [])
        then slash ∷ normalized_version raw
        else slash ∷ normalized_version raw ++ route)

versioned-letter_v :
    (route raw : Text)
    → text_eq raw [] ≡ false
    → starts_with letter_v raw ≡ false
    → versioned route raw ≡ versioned route (letter_v ++ raw)
unfolding normalized_version text_eq starts_with
versioned-letter_v route raw filled plain = rw (filled, plain) refl

-- A version is written with or without its letter v: where neither spelling has whitespace or slashes
-- around it, both give the same path.
pub full_path-letter_v :
    (base path raw : Text)
    → text_eq raw [] ≡ false
    → starts_with letter_v raw ≡ false
    → trim_matches is_slash (trim raw) ≡ raw
    → trim_matches is_slash (trim (letter_v ++ raw)) ≡ letter_v ++ raw
    → full_path base path (some raw) ≡ full_path base path (some (letter_v ++ raw))
unfolding full_path normalized_version
full_path-letter_v base path raw filled plain kept kept' =
    ap (versioned (route_path base path)) kept
    ∙ versioned-letter_v (route_path base path) raw filled plain
    ∙ sym (ap (versioned (route_path base path)) kept')
