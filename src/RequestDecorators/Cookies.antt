-- ===== src/RequestDecorators/Cookies.antt =====
-- crates/nestforge-core/src/request.rs: `Cookies`, from the text of the `Cookie` header; and that the
-- cookies which a header was made from are read back.
use nestforge.Base.{
  ◌≡◌, ◌≢◌, ℕ, false, Option, none, some, List, [], ◌∷◌, ◌++◌, if◌then◌else◌, Text, text_eq, trim,
  is_whitespace, split, split_once, All,
}

-- `BTreeMap<String, String>`, of which the code reads the values alone.
abbrev pub Cookies : Type 0
Cookies = Text → Option Text

abbrev pub semicolon : ℕ
semicolon = 59

abbrev pub equals : ℕ
equals = 61

unfoldable pub set_cookie : Text → Text → Cookies → Cookies
unfolding text_eq
set_cookie name value cookies other = if text_eq name other then some value else cookies other

-- `Cookies::new`: a later value of a name replaces an earlier one.
unfoldable pub set_all : List (Text × Text) → Cookies → Cookies
unfolding set_cookie
set_all [] cookies = cookies
set_all ((name, value) ∷ pairs) cookies = set_all pairs (set_cookie name value cookies)

unfoldable pub insert_pair : Text → Cookies → Cookies
unfolding set_cookie split_once
insert_pair pair cookies = elim (split_once equals (trim pair)) [
  | none ↦ cookies
  | some (name, value) ↦ set_cookie (trim name) (trim value) cookies
]

-- The loop over the pieces of the header.
unfoldable pub insert_pairs : List Text → Cookies → Cookies
unfolding insert_pair
insert_pairs [] cookies = cookies
insert_pairs (pair ∷ pairs) cookies = insert_pairs pairs (insert_pair pair cookies)

-- `Cookies::from_request_parts`, of the header, where it is text.
unfoldable pub cookies_from_parts : Option Text → Cookies
unfolding insert_pairs split
cookies_from_parts none = λ name. none
cookies_from_parts (some raw) = insert_pairs (split semicolon raw) (λ name. none)

-- The header that a client sends for some cookies.
abbrev pub cookie_text : Text × Text → Text
cookie_text (name, value) = name ++ equals ∷ value

abbrev pub cookie_header : List (Text × Text) → Text
cookie_header [] = []
cookie_header (pair ∷ []) = cookie_text pair
cookie_header (pair ∷ next ∷ pairs) =
    cookie_text pair ++ semicolon ∷ 32 ∷ cookie_header (next ∷ pairs)

-- No part of a cookie has a space or a semicolon, and its name has no equals sign.
abbrev pub IsCookieText : Text → Type 0
IsCookieText = All (λ c. (is_whitespace c ≡ false) × (c ≢ semicolon))

abbrev pub IsCookie : Text × Text → Type 0
IsCookie (name, value) = IsCookieText name × All (λ c. c ≢ equals) name × IsCookieText value
