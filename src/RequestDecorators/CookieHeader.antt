-- ===== src/RequestDecorators/CookieHeader.antt =====
-- The cookies that a header was made from are read back.
use nestforge.Base.{
  ◌≡◌, ◌≢◌, refl, sym, ap, ◌∙◌, true, false, none, some, List, [], ◌∷◌, ◌++◌, append_assoc, Text,
  trim, is_whitespace, split, All, All-append, All-weaken, split_of_absent, split-append,
  split_once-append, trim_end_matches, trim_start_matches-append, trim_matches_of_none, arith,
}
use nestforge.RequestDecorators.Cookies.{
  Cookies, semicolon, equals, set_cookie, set_all, insert_pair, insert_pairs, cookies_from_parts,
  cookie_text, cookie_header, IsCookieText, IsCookie,
}

equals_clean : is_whitespace equals ≡ false
equals_clean = refl

equals_not_semicolon : equals ≢ semicolon
equals_not_semicolon = omega arith

cookie_text-IsCookieText : (pair : Text × Text) → IsCookie pair → IsCookieText (cookie_text pair)
cookie_text-IsCookieText (name, value) (name_clean, _, value_clean) =
    All-append _ name (equals ∷ value) name_clean
      ((equals_clean, equals_not_semicolon), value_clean)

-- Spaces that stand in front of a cookie.
abbrev IsLead : Text → Type 0
IsLead = All (λ c. (is_whitespace c ≡ true) × (c ≢ semicolon))

trim_of_clean : (s : Text) → IsCookieText s → trim s ≡ s
trim_of_clean s clean = trim_matches_of_none is_whitespace s (All-weaken (λ c h. h.0) s clean)

trim_lead : (lead s : Text) → IsLead lead → IsCookieText s → trim (lead ++ s) ≡ s
trim_lead lead s spaces clean =
    ap (trim_end_matches is_whitespace)
      (trim_start_matches-append is_whitespace lead s (All-weaken (λ c h. h.0) lead spaces))
    ∙ trim_of_clean s clean

insert_pair-cookie_text :
    (lead : Text) (pair : Text × Text) (cookies : Cookies)
    → IsLead lead
    → IsCookie pair
    → insert_pair (lead ++ cookie_text pair) cookies ≡ set_cookie pair.0 pair.1 cookies
unfolding insert_pair
insert_pair-cookie_text lead (name, value) cookies spaces cookie =
    rw
      (
        trim_lead lead (cookie_text (name, value)) spaces
            (cookie_text-IsCookieText (name, value) cookie),
        insert_pair,
        split_once-append equals name value cookie.1,
      )
      (rw (trim_of_clean name cookie.0, trim_of_clean value cookie.2) refl)

insert_pairs-cookie_header :
    (lead : Text) (pair : Text × Text) (pairs : List (Text × Text)) (cookies : Cookies)
    → IsLead lead
    → All IsCookie (pair ∷ pairs)
    → insert_pairs (split semicolon (lead ++ cookie_header (pair ∷ pairs))) cookies
      ≡ set_all (pair ∷ pairs) cookies
unfolding insert_pairs set_all
insert_pairs-cookie_header lead pair [] cookies spaces (cookie, _) =
    rw
      (split_of_absent semicolon (lead ++ cookie_text pair) (
        All-append _ lead (cookie_text pair) (All-weaken (λ c h. h.1) lead spaces)
          (All-weaken (λ c h. h.1) (cookie_text pair) (cookie_text-IsCookieText pair cookie))))
      (insert_pair-cookie_text lead pair cookies spaces cookie)
insert_pairs-cookie_header lead pair (next ∷ pairs) cookies spaces (cookie, others) =
    ap (λ (s : Text). insert_pairs (split semicolon s) cookies)
      (sym (append_assoc lead (cookie_text pair) (semicolon ∷ 32 ∷ cookie_header (next ∷ pairs))))
    ∙ rw
        (split-append semicolon (lead ++ cookie_text pair) (32 ∷ cookie_header (next ∷ pairs)) (
          All-append _ lead (cookie_text pair) (All-weaken (λ c h. h.1) lead spaces)
            (All-weaken (λ c h. h.1) (cookie_text pair) (cookie_text-IsCookieText pair cookie))))
        (ap (λ (c : Cookies). insert_pairs (split semicolon (32 ∷ cookie_header (next ∷ pairs))) c)
            (insert_pair-cookie_text lead pair cookies spaces cookie)
          ∙ insert_pairs-cookie_header (32 ∷ []) next pairs (set_cookie pair.0 pair.1 cookies)
              ((refl, omega arith), tt) others)

-- A `Cookie` header that is made from cookies, with no space and no semicolon in them and no equals
-- sign in a name, is read back as these cookies: each name has the last of its values.
pub cookies_from_parts-cookie_header :
    (pair : Text × Text) (pairs : List (Text × Text))
    → All IsCookie (pair ∷ pairs)
    → cookies_from_parts (some (cookie_header (pair ∷ pairs)))
      ≡ set_all (pair ∷ pairs) (λ name. none)
unfolding cookies_from_parts
cookies_from_parts-cookie_header pair pairs cookies =
    insert_pairs-cookie_header [] pair pairs (λ name. none) tt cookies
