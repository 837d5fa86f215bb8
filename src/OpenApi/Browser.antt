-- ===== src/OpenApi/Browser.antt =====
-- What a browser makes of a relative link, by RFC 3986 and not by the code of the pages.
use nestforge.Base.{
  ◌≡◌, refl, sym, ap, subst, ◌∙◌, ℕ, zero, suc, ◌-◌, ◌==◌, true, false, Bool, not, ◌&&◌, ◌||◌, leb,
  Option, none, some, List, [], ◌∷◌, ◌++◌, append-nil, if◌then◌else◌, length, drop, drop_last, All,
  All-append, Text, slash, text_eq, split, Bool-cases, inl, inr,
}
use nestforge.OpenApi.{
  path_segments, common_len, dots, repeated, join_segments, relative_parts, relative_browser_path,
}
use nestforge.OpenApi.Relative.{
  dot, walk, IsName, HasNoSlash, split-join_segments, relative_parts-HasNoSlash,
  path_segments-HasNoSlash, walk-relative_parts,
}

-- The letters that mean nothing but themselves: `A-Z`, `a-z`, `0-9`, `-`, `.`, `_`, `~`; and `/`.
unfoldable pub is_path_letter : ℕ → Bool
is_path_letter c =
    (leb 65 c && leb c 90)
    || (leb 97 c && leb c 122)
    || (leb 48 c && leb c 57)
    || (c == 45)
    || (c == 46)
    || (c == 95)
    || (c == 126)
    || (c == 47)

unfoldable pub are_path_letters : Text → Bool
unfolding is_path_letter
are_path_letters [] = true
are_path_letters (c ∷ cs) = is_path_letter c && are_path_letters cs

-- A reference that is a relative path, and has no letter that is a delimiter or is encoded.
unfoldable pub is_relative : Text → Bool
unfolding are_path_letters
is_relative [] = false
is_relative (c ∷ cs) = not (c == 47) && are_path_letters (c ∷ cs)

-- A last `.` or `..` stands for a directory, whose path ends in a slash.
unfoldable pub trailing : List Text → List Text
unfolding text_eq
trailing [] = []
trailing (s ∷ []) = if text_eq s dots || text_eq s dot then [] ∷ [] else []
trailing (s ∷ t ∷ ss) = trailing (t ∷ ss)

-- The path that a browser asks for that follows the link from the page, for links that are a relative
-- path: RFC 3986, 5.2.3 and 5.2.4. The page's path begins with a slash.
unfoldable pub follow : Text → Text → Option Text
unfolding is_relative trailing split join_segments
follow page link =
    if is_relative link
    then some (
        slash
        ∷ join_segments (
            walk (drop_last (split slash (drop 1 page))) (split slash link)
            ++ trailing (split slash link)))
    else none

-- A segment of a path that leads by its name.
abbrev pub IsSegment : Text → Type 0
IsSegment s = (is_relative s ≡ true) × IsName s

-- The segments of a directory begin with the segments of a path: the path is the directory, or above
-- it.
unfoldable pub is_above : List Text → List Text → Bool
unfolding text_eq
is_above dir [] = true
is_above [] (t ∷ ts) = false
is_above (d ∷ dir) (t ∷ ts) = text_eq d t && is_above dir ts

-- A way down that ends in a name.
record EndsInNames (parts : List Text) : Type 0 where
  ups : ℕ
  name : Text
  names : List Text
  is : parts ≡ repeated ups ++ name ∷ names
  all_segments : All IsSegment (name ∷ names)

drop-nonempty :
    (d t : List Text)
    → is_above d t ≡ false
    → All IsSegment t
    → (x : Text) × (xs : List Text) × (drop (common_len d t) t ≡ x ∷ xs) × All IsSegment (x ∷ xs)
unfolding is_above common_len
drop-nonempty d [] apart hs = absurd (cc)
drop-nonempty [] (t ∷ ts) apart hs = (t, ts, refl, hs)
drop-nonempty (d ∷ ds) (t ∷ ts) apart (h, hs) = elim (Bool-cases (text_eq d t)) [
  | inr differ ↦ (t, ts, rw differ refl, (h, hs))
  | inl same ↦
      let (x, xs, e, all) = drop-nonempty ds ts (rw (same) at apart) hs in (x, xs, rw same e, all)
]

relative_parts-EndsInNames :
    (d t : List Text) → is_above d t ≡ false → All IsSegment t → EndsInNames (relative_parts d t)
unfolding relative_parts
relative_parts-EndsInNames d t apart hs =
    let (x, xs, e, all) = drop-nonempty d t apart hs in
    record {
      ups = length d - common_len d t;
      name = x;
      names = xs;
      is = ap (λ (l : List Text). repeated (length d - common_len d t) ++ l) e;
      all_segments = all;
    }

trailing-names : (x : Text) (xs : List Text) → All IsSegment (x ∷ xs) → trailing (x ∷ xs) ≡ []
unfolding trailing
trailing-names x [] ((_, (not_dots, not_dot)), _) = rw (not_dots, not_dot) refl
trailing-names x (y ∷ ys) (_, hs) = trailing-names y ys hs

trailing-repeated :
    (n : ℕ) (x : Text) (xs : List Text)
    → All IsSegment (x ∷ xs)
    → trailing (repeated n ++ x ∷ xs) ≡ []
unfolding trailing
trailing-repeated zero x xs hs = trailing-names x xs hs
trailing-repeated (suc zero) x xs hs = trailing-names x xs hs
trailing-repeated (suc (suc n)) x xs hs = trailing-repeated (suc n) x xs hs

repeated-IsRelative : (n : ℕ) → All (λ s. is_relative s ≡ true) (repeated n)
unfolding is_relative are_path_letters is_path_letter
repeated-IsRelative zero = tt
repeated-IsRelative (suc n) = (refl, repeated-IsRelative n)

segments-IsRelative : (ss : List Text) → All IsSegment ss → All (λ s. is_relative s ≡ true) ss
segments-IsRelative [] hs = tt
segments-IsRelative (s ∷ ss) ((h, _), hs) = (h, segments-IsRelative ss hs)

both_true : (a b : Bool) → a && b ≡ true → (a ≡ true) × (b ≡ true)
both_true true true h = (refl, refl)
both_true true false h = absurd (cc)
both_true false b h = absurd (cc)

and_true : (a b : Bool) → a ≡ true → b ≡ true → a && b ≡ true
and_true true true ha hb = refl
and_true true false ha hb = absurd (cc)
and_true false b ha hb = absurd (cc)

slash_letter : is_path_letter slash ≡ true
unfolding is_path_letter
slash_letter = refl

are_path_letters-join :
    (s t : Text)
    → are_path_letters s ≡ true
    → are_path_letters t ≡ true
    → are_path_letters (s ++ slash ∷ t) ≡ true
unfolding are_path_letters
are_path_letters-join [] t hs ht =
    and_true (is_path_letter slash) (are_path_letters t) slash_letter ht
are_path_letters-join (c ∷ cs) t hs ht =
    let (h, rest) = both_true (is_path_letter c) (are_path_letters cs) hs in
    and_true (is_path_letter c) (are_path_letters (cs ++ slash ∷ t)) h
      (are_path_letters-join cs t rest ht)

is_relative-join :
    (s t : Text)
    → is_relative s ≡ true
    → are_path_letters t ≡ true
    → is_relative (s ++ slash ∷ t) ≡ true
unfolding is_relative
is_relative-join [] t hs ht = absurd (cc)
is_relative-join (c ∷ cs) t hs ht =
    let (h, letters) = both_true (not (c == 47)) (are_path_letters (c ∷ cs)) hs in
    and_true (not (c == 47)) (are_path_letters (c ∷ cs ++ slash ∷ t)) h
      (are_path_letters-join (c ∷ cs) t letters ht)

letters_of : (s : Text) → is_relative s ≡ true → are_path_letters s ≡ true
unfolding is_relative
letters_of [] h = absurd (cc)
letters_of (c ∷ cs) h = (both_true (not (c == 47)) (are_path_letters (c ∷ cs)) h).1

join_segments-IsRelative :
    (s : Text) (ss : List Text)
    → All (λ p. is_relative p ≡ true) (s ∷ ss)
    → is_relative (join_segments (s ∷ ss)) ≡ true
unfolding join_segments
join_segments-IsRelative s [] (h, _) = h
join_segments-IsRelative s (t ∷ ts) (h, hs) =
    is_relative-join s (join_segments (t ∷ ts)) h
      (letters_of (join_segments (t ∷ ts)) (join_segments-IsRelative t ts hs))

-- A path that is a slash and its segments, with no slash at its end and none doubled.
abbrev pub IsPlain : Text → Type 0
IsPlain path =
    (path ≡ slash ∷ join_segments (path_segments path)) × All IsSegment (path_segments path)

-- The page does not stand in the directory of the path, or beneath it.
abbrev pub IsApart : Text → Text → Type 0
IsApart page path = is_above (drop_last (path_segments page)) (path_segments path) ≡ false

directory_split :
    (ss : List Text) → All HasNoSlash ss → drop_last (split slash (join_segments ss)) ≡ drop_last ss
unfolding join_segments split
directory_split [] none_in = refl
directory_split (s ∷ ss) none_in =
    ap (λ (l : List Text). drop_last l) (split-join_segments s ss none_in)

-- The directory of a plain page.
directory :
    (page : Text)
    → IsPlain page
    → drop_last (split slash (drop 1 page)) ≡ drop_last (path_segments page)
directory page (is, hs) =
    ap (λ (p : Text). drop_last (split slash (drop 1 p))) is
    ∙ directory_split (path_segments page) (path_segments-HasNoSlash page)

segments-names : (ss : List Text) → All IsSegment ss → All IsName ss
segments-names [] hs = tt
segments-names (s ∷ ss) ((_, h), hs) = (h, segments-names ss hs)

follow-join_segments :
    (page p : Text) (ps : List Text)
    → IsPlain page
    → All HasNoSlash (p ∷ ps)
    → All (λ s. is_relative s ≡ true) (p ∷ ps)
    → trailing (p ∷ ps) ≡ []
    → follow page (join_segments (p ∷ ps))
      ≡ some (slash ∷ join_segments (walk (drop_last (path_segments page)) (p ∷ ps)))
unfolding follow
follow-join_segments page p ps plain no_slash relative ends =
    rw
      (
        join_segments-IsRelative p ps relative,
        split-join_segments p ps no_slash,
        ends,
        directory page plain,
        append-nil (walk (drop_last (path_segments page)) (p ∷ ps)),
      )
      refl

module _ (page path : Text) (page_plain : IsPlain page) (path_plain : IsPlain path)
    (apart : IsApart page path) where
  -- The parts of the link.
  abbrev parts : List Text
  parts = relative_parts (drop_last (path_segments page)) (path_segments path)

  parts-IsRelative : All (λ s. is_relative s ≡ true) parts
  parts-IsRelative =
      let ends =
        relative_parts-EndsInNames (drop_last (path_segments page)) (path_segments path) apart
          path_plain.1 in
      subst (All (λ s. is_relative s ≡ true)) (sym ends.is) (
        All-append (λ s. is_relative s ≡ true) (repeated ends.ups) (ends.name ∷ ends.names)
          (repeated-IsRelative ends.ups)
          (segments-IsRelative (ends.name ∷ ends.names) ends.all_segments))

  trailing-parts : trailing parts ≡ []
  trailing-parts =
      let ends =
        relative_parts-EndsInNames (drop_last (path_segments page)) (path_segments path) apart
          path_plain.1 in
      ap (λ (l : List Text). trailing l) ends.is
      ∙ trailing-repeated ends.ups ends.name ends.names ends.all_segments

  not_empty : ¬ (parts ≡ [])
  not_empty e =
      let ends =
        relative_parts-EndsInNames (drop_last (path_segments page)) (path_segments path) apart
          path_plain.1 in
      go ends.ups ends.name ends.names (sym ends.is ∙ e)
    where
      go : (n : ℕ) (x : Text) (xs : List Text) → ¬ (repeated n ++ x ∷ xs ≡ [])
      go zero x xs e = cc
      go (suc n) x xs e = cc

  -- The link from one plain path to another that is not above it leads there, to the letter.
  pub follow-relative_browser_path : follow page (relative_browser_path page path) ≡ some path
  unfolding relative_browser_path
  follow-relative_browser_path = go parts refl
    where
      go :
          (ps : List Text)
          → parts ≡ ps
          → follow page (elim ps [ [] ↦ dot | p ∷ ps ↦ join_segments (p ∷ ps) ]) ≡ some path
      go [] e = absurd (not_empty e)
      go (p ∷ ps) e =
          follow-join_segments page p ps page_plain
            (subst (All HasNoSlash) e (
              relative_parts-HasNoSlash (drop_last (path_segments page)) (path_segments path)
                (path_segments-HasNoSlash path)))
            (subst (All (λ s. is_relative s ≡ true)) e parts-IsRelative)
            (subst (λ (l : List Text). trailing l ≡ []) e trailing-parts)
          ∙ ap
              (λ (l : List Text).
                some (slash ∷ join_segments (walk (drop_last (path_segments page)) l)))
              (sym e)
          ∙ ap (λ (l : List Text). some (slash ∷ join_segments l))
              (walk-relative_parts (drop_last (path_segments page)) (path_segments path)
                (segments-names (path_segments path) path_plain.1))
          ∙ ap some (sym path_plain.0)
