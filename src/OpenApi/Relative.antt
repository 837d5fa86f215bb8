-- ===== src/OpenApi/Relative.antt =====
-- The relative path from one page to another leads there.
use nestforge.Base.{
  is_slash, trim_matches, ◌≡◌, ◌≢◌, refl, sym, ap, subst, ◌∙◌, ℕ, zero, suc, ◌-◌, false, List, [],
  ◌∷◌, ◌++◌, append_assoc, append-nil, if◌then◌else◌, length, length-append, drop, drop_last, All,
  All-append, Text, codes, slash, text_eq, text_eq_iff, split, split_of_absent, split-append,
  Bool-cases, inl, inr, arith, ==_iff, ◌==◌, cons_head,
}
use nestforge.OpenApi.{
  non_empty, path_segments, common_len, dots, repeated, join_segments, relative_parts,
}

abbrev pub dot : Text
dot = codes "."

-- How a browser goes along the segments of a relative path, from a directory.
abbrev pub walk : List Text → List Text → List Text
walk dir [] = dir
walk dir (s ∷ ss) =
    if text_eq s dots
    then walk (drop_last dir) ss
    else if text_eq s dot
    then walk dir ss
    else walk (dir ++ s ∷ []) ss

-- A segment that a browser takes as a name.
abbrev pub IsName : Text → Type 0
IsName s = (text_eq s dots ≡ false) × (text_eq s dot ≡ false)

walk-IsName : (dir ss : List Text) → All IsName ss → walk dir ss ≡ dir ++ ss
walk-IsName dir [] names = sym (append-nil dir)
walk-IsName dir (s ∷ ss) ((not_dots, not_dot), names) =
    rw (not_dots, not_dot) (walk-IsName (dir ++ s ∷ []) ss names ∙ append_assoc dir (s ∷ []) ss)

drop_last-append :
    (xs : List Text) (y : Text) (ys : List Text)
    → drop_last (xs ++ y ∷ ys) ≡ xs ++ drop_last (y ∷ ys)
drop_last-append [] y ys = refl
drop_last-append (x ∷ []) y ys = refl
drop_last-append (x ∷ z ∷ xs) y ys = ap (λ (t : List Text). x ∷ t) (drop_last-append (z ∷ xs) y ys)

length-drop_last : (y : Text) (ys : List Text) → length (drop_last (y ∷ ys)) ≡ length ys
length-drop_last y [] = refl
length-drop_last y (z ∷ zs) = ap suc (length-drop_last z zs)

walk-repeated :
    (n : ℕ) (c e u : List Text) → length e ≡ n → walk (c ++ e) (repeated n ++ u) ≡ walk c u
unfolding text_eq
walk-repeated zero c [] u same = ap (λ (d : List Text). walk d u) (append-nil c)
walk-repeated zero c (y ∷ ys) u same = absurd (omega arith)
walk-repeated (suc n) c [] u same = absurd (omega arith)
walk-repeated (suc n) c (y ∷ ys) u same =
    ap (λ (d : List Text). walk d (repeated n ++ u)) (drop_last-append c y ys)
    ∙ walk-repeated n c (drop_last (y ∷ ys)) u (length-drop_last y ys ∙ omega arith)

-- Two lists of segments, split behind what they have in common.
record Shares (f t : List Text) : Type 0 where
  shared : List Text
  from_rest : List Text
  to_rest : List Text
  from_splits : f ≡ shared ++ from_rest
  to_splits : t ≡ shared ++ to_rest
  counted : common_len f t ≡ length shared

common_len-Shares : (f t : List Text) → Shares f t
unfolding common_len
common_len-Shares [] t = record {
  shared = [];
  from_rest = [];
  to_rest = t;
  from_splits = refl;
  to_splits = refl;
  counted = refl;
}
common_len-Shares (x ∷ f) [] = record {
  shared = [];
  from_rest = x ∷ f;
  to_rest = [];
  from_splits = refl;
  to_splits = refl;
  counted = refl;
}
common_len-Shares (x ∷ f) (y ∷ t) = elim (Bool-cases (text_eq x y)) [
  | inr differ ↦ record {
    shared = [];
    from_rest = x ∷ f;
    to_rest = y ∷ t;
    from_splits = refl;
    to_splits = refl;
    counted = rw differ refl;
  }
  | inl same ↦
      let rest = common_len-Shares f t in
      let it = (text_eq_iff x y).0 same in
      record {
        shared = y ∷ rest.shared;
        from_rest = rest.from_rest;
        to_rest = rest.to_rest;
        from_splits = ground (arith, it, rest.from_splits);
        to_splits = ap (λ (s : List Text). y ∷ s) rest.to_splits;
        counted = rw same (ap suc rest.counted);
      }
]

drop-append : (xs ys : List Text) → drop (length xs) (xs ++ ys) ≡ ys
drop-append [] ys = refl
drop-append (x ∷ xs) ys = drop-append xs ys

-- A segment has no slash in it.
abbrev pub HasNoSlash : Text → Type 0
HasNoSlash = All (λ c. c ≢ slash)

cons_head-All :
    (c : ℕ) (ws : List Text) → c ≢ slash → All HasNoSlash ws → All HasNoSlash (cons_head c ws)
cons_head-All c [] other h = ((other, tt), tt)
cons_head-All c (w ∷ ws) other (h, hs) = ((other, h), hs)

split-HasNoSlash : (s : Text) → All HasNoSlash (split slash s)
unfolding split
split-HasNoSlash [] = (tt, tt)
split-HasNoSlash (c ∷ cs) = elim (Bool-cases (c == slash)) [
  | inl same ↦ rw (same, split) (tt, split-HasNoSlash cs)
  | inr other ↦
      rw (other, split)
        (cons_head-All c (split slash cs) (λ e. cc (rw (other) at (==_iff c slash).1 e))
          (split-HasNoSlash cs))
]

non_empty-HasNoSlash : (ss : List Text) → All HasNoSlash ss → All HasNoSlash (non_empty ss)
unfolding non_empty
non_empty-HasNoSlash [] h = tt
non_empty-HasNoSlash ([] ∷ ss) (h, hs) = non_empty-HasNoSlash ss hs
non_empty-HasNoSlash ((c ∷ cs) ∷ ss) (h, hs) = (h, non_empty-HasNoSlash ss hs)

pub path_segments-HasNoSlash : (path : Text) → All HasNoSlash (path_segments path)
unfolding path_segments
path_segments-HasNoSlash path =
    non_empty-HasNoSlash (split slash (trim_matches is_slash path))
      (split-HasNoSlash (trim_matches is_slash path))

pub split-join_segments :
    (s : Text) (ss : List Text)
    → All HasNoSlash (s ∷ ss)
    → split slash (join_segments (s ∷ ss)) ≡ s ∷ ss
unfolding join_segments
split-join_segments s [] (h, _) = split_of_absent slash s h
split-join_segments s (t ∷ ts) (h, hs) =
    split-append slash s (join_segments (t ∷ ts)) h
    ∙ ap (λ (rest : List Text). s ∷ rest) (split-join_segments t ts hs)

repeated-HasNoSlash : (n : ℕ) → All HasNoSlash (repeated n)
repeated-HasNoSlash zero = tt
repeated-HasNoSlash (suc n) = (ground arith, repeated-HasNoSlash n)

drop-All : (n : ℕ) (ss : List Text) → All HasNoSlash ss → All HasNoSlash (drop n ss)
drop-All zero ss h = h
drop-All (suc n) [] h = tt
drop-All (suc n) (s ∷ ss) (h, hs) = drop-All n ss hs

pub relative_parts-HasNoSlash :
    (d t : List Text) → All HasNoSlash t → All HasNoSlash (relative_parts d t)
unfolding relative_parts
relative_parts-HasNoSlash d t h =
    All-append HasNoSlash (repeated (length d - common_len d t)) (drop (common_len d t) t)
      (repeated-HasNoSlash (length d - common_len d t)) (drop-All (common_len d t) t h)

pub All-rest : (xs ys : List Text) → All IsName (xs ++ ys) → All IsName ys
All-rest [] ys h = h
All-rest (x ∷ xs) ys (h, hs) = All-rest xs ys hs

pub walk-relative_parts : (d t : List Text) → All IsName t → walk d (relative_parts d t) ≡ t
unfolding relative_parts
walk-relative_parts d t names =
    let it = common_len-Shares d t in
    let up : length d - common_len d t ≡ length it.from_rest = omega (
      arith,
      ap (λ (l : List Text). length l) it.from_splits,
      length-append it.shared it.from_rest,
      it.counted,
    ) in
    let down : drop (common_len d t) t ≡ it.to_rest =
      ap (λ n. drop n t) it.counted
      ∙ ap (λ (l : List Text). drop (length it.shared) l) it.to_splits
      ∙ drop-append it.shared it.to_rest in
    ap (λ (l : List Text). walk l (repeated (length d - common_len d t) ++ drop (common_len d t) t))
      it.from_splits
    ∙ ap
        (λ (u : List Text).
          walk (it.shared ++ it.from_rest) (repeated (length d - common_len d t) ++ u))
        down
    ∙ walk-repeated (length d - common_len d t) it.shared it.from_rest it.to_rest (sym up)
    ∙ walk-IsName it.shared it.to_rest
        (All-rest it.shared it.to_rest (subst (All IsName) it.to_splits names))
    ∙ sym it.to_splits
