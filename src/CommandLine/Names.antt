-- ===== src/CommandLine/Names.antt =====
-- Names: Pascal case comes back from snake case, and a normalized name is normal.
use nestforge.Base.{
  ℕ, ◌≡◌, refl, sym, ap, ◌∙◌, Bool, true, false, ◌||◌, List, [], ◌∷◌, ◌++◌, if◌then◌else◌, ◌==◌,
  Text, cons_head, append_assoc, All, All-append, subst, Bool-cases, inl, inr, arith,
}
use nestforge.CommandLine.{
  Cases, snake, replaced, to_snake_case, normalize_resource_name, is_separator, split_words, joined,
  to_pascal_case, underscore, hyphen, blank,
}

parts : (c : ℕ) → is_separator c ≡ false → (((c == hyphen) || (c == blank)) ≡ false) × Unit {0}
parts c h = (ground arith, tt)

module _ (cases : Cases) where
  -- A letter of a name: no separator, and a capital one comes back from its small one.
  pub record IsLetter (c : ℕ) : Type 0 where
    pub is_no_separator : is_separator c ≡ false
    pub comes_back :
        cases.is_uppercase c ≡ true
        → (small : ℕ) × (cases.to_lowercase c ≡ small ∷ [])
          × (is_separator small ≡ false)
          × (cases.to_uppercase small ≡ c ∷ [])

  -- The words with all but the first capitalized.
  abbrev rejoined : List Text → Text
  rejoined [] = []
  rejoined (w ∷ ws) = w ++ joined cases ws

  rejoined-cons_head : (c : ℕ) (ws : List Text) → rejoined (cons_head c ws) ≡ c ∷ rejoined ws
  rejoined-cons_head c [] = refl
  rejoined-cons_head c (w ∷ ws) = refl

  joined-cons_head :
      (c : ℕ) (ws : List Text) → joined cases (cons_head c ws) ≡ cases.to_uppercase c ++ rejoined ws
  joined-cons_head c [] = append_assoc (cases.to_uppercase c) [] []
  joined-cons_head c (w ∷ ws) = append_assoc (cases.to_uppercase c) w (joined cases ws)

  split_words_letter :
      (c : ℕ) (cs : Text)
      → is_separator c ≡ false
      → split_words (c ∷ cs) ≡ cons_head c (split_words cs)
  unfolding split_words
  split_words_letter c cs is = rw (is, split_words) refl

  -- Behind its first letter, a name comes back from snake case.
  rejoined-snake : (s : Text) → All IsLetter s → rejoined (split_words (snake cases false s)) ≡ s
  unfolding snake split_words
  rejoined-snake [] h = refl
  rejoined-snake (c ∷ cs) (h, hs) = elim (Bool-cases (cases.is_uppercase c)) [
    | inl upper ↦
        let (small, lowers, no_separator, raises) = h.comes_back upper in
        rw (upper, snake)
          (rw lowers (
            ap (joined cases) (split_words_letter small (snake cases false cs) no_separator)
            ∙ joined-cons_head small (split_words (snake cases false cs))
            ∙ rw raises (ap (λ (t : Text). c ∷ t) (rejoined-snake cs hs))))
    | inr lower ↦
        let (no_hyphen, no_blank) = parts c h.is_no_separator in
        rw (lower, snake)
          (rw no_hyphen (
            ap rejoined (split_words_letter c (snake cases false cs) h.is_no_separator)
            ∙ rejoined-cons_head c (split_words (snake cases false cs))
            ∙ ap (λ (t : Text). c ∷ t) (rejoined-snake cs hs)))
  ]

  -- A name that begins with a capital letter, and has no underscore, hyphen or space, comes back from
  -- snake case by `to_pascal_case`, where each of its capital letters has one small letter, which is no
  -- separator and has it as its capital one.
  pub to_pascal_case-to_snake_case :
      (c : ℕ) (cs : Text)
      → cases.is_uppercase c ≡ true
      → All IsLetter (c ∷ cs)
      → to_pascal_case cases (to_snake_case cases (c ∷ cs)) ≡ c ∷ cs
  unfolding to_pascal_case to_snake_case snake split_words
  to_pascal_case-to_snake_case c cs upper (h, hs) =
      let (small, lowers, no_separator, raises) = h.comes_back upper in
      rw (upper, snake)
        (rw lowers (
          ap (joined cases) (split_words_letter small (snake cases false cs) no_separator)
          ∙ joined-cons_head small (split_words (snake cases false cs))
          ∙ rw raises (ap (λ (t : Text). c ∷ t) (rejoined-snake cs hs))))

-- A text that `normalize_resource_name` leaves as it is.
module _ (cases : Cases) where
  -- A letter of a normal name: no capital one, no hyphen and no space.
  abbrev pub IsNormal : ℕ → Type 0
  IsNormal c = (cases.is_uppercase c ≡ false) × ((c == hyphen) ≡ false) × ((c == blank) ≡ false)

  snake-IsNormal :
      (first : Bool) (s : Text)
      → IsNormal underscore
      → ((c : ℕ) → cases.is_uppercase c ≡ true → All IsNormal (cases.to_lowercase c))
      → All IsNormal (snake cases first s)
  unfolding snake
  snake-IsNormal first [] u lowers = tt
  snake-IsNormal first (c ∷ cs) u lowers =
      let rest = snake-IsNormal false cs u lowers in
      elim (Bool-cases (cases.is_uppercase c)) [
        | inl upper ↦
            rw (upper, snake)
              (All-append IsNormal (if first then [] else underscore ∷ [])
                (cases.to_lowercase c ++ snake cases false cs) (start first)
                (All-append IsNormal (cases.to_lowercase c) (snake cases false cs) (lowers c upper)
                  rest))
        | inr lower ↦ elim (Bool-cases ((c == hyphen) || (c == blank))) [
          | inl separates ↦ rw (lower, snake) (rw separates (u, rest))
          | inr letter ↦ rw (lower, snake) (rw letter ((lower, ground arith, ground arith), rest))
        ]
      ]
    where
      start : (b : Bool) → All IsNormal (if b then [] else underscore ∷ [])
      start true = tt
      start false = (u, tt)

  snake_normal : (first : Bool) (s : Text) → All IsNormal s → snake cases first s ≡ s
  unfolding snake
  snake_normal first [] h = refl
  snake_normal first (c ∷ cs) ((lower, no_hyphen, no_blank), hs) =
      rw (lower, snake)
        (rw no_hyphen (rw no_blank (ap (λ (t : Text). c ∷ t) (snake_normal false cs hs))))

  replaced_normal : (s : Text) → All IsNormal s → replaced s ≡ s
  unfolding replaced
  replaced_normal [] h = refl
  replaced_normal (c ∷ cs) ((lower, no_hyphen, no_blank), hs) =
      rw (no_blank, replaced) (ap (λ (t : Text). c ∷ t) (replaced_normal cs hs))

  -- Where the small letters of capital ones, and the underscore, are no capital letters, no hyphen and
  -- no space, a normalized name has no capital letter, no hyphen and no space, and normalizing it again leaves it
  -- as it is.
  pub normalize_resource_name_again :
      (name : Text)
      → IsNormal underscore
      → ((c : ℕ) → cases.is_uppercase c ≡ true → All IsNormal (cases.to_lowercase c))
      → All IsNormal (normalize_resource_name cases name)
        × (normalize_resource_name cases (normalize_resource_name cases name)
            ≡ normalize_resource_name cases name)
  unfolding normalize_resource_name to_snake_case
  normalize_resource_name_again name u lowers =
      let normal = snake-IsNormal true name u lowers in
      let same = replaced_normal (snake cases true name) normal in
      (
        subst (All IsNormal) (sym same) normal,
        ap (λ (t : Text). replaced (snake cases true t)) same
            ∙ ap replaced (snake_normal true (snake cases true name) normal),
      )
