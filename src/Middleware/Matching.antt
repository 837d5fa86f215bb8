-- ===== src/Middleware/Matching.antt =====
-- Which paths a prefix matches, and which requests a matcher lets through to its middleware.
use mathlib.Core.List.{Memᴰ}
use mathlib.Core.List.Memᴰ
use nestforge.Base.{
  ℕ, ◌≡◌, refl, sym, ◌∙◌, ◌↔◌, ◌⊎◌, inl, inr, Bool, true, false, ◌||◌, List, [], ◌∷◌, ◌++◌,
  append_assoc, if◌then◌else◌, any, Bool-cases, arith, Text, slash, is_slash, text_eq, text_eq_iff,
  starts_with, starts_with_iff, trim, trim_end_matches, EndsOutside, trim_end_matches-EndsOutside,
  trim_end_matches_head,
}
use nestforge.Middleware.{
  normalize_path, path_matches_prefix, MiddlewareRoute, route_matches, RouteMatcher,
  matcher_matches,
}

-- `path_matches_prefix` holds of the root prefix, of the prefix itself, and of the paths that go on
-- behind the prefix with a slash, and of no others: a prefix ends at the end of a segment.
pub path_matches_prefix_iff :
    (path prefix : Text)
    → (path_matches_prefix path prefix ≡ true) ↔ (
        (prefix ≡ slash ∷ [])
        ⊎ ((path ≡ prefix) ⊎ ((rest : Text) × (path ≡ prefix ++ slash ∷ rest))))
unfolding path_matches_prefix
path_matches_prefix_iff path prefix = (there, back)
  where
    there :
        path_matches_prefix path prefix ≡ true
        → (prefix ≡ slash ∷ [])
          ⊎ ((path ≡ prefix) ⊎ ((rest : Text) × (path ≡ prefix ++ slash ∷ rest)))
    there h = elim (Bool-cases (text_eq prefix (slash ∷ []))) [
      | inl root ↦ inl ((text_eq_iff prefix (slash ∷ [])).0 root)
      | inr deeper ↦ elim (Bool-cases (text_eq path prefix)) [
        | inl same ↦ inr (inl ((text_eq_iff path prefix).0 same))
        | inr longer ↦
            let (rest, e) =
              (starts_with_iff (prefix ++ slash ∷ []) path).0
                (rw (deeper, longer, path_matches_prefix) at h) in
            inr (inr (rest, e ∙ append_assoc prefix (slash ∷ []) rest))
      ]
    ]

    back :
        (prefix ≡ slash ∷ [])
          ⊎ ((path ≡ prefix) ⊎ ((rest : Text) × (path ≡ prefix ++ slash ∷ rest)))
        → path_matches_prefix path prefix ≡ true
    back (inl root) = rw ((text_eq_iff prefix (slash ∷ [])).1 root, path_matches_prefix) refl
    back (inr (inl same)) = let h = (text_eq_iff path prefix).1 same in ground arith
    back (inr (inr (rest, e))) =
        let h =
          (starts_with_iff (prefix ++ slash ∷ []) path).1
            (rest, e ∙ sym (append_assoc prefix (slash ∷ []) rest)) in
        ground arith

module _ {A : Type 0} (p : A → Bool) where
  any-Mem : (xs : List A) → any p xs ≡ true → (x : A) × Memᴰ x xs × (p x ≡ true)
  any-Mem [] h = cc
  any-Mem (y ∷ ys) h = elim (Bool-cases (p y)) [
    | inl here ↦ (y, Memᴰ.head refl, here)
    | inr later ↦ let (x, m, e) = any-Mem ys (rw later at h) in (x, Memᴰ.tail m, e)
  ]

  any-none : (xs : List A) (x : A) → any p xs ≡ false → Memᴰ x xs → p x ≡ false
  any-none [] x h m = absurd (Memᴰ.not-nil m)
  any-none (y ∷ ys) x h m = elim (Memᴰ.cases_cons m) [
    | inl e ↦ rw e (ground arith)
    | inr later ↦ any-none ys x (ground arith) later
  ]

  any-all : (xs : List A) → ((x : A) → Memᴰ x xs → p x ≡ false) → any p xs ≡ false
  any-all [] h = refl
  any-all (y ∷ ys) h = rw (h y (Memᴰ.head refl)) (any-all ys (λ x m. h x (Memᴰ.tail m)))

  any-one : (xs : List A) (x : A) → Memᴰ x xs → p x ≡ true → any p xs ≡ true
  any-one xs x m e = elim (Bool-cases (any p xs)) [
    | inl found ↦ found
    | inr none_so ↦ let no_x = any-none xs x none_so m in cc
  ]

-- What a matcher asks of the included routes, once no excluded one matches.
abbrev Included : RouteMatcher → Text → Text → Type 0
Included m method path =
    (m.include ≡ [])
    ⊎ ((r : MiddlewareRoute) × Memᴰ r m.include × (route_matches r method path ≡ true))

matcher_matches-Included :
    (m : RouteMatcher) (method path : Text)
    → any (λ route. route_matches route method path) m.exclude ≡ false
    → (matcher_matches m method path ≡ true) ↔ Included m method path
unfolding matcher_matches
matcher_matches-Included m method path kept = among m.include refl
  where
    among :
        (rs : List MiddlewareRoute)
        → m.include ≡ rs
        → (matcher_matches m method path ≡ true) ↔ Included m method path
    among [] e = ((λ h. inl e), λ h. rw (kept, e, matcher_matches) refl)
    among (r ∷ rs) e = (
      (λ h. inr (
          rw e (
            any-Mem (λ route. route_matches route method path) (r ∷ rs)
              (rw (kept, e, matcher_matches) at h)))),
      λ h. elim h [
        | inl nothing ↦ cc
        | inr (x, mem, matched) ↦
            rw (kept, e, matcher_matches)
              (any-one (λ route. route_matches route method path) (r ∷ rs) x (rw e at mem) matched)
      ],
    )

-- A matcher lets a request through to its middleware if it matches none of the excluded routes, and
-- one of the included routes or there are none of these; and else it does not.
pub matcher_matches_iff :
    (m : RouteMatcher) (method path : Text)
    → (matcher_matches m method path ≡ true) ↔ (
        ((r : MiddlewareRoute) → Memᴰ r m.exclude → route_matches r method path ≡ false)
        × ((m.include ≡ [])
            ⊎ ((r : MiddlewareRoute) × Memᴰ r m.include × (route_matches r method path ≡ true))))
unfolding matcher_matches
matcher_matches_iff m method path =
    elim (Bool-cases (any (λ route. route_matches route method path) m.exclude)) [
      | inr kept ↦
          let same = matcher_matches-Included m method path kept in
          ((λ h. ((λ r mem. any-none _ m.exclude r kept mem), same.0 h)), λ (_, h). same.1 h)
      | inl out ↦ (
        (λ h. cc (rw (out, matcher_matches) at h)),
        λ (kept, _).
            let contrary = any-all (λ route. route_matches route method path) m.exclude kept in cc,
      )
    ]

-- What `normalize_path` makes of any path.
abbrev pub IsNormal : Text → Type 0
IsNormal s =
    (s ≡ slash ∷ []) ⊎ (EndsOutside is_slash s × ((s ≡ []) ⊎ (starts_with (slash ∷ []) s ≡ true)))

starts_slash :
    (b : Bool) (c : ℕ) (cs : Text) → is_slash c ≡ b → starts_with (slash ∷ []) (c ∷ cs) ≡ b
unfolding starts_with
starts_slash true c cs h = ground arith
starts_slash false c cs h = ground arith

IsNormal-trimmed :
    (s : Text)
    → text_eq s [] ≡ false
    → IsNormal (
        if starts_with (slash ∷ []) s
        then trim_end_matches is_slash s
        else slash ∷ trim_end_matches is_slash s)
unfolding text_eq
IsNormal-trimmed [] h = cc
IsNormal-trimmed (c ∷ cs) h =
    let outside = trim_end_matches-EndsOutside is_slash (c ∷ cs) in
    elim (trim_end_matches_head is_slash c cs) [
      | inl (gone, slashed) ↦ rw (starts_slash true c cs slashed, gone) (inr (tt, inl refl))
      | inr (ds, kept) ↦
          let outside' : EndsOutside is_slash (c ∷ ds) = rw kept at outside in
          elim (Bool-cases (is_slash c)) [
            | inl slashed ↦
                rw (starts_slash true c cs slashed, kept)
                  (inr (outside', inr (starts_slash true c ds slashed)))
            | inr plain ↦
                rw (starts_slash false c cs plain, kept)
                  (inr (outside', inr (starts_slash true slash (c ∷ ds) refl)))
          ]
    ]

-- A normalized path is the root, or it does not end with a slash and is empty or starts with one.
pub normalize_path-IsNormal : (path : Text) → IsNormal (normalize_path path)
unfolding normalize_path
normalize_path-IsNormal path =
    elim (Bool-cases (text_eq (trim path) [] || text_eq (trim path) (slash ∷ []))) [
      | inl root ↦ rw (root, normalize_path) (inl refl)
      | inr longer ↦ rw (longer, normalize_path) (IsNormal-trimmed (trim path) (ground arith))
    ]
