-- ===== src/HttpFactory/Ids.antt =====
-- Request ids: no two requests get the same one, as long as the 64-bit counter does not come round.
use nestforge.Base.{
  ◌≡◌, ◌≢◌, ap, subst, drop, ◌∙◌, ℕ, suc, ◌+◌, ◌%◌, ◌^◌, ◌<◌, ◌≤◌, List, [], ◌∷◌, ◌++◌, length, All,
  All-weaken, Text, decimal, IsDigit, decimal-All, decimal_injective, arith,
}
use nestforge.HttpFactory.{World, Http, request_id_text, generate_request_id}

abbrev pub Distinct : List Text → Type 0
Distinct [] = Unit
Distinct (x ∷ xs) = All (λ y. x ≢ y) xs × Distinct xs

-- Texts of digits, and what stands behind the dash that ends them.
behind_dash :
    (xs ys s t : Text) → All IsDigit xs → All IsDigit ys → xs ++ 45 ∷ s ≡ ys ++ 45 ∷ t → s ≡ t
behind_dash [] [] s t _ _ e = ground (arith, e)
behind_dash [] (y ∷ ys) s t _ (d, _) e = ground (arith, e)
behind_dash (x ∷ xs) [] s t (d, _) _ e = ground (arith, e)
behind_dash (x ∷ xs) (y ∷ ys) s t (_, ds) (_, es) e =
    behind_dash xs ys s t ds es (ground (arith, e))

request_id_text_injective :
    (m n s t : ℕ) → s < 2 ^ 64 → t < 2 ^ 64 → request_id_text m s ≡ request_id_text n t → s ≡ t
unfolding request_id_text
request_id_text_injective m n s t hs ht e =
    let behind : decimal m ++ 45 ∷ decimal s ≡ decimal n ++ 45 ∷ decimal t =
      ap (λ (id : Text). drop 4 id) e in
    decimal_injective s t (omega arith) (omega arith) (
      behind_dash (decimal m) (decimal n) (decimal s) (decimal t) (decimal-All m) (decimal-All n)
        behind)

-- An id issued within some number of calls, from a state of the counter on.
abbrev Within : ℕ → ℕ → Text → Type 0
Within sequence calls id =
    (k : ℕ) × (m : ℕ) × (k < calls) × (id ≡ request_id_text m ((sequence + k) % 2 ^ 64))

later :
    (sequence calls : ℕ) (id : Text)
    → Within ((sequence + 1) % 2 ^ 64) calls id
    → Within sequence (suc calls) id
later sequence calls id (k, m, within, made) =
    let same : (sequence + suc k) % 2 ^ 64 ≡ ((sequence + 1) % 2 ^ 64 + k) % 2 ^ 64 = omega arith in
    (suc k, m, omega arith, rw same made)

fresh :
    (m sequence calls : ℕ) (id : Text)
    → sequence < 2 ^ 64
    → calls < 2 ^ 64
    → Within ((sequence + 1) % 2 ^ 64) calls id
    → request_id_text m sequence ≢ id
fresh m sequence calls id small few (k, n, within, made) e =
    let other = ((sequence + 1) % 2 ^ 64 + k) % 2 ^ 64 in
    let same = request_id_text_injective m n sequence other small (omega arith) (e ∙ made) in
    absurd (omega arith)

module _ {Value Body Res V E O : Type 0} (http : Http Value Body Res V O) where
  -- Ids that are issued one after the other. Between two calls everything but the counter may change.
  pub data Issued : World V E O → List Text → Type 0 where
    stop : {w : World V E O} → Issued w []
    issue :
        {w v : World V E O} {ids : List Text}
        → v.sequence ≡ (generate_request_id http w).1.sequence
        → Issued v ids
        → Issued w ((generate_request_id http w).0 ∷ ids)

  Issued-Within :
      {w : World V E O} {ids : List Text}
      → w.sequence < 2 ^ 64
      → Issued w ids
      → All (Within w.sequence (length ids)) ids
  unfolding generate_request_id
  Issued-Within small stop = tt
  Issued-Within small (issue {w} {v} {ids} same rest) = (
    (
      0,
      http.millis w.outside,
      omega arith,
      ap (request_id_text (http.millis w.outside)) (omega arith),
    ),
    All-weaken
        (λ id within.
          later w.sequence (length ids) id (subst (λ n. Within n (length ids) id) same within))
        ids (Issued-Within (omega arith) rest),
  )

  -- The ids of at most 2^64 requests that are issued one after the other differ from each other.
  pub Issued-Distinct :
      {w : World V E O} {ids : List Text}
      → Issued w ids
      → w.sequence < 2 ^ 64
      → length ids ≤ 2 ^ 64
      → Distinct ids
  unfolding generate_request_id
  Issued-Distinct stop small few = tt
  Issued-Distinct (issue {w} {v} {ids} same rest) small few = (
    All-weaken
        (λ id within.
          fresh (http.millis w.outside) w.sequence (length ids) id small (omega arith)
            (subst (λ n. Within n (length ids) id) same within))
        ids (Issued-Within (omega arith) rest),
    Issued-Distinct rest (omega arith) (omega arith),
  )
