-- ===== src/RequestDecorators/Tokens.antt =====
-- The extractors against what the application puts into a request: the token that an extractor reads
-- is the one that the resolver is given.
use nestforge.Base.{
  ◌≡◌, refl, inl, inr, Option, none, some, [], ◌∷◌, Result, ok, err, Text, codes, strip_prefix,
  trim, Option-cases,
}
use nestforge.HttpException.{HttpException, with_optional_request_id, unauthorized, exception}
use nestforge.Pipeline.{Request}
use nestforge.HttpFactory.{bearer_token}
use nestforge.RequestDecorators.{traced, bearer_token_from_parts}

module _ {Value Body : Type 0} (authorization : Body → Option Text) (req : Request Value Body) where
  -- An error of the extractor.
  abbrev pub Refused : HttpException Value → Type 0
  Refused e = (e.status ≡ 401) × (e.request_id ≡ req.request_id)

  -- Both readings of the header.
  abbrev pub Agree : Option Text → Result (HttpException Value) Text → Type 0
  Agree none (err e) = Refused e
  Agree none (ok token) = ¬ Unit {0}
  Agree (some token) (ok other) = other ≡ token
  Agree (some token) (err e) = ¬ Unit {0}

  -- The extractor `BearerToken` and the middleware of the application read the same token from a
  -- request, and where the middleware reads none the extractor answers 401 with the request's id.
  pub bearer_token_from_parts-Agree :
      Agree (bearer_token (authorization req.body)) (bearer_token_from_parts authorization req)
  unfolding bearer_token bearer_token_from_parts traced with_optional_request_id unauthorized
      exception
  bearer_token_from_parts-Agree = go (authorization req.body)
    where
      last :
          (t : Text)
          → Agree
              (elim t [ [] ↦ none | c ∷ cs ↦ some (c ∷ cs) ])
              (elim t [
                | [] ↦ err (traced req (unauthorized "Invalid bearer token"))
                | c ∷ cs ↦ ok (c ∷ cs)
              ])
      last [] = (refl, refl)
      last (c ∷ cs) = refl

      go : (o : Option Text) → Agree (bearer_token o) (bearer_token_from_parts (λ b. o) req)
      go none = (refl, refl)
      go (some header) = elim (Option-cases (strip_prefix (codes "Bearer ") header)) [
        | inl absent ↦ rw (absent) (refl, refl)
        | inr (rest, present) ↦ rw present (last (trim rest))
      ]
