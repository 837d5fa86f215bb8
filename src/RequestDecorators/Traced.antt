-- ===== src/RequestDecorators/Traced.antt =====
-- What an extractor of the body lets through, and the id that its errors carry.
use nestforge.Base.{
  ◌≡◌, refl, ◌⊎◌, inl, inr, Option, none, some, Result, ok, err, Option-cases, Result-cases,
}
use nestforge.HttpException.{
  HttpException, with_optional_request_id, bad_request, bad_request_validation, with_details,
  exception,
}
use nestforge.Pipeline.{Request}
use nestforge.RequestDecorators.{
  ValidationErrors, traced, body_from_request, validated_body_from_request,
}

module _ {Value Body T : Type 0} (to_value : ValidationErrors → Value)
    (validate : T → Result ValidationErrors (Unit {0})) (json : Request Value Body → Option T)
    (req : Request Value Body) where
  -- What an outcome of the extraction says of the body.
  abbrev pub Validated : Result (HttpException Value) T → Type 0
  Validated (ok value) = (json req ≡ some value) × (validate value ≡ ok tt)
  Validated (err e) =
      (e.status ≡ 400)
      × (e.request_id ≡ req.request_id)
      × (((json req ≡ none) × (e.details ≡ none))
          ⊎ ((value : T) × (errors : ValidationErrors) × (json req ≡ some value)
              × (validate value ≡ err errors)
              × (e.details ≡ some (to_value errors))))

  -- A handler gets a validated body only if it is JSON of its type and passes its validation; any
  -- other request is answered 400 with its id, and with the issues as details where the JSON is of
  -- the type but does not pass.
  pub validated_body_from_request-Validated :
      Validated (validated_body_from_request to_value validate json req)
  unfolding validated_body_from_request body_from_request traced with_optional_request_id
      bad_request bad_request_validation with_details exception
  validated_body_from_request-Validated = elim (Option-cases (json req)) [
    | inl absent ↦
        rw (absent, body_from_request, validated_body_from_request) (refl, refl, inl (absent, refl))
    | inr (value, present) ↦ elim (Result-cases (validate value)) [
      | inl (_, valid) ↦
          rw (present, body_from_request, validated_body_from_request) (rw valid (present, valid))
      | inr (errors, invalid) ↦
          rw (present, body_from_request, validated_body_from_request)
            (rw (invalid) (refl, refl, inr (value, errors, present, invalid, refl)))
    ]
  ]
