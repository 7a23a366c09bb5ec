-- ===== src/Outcome.antt =====
-- What an asynchronous function of the program settles to: a value, or the error that it throws.
-- The error classes are those that the program tells apart by `instanceof`
-- (src/domain/processing-request.ts, src/domain/processing-request.repository.ts,
-- src/application/create-processing-request.use-case.ts).
use processing_catalog.Prelude.{String, Bool, true, false, Option}

pub data Error : Type 0 where
  domain_error : String → Error
  duplicate_idempotency_key : String → String → Error
  duplicate_source : String → String → Error
  idempotency_conflict : Error
  syntax_error : Error
  type_error : Error
  -- TypeORM's QueryFailedError, with the code and the constraint of its driver error
  query_failed : (code constraint : Option String) → Error
  -- any other, such as a refused publish
  other_error : String → Error

-- A settled promise, or a call that returned or threw.
pub data Result {ℓ} (Value : Type ℓ) : Type ℓ where
  err : (thrown : Error) → Result Value
  ok : (value : Value) → Result Value

-- What follows a call runs only if the call did not throw.
abbrev pub ◌>>=◌ {ℓ κ} :
    {V : Type ℓ} {W : Type κ} (call : Result V) (rest : V → Result W) → Result W
err thrown >>= rest = err thrown
ok value >>= rest = rest value

infixl 5 ◌>>=◌
abbrev pub ◌>>◌ {κ} : {W : Type κ} (call : Result (Unit {0})) (rest : Result W) → Result W
call >> rest = call >>= λ done. rest

infixl 5 ◌>>◌
-- `if (bad) throw new ProcessingRequestDomainError(message)`
abbrev pub refuse_if : Bool → String → Result (Unit {0})
refuse_if true message = err (domain_error message)
refuse_if false message = ok tt

-- A result that carries no error.
abbrev pub IsOk {ℓ} : {A : Type ℓ} → Result A → Type 0
IsOk (ok a) = Unit
IsOk (err e) = ⊥
