-- ===== src/Domain/Invariant.antt =====
-- What holds of a request that the lifecycle functions of src/domain/processing-request.ts made:
-- which optional fields go with which status. Each function keeps it, and keeps the identity.
use processing_catalog.Prelude.{ℕ, String, ◌≡◌, false, Option, none, some, arith}
use processing_catalog.Text.{is_missing}
use processing_catalog.Value.{Value}
use processing_catalog.Outcome.{ok}
use processing_catalog.Domain.Request.{
  received, queued, processing, completed, failed, Status, FailureCode, ProcessingRequest,
  CreateInput, create_processing_request,
}
use processing_catalog.Domain.Transitions.{
  Returned, request_of, accept_processing_request, complete_processing_request,
  start_processing_request, fail_processing_request, reject_processing_request,
}

abbrev pub HasKey : Option String → Type 0
HasKey none = ⊥
HasKey (some key) = is_missing key ≡ false

abbrev pub IsSome {ℓ} : {A : Type ℓ} → Option A → Type 0
IsSome none = ⊥
IsSome (some a) = Unit

-- The optional fields that each status has, and those that it lacks.
abbrev pub FieldsFit : Status → Option String → Option String → Option FailureCode → Type 0
FieldsFit received attempt zip code = (attempt ≡ none) × (zip ≡ none) × (code ≡ none)
FieldsFit queued attempt zip code = IsSome attempt × (zip ≡ none) × (code ≡ none)
FieldsFit processing attempt zip code = IsSome attempt × (zip ≡ none) × (code ≡ none)
FieldsFit completed attempt zip code = IsSome attempt × HasKey zip × (code ≡ none)
FieldsFit failed attempt zip code = (zip ≡ none) × IsSome code

pub record IsWellFormed (r : ProcessingRequest) : Type 0 where
  pub owner : is_missing r.owner_user_id ≡ false
  pub email : is_missing r.owner_email ≡ false
  pub source : is_missing r.source_storage_key ≡ false
  pub fields : FieldsFit r.status r.attempt_id r.zip_storage_key r.failure_code

pub create-IsWellFormed :
    (uuid : String) (now : ℕ) (input : CreateInput) (r : ProcessingRequest)
    → create_processing_request uuid now input ≡ ok r
    → IsWellFormed r
unfolding create_processing_request
create-IsWellFormed uuid now input r h = ground arith

pub accept-IsWellFormed :
    (uuid : String) (now : ℕ) (r : ProcessingRequest) (out : Returned)
    → accept_processing_request uuid now r ≡ ok out
    → IsWellFormed r
    → IsWellFormed (request_of out)
unfolding accept_processing_request
accept-IsWellFormed uuid now r out h w = ground arith

pub complete-IsWellFormed :
    (now : ℕ) (r : ProcessingRequest) (key : String) (out : Returned)
    → complete_processing_request now r key ≡ ok out
    → IsWellFormed r
    → IsWellFormed (request_of out)
unfolding complete_processing_request
complete-IsWellFormed now r key out h w = ground arith

pub start-IsWellFormed :
    (now : ℕ) (r : ProcessingRequest) (out : Returned)
    → start_processing_request now r ≡ ok out
    → IsWellFormed r
    → IsWellFormed (request_of out)
unfolding start_processing_request
start-IsWellFormed now r out h w = ground arith

pub fail-IsWellFormed :
    (now : ℕ) (r : ProcessingRequest) (code : Value) (out : Returned)
    → fail_processing_request now r code ≡ ok out
    → IsWellFormed r
    → IsWellFormed (request_of out)
unfolding fail_processing_request
fail-IsWellFormed now r code out h w = ground arith

pub reject-IsWellFormed :
    (now : ℕ) (r : ProcessingRequest) (code : Value) (out : Returned)
    → reject_processing_request now r code ≡ ok out
    → IsWellFormed r
    → IsWellFormed (request_of out)
unfolding reject_processing_request
reject-IsWellFormed now r code out h w = ground arith
