-- ===== src/Interface/Creation.antt =====
-- src/interface/create-processing-request.controller.ts. The body is the fields of a JSON object.

use processing_catalog.Outcome.{Error, Result, domain_error, idempotency_conflict, ok, err}
use processing_catalog.Value.{Fields, Value, get_field, undefined, null, string}
use processing_catalog.Repository.{Repository, UnitOfWork}
use processing_catalog.UseCase.Create.{
  CreateOutcome, CreateResult, created, replayed, CreateInput, execute,
}
use processing_catalog.Domain.Request.{ProcessingRequest, Status}
use processing_catalog.Prelude.{String, ℕ, if◌then◌else◌, nat_eq, ltb}
use processing_catalog.Text.{trim, text_length, ◌<>◌}
use processing_catalog.IsoDate.{to_iso_string}
use processing_catalog.Interface.Http.{
  ◌>>=◌, conflict, bad_request, unhandled, Checked, passed, failed, HttpError, Answer, answered,
  refused, checked,
}

-- The four tests, in the order of the source, of a value that is a text, and of any other; `shown`
-- is the greatest length as the message prints it.
require_text : String → ℕ → String → String → Checked String
require_text name max_length shown s =
    if nat_eq (text_length (trim s)) 0
    then failed (bad_request (name <> " is required"))
    else if ltb max_length (text_length s)
    then failed (bad_request (name <> " must be at most " <> shown <> " characters"))
    else passed s

required : String → ℕ → String → Value → Checked String
required name max_length shown undefined = failed (bad_request (name <> " is required"))
required name max_length shown null = failed (bad_request (name <> " is required"))
required name max_length shown (string s) = require_text name max_length shown s
required name max_length shown _ = failed (bad_request (name <> " must be a string"))

unfoldable pub require_string : Fields → String → ℕ → String → Checked String
unfolding required require_text
require_string dto name max_length shown = required name max_length shown (get_field name dto)

pub record Validated : Type 0 where
  pub owner_user_id : String
  pub owner_email : String
  pub source_storage_key : String
  pub idempotency_key : String

unfoldable pub validate_dto : Fields → Checked Validated
validate_dto dto = do
  owner ← require_string dto "ownerUserId" 255 "255"
  email ← require_string dto "ownerEmail" 255 "255"
  source ← require_string dto "sourceStorageKey" 1024 "1024"
  key ← require_string dto "idempotencyKey" 255 "255"
  passed (record {
    owner_user_id = owner;
    owner_email = email;
    source_storage_key = source;
    idempotency_key = key;
  })

pub record CreatedBody : Type 0 where
  pub processing_request_id : String
  pub status : Status
  pub owner_user_id : String
  pub source_storage_key : String
  pub created_at : String

abbrev body_of : ProcessingRequest → CreatedBody
body_of r = record {
  processing_request_id = r.processing_request_id;
  status = r.status;
  owner_user_id = r.owner_user_id;
  source_storage_key = r.source_storage_key;
  created_at = to_iso_string r.created_at;
}

abbrev status_of : CreateOutcome → ℕ
status_of created = 201
status_of replayed = 200

-- The `catch` of the handler.
abbrev http_error : Error → HttpError
http_error idempotency_conflict =
    conflict "idempotencyKey is already used for a different sourceStorageKey"
http_error (domain_error message) = bad_request message
http_error error = unhandled error

abbrev pub answer : Result CreateResult → Answer CreatedBody
answer (ok result) = answered (status_of result.outcome) (body_of result.request)
answer (err error) = refused (http_error error)

abbrev pub use_case_input : String → Fields → Validated → CreateInput
use_case_input event_uuid dto fields = record {
  event_id = event_uuid;
  owner_user_id = fields.owner_user_id;
  owner_email = fields.owner_email;
  source_storage_key = fields.source_storage_key;
  idempotency_key = fields.idempotency_key;
  correlation_id = get_field "correlationId" dto;
}

abbrev pub answer_with : {S : Type 0} → Result CreateResult × S → Answer CreatedBody × S
answer_with (result, s) = (answer result, s)

module _ {S : Type 0} (repository : Repository S) (unit_of_work : UnitOfWork S)
    (event_uuid uuid : String) (now : ℕ) where
  unfoldable pub create : Fields → S → Answer CreatedBody × S
  create dto = checked (validate_dto dto) λ fields s.
      answer_with
        (execute repository unit_of_work uuid now (use_case_input event_uuid dto fields) s)
