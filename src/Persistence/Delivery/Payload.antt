-- ===== src/Persistence/Delivery/Payload.antt =====
-- What src/application writes into the outbox fits a jsonb column: the payloads of the events that
-- the use cases announce.
use processing_catalog.UseCase.Complete.{completed_payload}
use processing_catalog.UseCase.Accept.{queued_payload}
use processing_catalog.UseCase.Fail.{failed_payload}
use processing_catalog.UseCase.Routes.{optional, correlation}
use processing_catalog.Value.{Fields, field, string}
use processing_catalog.Persistence.Columns.{
  fits_text, fits_row, fits_varchar, fits_optional, fits_uuid, uuid-fits,
}
use processing_catalog.Persistence.Database.{fits_payload}
use processing_catalog.Prelude.{Option, String, ◌≡◌, true, arith, refl, some, none}
use processing_catalog.Persistence.TypeOrm.{to_row}
use processing_catalog.Domain.Request.{
  ProcessingRequest, status_text, Status, received, queued, processing, completed, failed,
  FailureCode, failure_reason_for, formato_invalido, duracao_excedida, processamento_falhou,
}

optional-fits :
    (name : String) (x : Option String) (rest : Fields)
    → fits_text name ≡ true
    → fits_optional fits_text x ≡ true
    → fits_payload rest ≡ true
    → fits_payload (field name (optional x) rest) ≡ true
unfolding fits_payload
optional-fits name none rest h k l = l
optional-fits name (some s) rest h k l = ground (arith, h, k, l)

attempt-fits :
    (x : Option String) → fits_optional fits_uuid x ≡ true → fits_optional fits_text x ≡ true
attempt-fits none h = refl
attempt-fits (some id) h = uuid-fits id h

pub correlation-fits :
    (x : Option String) → fits_optional fits_varchar x ≡ true → fits_payload (correlation x) ≡ true
unfolding fits_payload fits_varchar fits_text
correlation-fits none h = refl
correlation-fits (some id) h = ground arith

pub text-fits :
    (name s : String) (rest : Fields)
    → fits_text name ≡ true
    → fits_text s ≡ true
    → fits_payload rest ≡ true
    → fits_payload (field name (string s) rest) ≡ true
unfolding fits_payload
text-fits name s rest h k l = ground (arith, h, k, l)

status-fits : (status : Status) → fits_text (status_text status) ≡ true
unfolding fits_text status_text
status-fits received = refl
status-fits queued = refl
status-fits processing = refl
status-fits completed = refl
status-fits failed = refl

pub row-fits :
    (r : ProcessingRequest)
    → fits_row (to_row r) ≡ true
    → (fits_uuid r.processing_request_id ≡ true)
      × (fits_text r.owner_user_id ≡ true)
      × (fits_text r.owner_email ≡ true)
      × (fits_text r.source_storage_key ≡ true)
      × (fits_optional fits_text r.zip_storage_key ≡ true)
      × (fits_optional fits_uuid r.attempt_id ≡ true)
      × (fits_optional fits_varchar r.correlation_id ≡ true)
unfolding fits_row to_row
row-fits r h = ground arith

-- The announcement of a completion holds no text that jsonb refuses.
pub completed-fits :
    (uuid occurred_at : String) (r : ProcessingRequest)
    → fits_text uuid ≡ true
    → fits_text occurred_at ≡ true
    → fits_row (to_row r) ≡ true
    → fits_payload (completed_payload uuid occurred_at r) ≡ true
unfolding fits_text
completed-fits uuid occurred_at r h k fits =
    let (id, owner, email, source, zip, attempt, trace) = row-fits r fits in
    text-fits "eventId" uuid _ refl h (
      text-fits "processingRequestId" r.processing_request_id _ refl
        (uuid-fits r.processing_request_id id)
        (text-fits "ownerUserId" r.owner_user_id _ refl owner (
          text-fits "ownerEmail" r.owner_email _ refl email (
            text-fits "status" (status_text r.status) _ refl (status-fits r.status) (
              optional-fits "zipStorageKey" r.zip_storage_key _ refl zip (
                optional-fits "attemptId" r.attempt_id _ refl (attempt-fits r.attempt_id attempt) (
                  text-fits "occurredAt" occurred_at _ refl k
                    (correlation-fits r.correlation_id trace))))))))

-- So does the announcement of a job,
pub queued-fits :
    (uuid occurred_at : String) (r : ProcessingRequest)
    → fits_text uuid ≡ true
    → fits_text occurred_at ≡ true
    → fits_row (to_row r) ≡ true
    → fits_payload (queued_payload uuid occurred_at r) ≡ true
unfolding fits_text
queued-fits uuid occurred_at r h k fits =
    let (id, owner, email, source, zip, attempt, trace) = row-fits r fits in
    text-fits "eventId" uuid _ refl h (
      text-fits "processingRequestId" r.processing_request_id _ refl
        (uuid-fits r.processing_request_id id)
        (text-fits "ownerUserId" r.owner_user_id _ refl owner (
          text-fits "sourceStorageKey" r.source_storage_key _ refl source (
            optional-fits "attemptId" r.attempt_id _ refl (attempt-fits r.attempt_id attempt) (
              text-fits "occurredAt" occurred_at _ refl k
                (correlation-fits r.correlation_id trace))))))

reason-fits : (code : FailureCode) → fits_text (failure_reason_for code) ≡ true
unfolding fits_text failure_reason_for
reason-fits formato_invalido = refl
reason-fits duracao_excedida = refl
reason-fits processamento_falhou = refl

-- and that of a failure.
pub failed-fits :
    (uuid occurred_at : String) (code : FailureCode) (r : ProcessingRequest)
    → fits_text uuid ≡ true
    → fits_text occurred_at ≡ true
    → fits_row (to_row r) ≡ true
    → fits_payload (failed_payload uuid occurred_at code r) ≡ true
unfolding fits_text
failed-fits uuid occurred_at code r h k fits =
    let (id, owner, email, source, zip, attempt, trace) = row-fits r fits in
    text-fits "eventId" uuid _ refl h (
      text-fits "processingRequestId" r.processing_request_id _ refl
        (uuid-fits r.processing_request_id id)
        (text-fits "ownerUserId" r.owner_user_id _ refl owner (
          text-fits "ownerEmail" r.owner_email _ refl email (
            text-fits "status" (status_text r.status) _ refl (status-fits r.status) (
              text-fits "failureReason" (failure_reason_for code) _ refl (reason-fits code) (
                optional-fits "attemptId" r.attempt_id _ refl (attempt-fits r.attempt_id attempt) (
                  text-fits "occurredAt" occurred_at _ refl k
                    (correlation-fits r.correlation_id trace))))))))
