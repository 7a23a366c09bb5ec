-- ===== src/Domain/Request.antt =====
-- src/domain/processing-request.ts (the aggregate and its creation) and
-- src/domain/failure-reason.ts. A `Date` is its time value, in milliseconds.
use processing_catalog.Prelude.{
  ℕ, String, Bool, true, false, Option, none, some, List, [], ◌∷◌, ◌==◌, if◌then◌else◌,
}
use processing_catalog.Text.{is_missing}
use processing_catalog.Value.{Value, string}
use processing_catalog.Outcome.{Result, ok, refuse_if, ◌>>◌}

pub data Status : Type 0 where
  received queued processing completed failed : Status

-- The member's value, as messages and payloads show it.
unfoldable pub status_text : Status → String
status_text received = "RECEIVED"
status_text queued = "QUEUED"
status_text processing = "PROCESSING"
status_text completed = "COMPLETED"
status_text failed = "FAILED"

-- a === b
abbrev pub same_status : Status → Status → Bool
same_status received received = true
same_status queued queued = true
same_status processing processing = true
same_status completed completed = true
same_status failed failed = true
same_status _ _ = false

pub data FailureCode : Type 0 where
  formato_invalido duracao_excedida processamento_falhou : FailureCode

unfoldable pub failure_code_text : FailureCode → String
failure_code_text formato_invalido = "FORMATO_INVALIDO"
failure_code_text duracao_excedida = "DURACAO_EXCEDIDA"
failure_code_text processamento_falhou = "PROCESSAMENTO_FALHOU"

abbrev pub failure_codes : List FailureCode
failure_codes = formato_invalido ∷ duracao_excedida ∷ processamento_falhou ∷ []

code_named : String → List FailureCode → Option FailureCode
code_named text [] = none
code_named text (c ∷ cs) = if failure_code_text c == text then some c else code_named text cs

-- The guard narrows an unknown value to a code: `none` where it answers false.
unfoldable pub is_failure_code : Value → Option FailureCode
unfolding code_named failure_code_text
is_failure_code (string s) = code_named s failure_codes
is_failure_code _ = none

unfoldable pub failure_reason_for : FailureCode → String
failure_reason_for formato_invalido = "O arquivo enviado nao e um video MP4 ou MOV valido."
failure_reason_for duracao_excedida = "O video excede a duracao maxima de 10 minutos."
failure_reason_for processamento_falhou =
    "Nao foi possivel processar o video. Tente enviar novamente."

pub record ProcessingRequest : Type 0 where
  pub processing_request_id : String
  pub owner_user_id : String
  pub owner_email : String
  pub source_storage_key : String
  pub status : Status
  pub attempt_id : Option String
  pub zip_storage_key : Option String
  pub failure_code : Option FailureCode
  pub idempotency_key : Option String
  pub correlation_id : Option String
  pub created_at : ℕ
  pub updated_at : ℕ

pub record CreateInput : Type 0 where
  pub owner_user_id : String
  pub owner_email : String
  pub source_storage_key : String
  pub idempotency_key : Option String
  pub correlation_id : Option String

-- `uuid` is the answer of randomUUID(), `now` that of new Date().
unfoldable pub create_processing_request : String → ℕ → CreateInput → Result ProcessingRequest
create_processing_request uuid now input = do
  refuse_if (is_missing input.owner_user_id) "ownerUserId is required"
  refuse_if (is_missing input.owner_email) "ownerEmail is required"
  refuse_if (is_missing input.source_storage_key) "sourceStorageKey is required"
  ok (record {
    processing_request_id = uuid;
    owner_user_id = input.owner_user_id;
    owner_email = input.owner_email;
    source_storage_key = input.source_storage_key;
    status = received;
    attempt_id = none;
    zip_storage_key = none;
    failure_code = none;
    idempotency_key = input.idempotency_key;
    correlation_id = input.correlation_id;
    created_at = now;
    updated_at = now;
  })
