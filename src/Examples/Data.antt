-- ===== src/Examples/Data.antt =====
-- A request and the events of its life, for the other examples.
use processing_catalog.Prelude.{none, some}
use processing_catalog.Value.{Value}
use processing_catalog.Domain.Request.{ProcessingRequest, received, queued}
use processing_catalog.Memory.Store.{Memory, rolls_back, empty}
use processing_catalog.UseCase.Create.{CreateInput}
use processing_catalog.UseCase.Create.Outcomes.{create}
use processing_catalog.UseCase.Delivery.Spec.{Event, handle}

abbrev pub upload : CreateInput
upload = record {
  event_id = "e-1";
  owner_user_id = "ann";
  owner_email = "ann@example.org";
  source_storage_key = "uploads/a.mp4";
  idempotency_key = "k-1";
  correlation_id = Value.undefined;
}

abbrev pub fresh : ProcessingRequest
fresh = record {
  processing_request_id = "r-1";
  owner_user_id = "ann";
  owner_email = "ann@example.org";
  source_storage_key = "uploads/a.mp4";
  status = received;
  attempt_id = none;
  zip_storage_key = none;
  failure_code = none;
  idempotency_key = some "k-1";
  correlation_id = none;
  created_at = 1000;
  updated_at = 1000;
}

abbrev pub waiting : ProcessingRequest
waiting = record fresh { status = queued; attempt_id = some "a-1"; updated_at = 2000 }

abbrev pub acceptance : Event
acceptance =
    Event.accepted "a-1" "e-2" 2000
      (record { event_id = "v-1"; processing_request_id = "r-1"; occurred_at = "t" })

abbrev pub completion : Event
completion = Event.completed "e-3" 3000 (record {
  event_id = "c-1";
  processing_request_id = "r-1";
  attempt_id = "a-1";
  zip_storage_key = "zips/a.zip";
  occurred_at = "t";
})

abbrev pub stay : Memory → Memory
stay s = s

-- The states after the creation, the acceptance and the completion.
abbrev pub first : Memory
first = (create rolls_back (λ _. empty) "r-1" 1000 upload empty).1

abbrev pub second : Memory
second = (handle rolls_back (λ _. first) acceptance first).1

abbrev pub third : Memory
third = (handle rolls_back (λ _. second) completion second).1
