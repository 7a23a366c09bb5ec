-- ===== src/UseCase/Create/Outcomes.antt =====
-- src/application/create-processing-request.use-case.ts over the in-memory adapters: the states and
-- the answers that a creation can end with.
use processing_catalog.Prelude.{
  ℕ, String, ◌≡◌, refl, ◌⊎◌, inl, inr, false, Option, some, List, [], ◌∷◌, any, arith,
}
use processing_catalog.Outcome.{Error, Result, ok, err}
use processing_catalog.Domain.Request.{ProcessingRequest, create_processing_request}
use processing_catalog.Domain.Request
use processing_catalog.Memory.Store.{
  Memory, OutboxEntry, OnThrow, in_memory_repository, unit_of_work, owned_by, has_idempotency_key,
  has_source, save, add, mark_event_processed, find_by_event_id, find_by_owner_and_idempotency_key,
  find_by_owner_and_source,
}
use processing_catalog.UseCase.Routes.{video_validation_requested}
use processing_catalog.UseCase.Create.{
  CreateInput, CreateResult, created, validation_payload, valid_correlation_id, execute,
}
use processing_catalog.UseCase.Delivery.Spec.{mark, store}

-- The use case over the in-memory adapters.
abbrev pub create :
    OnThrow → (Memory → Memory) → String → ℕ → CreateInput → Memory → Result CreateResult × Memory
create policy meanwhile uuid now input =
    execute in_memory_repository (unit_of_work policy meanwhile) uuid now input

-- What the domain is asked to create, past the check of the correlation id.
abbrev pub domain_input : CreateInput → Option String → Request.CreateInput
domain_input input correlation_id = record {
  owner_user_id = input.owner_user_id;
  owner_email = input.owner_email;
  source_storage_key = input.source_storage_key;
  idempotency_key = some input.idempotency_key;
  correlation_id = correlation_id;
}

abbrev pub validation_entry : String → ProcessingRequest → List OutboxEntry
validation_entry event_id r =
    record {
      queue = video_validation_requested.queue;
      pattern = video_validation_requested.pattern;
      payload = validation_payload event_id r;
    }
    ∷ []

abbrev pub written : CreateInput → ProcessingRequest → Memory → Memory
written input r s = mark input.event_id r (store r (validation_entry input.event_id r) s)

-- No request of the owner has the key or the source.
pub record IsNew (r : ProcessingRequest) (s : Memory) : Type 0 where
  pub key : any (has_idempotency_key r.idempotency_key) (owned_by r.owner_user_id s) ≡ false
  pub source : any (has_source r.source_storage_key) (owned_by r.owner_user_id s) ≡ false

-- A creation that wrote: what it stored and answered.
pub record HasWritten (uuid : String) (now : ℕ) (input : CreateInput) (s : Memory)
    (out : Result CreateResult × Memory) : Type 0 where
  pub correlation_id : Option String
  pub checked : valid_correlation_id input.correlation_id ≡ ok correlation_id
  pub request : ProcessingRequest
  pub valid : create_processing_request uuid now (domain_input input correlation_id) ≡ ok request
  pub is_new : IsNew request s
  pub answer : out ≡ (ok (record { request = request; outcome = created }), written input request s)

module _ (policy : OnThrow) (meanwhile : Memory → Memory) (uuid : String) (now : ℕ)
    (input : CreateInput) (s : Memory) where
  abbrev pub Unwritten : Type 0
  Unwritten =
      ((create policy meanwhile uuid now input s).1 ≡ s)
      ⊎ ((create policy meanwhile uuid now input s).1 ≡ meanwhile s)

  refused_id : (x : Error) → valid_correlation_id input.correlation_id ≡ err x → Unwritten
  unfolding execute find_by_event_id
  refused_id x e = ground arith

  refused_input :
      (correlation_id : Option String) (x : Error)
      → valid_correlation_id input.correlation_id ≡ ok correlation_id
      → create_processing_request uuid now (domain_input input correlation_id) ≡ err x
      → Unwritten
  unfolding execute find_by_event_id
  refused_input correlation_id x e f = ground arith

  taken_or_written :
      (correlation_id : Option String) (r : ProcessingRequest)
      → valid_correlation_id input.correlation_id ≡ ok correlation_id
      → create_processing_request uuid now (domain_input input correlation_id) ≡ ok r
      → Unwritten
        ⊎ (IsNew r (meanwhile s)
            × (create policy meanwhile uuid now input s
                ≡ (ok (record { request = r; outcome = created }), written input r (meanwhile s))))
  unfolding execute save add mark_event_processed find_by_event_id find_by_owner_and_idempotency_key
      find_by_owner_and_source create_processing_request
  taken_or_written correlation_id r e f = ground arith

  abbrev pub Cases : Type 0
  Cases =
      Unwritten ⊎ HasWritten uuid now input (meanwhile s) (create policy meanwhile uuid now input s)

  -- A creation leaves the state that it read, or the one that its transaction found, or has written
  -- one new request with its event and its record.
  pub create_cases : Cases
  create_cases = on_id (valid_correlation_id input.correlation_id) refl
    where
      on_request :
          (correlation_id : Option String) (result : Result ProcessingRequest)
          → valid_correlation_id input.correlation_id ≡ ok correlation_id
          → create_processing_request uuid now (domain_input input correlation_id) ≡ result
          → Cases
      on_request correlation_id (err x) e f = inl (refused_input correlation_id x e f)
      on_request correlation_id (ok r) e f = elim (taken_or_written correlation_id r e f) [
        | inl kept ↦ inl kept
        | inr (is_new, answer) ↦ inr (record {
          correlation_id = correlation_id;
          checked = e;
          request = r;
          valid = f;
          is_new = is_new;
          answer = answer;
        })
      ]

      on_id : (id : Result (Option String)) → valid_correlation_id input.correlation_id ≡ id → Cases
      on_id (err x) e = inl (refused_id x e)
      on_id (ok id) e =
          on_request id (create_processing_request uuid now (domain_input input id)) e refl
