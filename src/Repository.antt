-- ===== src/Repository.antt =====
-- The ports: src/domain/processing-request.repository.ts and src/application/unit-of-work.ts, as
-- records of operations over the state `S` of whoever implements them.
use processing_catalog.Prelude.{ℕ, String, Bool, Option, List}
use processing_catalog.Value.{Fields}
use processing_catalog.Outcome.{Result, ok, err}
use processing_catalog.Action.{Action}
use processing_catalog.Domain.Request.{ProcessingRequest}

pub record Repository (S : Type 0) : Type 0 where
  pub save : ProcessingRequest → Action S (Unit {0})
  pub update : ProcessingRequest → Action S (Unit {0})
  pub find_by_processing_request_id : String → Action S (Option ProcessingRequest)
  pub find_for_update : String → Action S (Option ProcessingRequest)
  pub find_by_event_id : String → Action S (Option ProcessingRequest)
  pub mark_event_processed : String → Option String → Action S (Unit {0})
  pub has_event_been_processed : String → Action S Bool
  pub find_page_by_owner : String → ℕ → ℕ → Action S (List ProcessingRequest)
  pub count_by_owner : String → Action S ℕ
  pub find_by_id_and_owner : String → String → Action S (Option ProcessingRequest)
  pub find_by_owner_and_idempotency_key : String → String → Action S (Option ProcessingRequest)
  pub find_by_owner_and_source : String → String → Action S (Option ProcessingRequest)

pub record OutboxWriter (S : Type 0) : Type 0 where
  pub add : String → String → Fields → Action S (Unit {0})

pub record TransactionContext (S : Type 0) : Type 0 where
  pub requests : Repository S
  pub outbox : OutboxWriter S

-- How a unit of work runs its callback: `context` is what it hands over, `meanwhile` what other
-- executions committed between the caller's last read and the start of the transaction, and
-- `on_throw` the state left by a callback that threw, from the state at the start and at the throw.
pub record UnitOfWork (S : Type 0) : Type 0 where
  pub context : TransactionContext S
  pub meanwhile : S → S
  pub on_throw : S → S → S

abbrev settle : {S A : Type 0} → UnitOfWork S → S → Result A × S → Result A × S
settle uow start (ok a, s) = (ok a, s)
settle uow start (err e, s) = (err e, uow.on_throw start s)

abbrev pub run_in_transaction :
    {S A : Type 0} → UnitOfWork S → (TransactionContext S → Action S A) → Action S A
run_in_transaction uow work s = settle uow (uow.meanwhile s) (work uow.context (uow.meanwhile s))
