-- ===== src/Persistence/Creation.antt =====
-- src/application/create-processing-request.use-case.ts over PostgreSQL and in memory.
pub mod Texts
mod Written
mod Recovery
mod Taken
pub use processing_catalog.Persistence.Creation.Taken.{BothTaken, create_stored}
use processing_catalog.Persistence.Creation.Taken.{Matches, then-Matches, created_by, both_taken}
use processing_catalog.Memory.Store as Store
use processing_catalog.UseCase.Create
use processing_catalog.Persistence.TypeOrm
use processing_catalog.Persistence.TypeOrm.{to_row, typeorm_unit_of_work, typeorm_repository}
use processing_catalog.UseCase.Create.{CreateInput, CreateResult, valid_correlation_id}
use processing_catalog.UseCase.Create.Outcomes.{create, domain_input}
use processing_catalog.Memory.Store.{
  Memory, in_memory_repository, unit_of_work, rolls_back, has_idempotency_key, has_source,
}
use processing_catalog.Outcome.{Error, Result, ok, err}
use processing_catalog.Action.{Action, lift, ◌>>=◌}
pub use processing_catalog.Persistence.Creation.Texts.{InputFits}
use processing_catalog.Persistence.Creation.Written.{
  written, written_in_memory, TransactionAgrees, transacted-Agrees, rolled_back,
}
use processing_catalog.Persistence.Database.{Tables, IsDatabase}
use processing_catalog.Persistence.Manager.{EntityManager}
use processing_catalog.Prelude.{
  String, any, some, ◌≡◌, ℕ, Option, true, ◌⊎◌, sym, inl, refl, arith, false, ◌∙◌, ◌==◌, none, ap,
  inr,
}
use processing_catalog.Domain.Request.{create_processing_request, ProcessingRequest}
use processing_catalog.Persistence.View.{Agrees, tables_of, IsKeyed}
use mathlib.Core.Path.{subst}
use processing_catalog.Map.{has, get}
use processing_catalog.Persistence.Save.{key_taken, source_taken}
use processing_catalog.Repository.{UnitOfWork, Repository, run_in_transaction}
use processing_catalog.Persistence.Refines.{find_by_source-Agrees, find_by_key-Agrees}
use processing_catalog.Persistence.Creation.Texts.{created-fits}
use processing_catalog.Persistence.Columns.{fits_uuid}
use processing_catalog.Persistence.Events.{find_by_event-Agrees}
use processing_catalog.UseCase.Routes.{require}
use processing_catalog.Persistence.Creation.Recovery.{replay-Agrees, attempt-Agrees, recover_keeps}

module _ {S : Type 0} (manager : EntityManager S) (view : S → Tables) (now : ℕ)
    (database : IsDatabase manager view) (between : S → S) (meanwhile : Memory → Memory)
    (uuid : String) (input : CreateInput) (fits : InputFits uuid input) (s : S) (m : Memory)
    (related : view s ≡ tables_of m)
    (met : (t : S) → view t ≡ tables_of m → view (between t) ≡ tables_of (meanwhile m))
    (keyed : IsKeyed m.requests) (kept : IsKeyed (meanwhile m).requests)
    (fresh_id : has uuid (meanwhile m).requests ≡ false)
    (fresh : has input.event_id (meanwhile m).event_id_to_request_id ≡ false) where
  abbrev stored : Repository S
  stored = typeorm_repository manager now

  abbrev uow : UnitOfWork S
  uow = typeorm_unit_of_work manager now between

  abbrev uow_in_memory : UnitOfWork Memory
  uow_in_memory = unit_of_work rolls_back meanwhile

  abbrev X : Type 0
  X = BothTaken input (meanwhile m)

  known-Matches :
      (id : Option String) (r : ProcessingRequest) (known : Option ProcessingRequest) (t : S)
      → valid_correlation_id input.correlation_id ≡ ok id
      → create_processing_request uuid now (domain_input input id) ≡ ok r
      → view t ≡ tables_of m
      → Matches X view
          (Create.on_known stored uow uuid now input r known t)
          (Create.on_known in_memory_repository uow_in_memory uuid now input r known m)
  unfolding Create.on_known
  known-Matches id r (some known) t checked valid same = inl (refl, same)
  known-Matches id r none t checked valid same =
      let out =
        run_in_transaction uow
          (written manager view now database between meanwhile uuid input fits.event r) t in
      let out' =
        run_in_transaction uow_in_memory
          (written_in_memory manager view now database between meanwhile uuid input fits.event r)
          m in
      let fits_row_r = created-fits uuid now input id r fits checked valid in
      let own = (created_by uuid now input id r valid).0 in
      elim (transacted-Agrees manager view now database between meanwhile uuid input fits.event t m
        r (met t same) kept fits_row_r (ap (λ i. has i (meanwhile m).requests) own ∙ fresh_id)
        fresh) [
          | inl (answer, left) ↦ inl (
              subst
                (λ result.
                  Agrees view (Create.attempt stored uow uuid now input (result, out.1))
                    (Create.attempt in_memory_repository uow_in_memory uuid now input out'))
                (sym answer)
                (attempt-Agrees manager view now database between meanwhile uuid input fits out'.0
                  out.1 out'.1 left
                  (λ e h.
                    subst (λ n. IsKeyed n.requests)
                      (sym (
                        rolled_back manager view now database between meanwhile uuid input
                          fits.event r m e h))
                      kept)))
          | inr (threw, threw_in_memory, key, source) ↦ inr (
            both_taken uuid now input id r (meanwhile m) valid key source,
            ap (λ o. view (Create.attempt stored uow uuid now input o).1) threw
                ∙ recover_keeps manager view now database between meanwhile uuid input fits _ _ _
                    (between t) (meanwhile m) (met t same) kept
                ∙ ap
                    (λ o.
                      tables_of
                        (Create.attempt in_memory_repository uow_in_memory uuid now input o).1)
                    (sym threw_in_memory),
          )
        ]

  bound-Matches :
      (id : Option String) (r : ProcessingRequest) (bound : Option ProcessingRequest) (t : S)
      → valid_correlation_id input.correlation_id ≡ ok id
      → create_processing_request uuid now (domain_input input id) ≡ ok r
      → view t ≡ tables_of m
      → Matches X view
          (Create.on_bound stored uow uuid now input r bound t)
          (Create.on_bound in_memory_repository uow_in_memory uuid now input r bound m)
  unfolding Create.on_bound Store.find_by_owner_and_source
  bound-Matches id r (some bound) t checked valid same =
      inl (replay-Agrees manager view now database between meanwhile uuid input fits bound t m same)
  bound-Matches id r none t checked valid same =
      let found =
        find_by_source-Agrees manager view now database t m same keyed input.owner_user_id
          input.source_storage_key fits.owner fits.source in
      then-Matches X view
        (stored.find_by_owner_and_source input.owner_user_id input.source_storage_key)
        (in_memory_repository.find_by_owner_and_source input.owner_user_id input.source_storage_key)
        (Create.on_known stored uow uuid now input r)
        (Create.on_known in_memory_repository uow_in_memory uuid now input r) t m found
        (λ known e. known-Matches id r known _ checked valid found.1)

  existing-Matches :
      (id : Option String) (existing : Option ProcessingRequest) (t : S)
      → valid_correlation_id input.correlation_id ≡ ok id
      → view t ≡ tables_of m
      → Matches X view
          (Create.on_existing stored uow uuid now input id existing t)
          (Create.on_existing in_memory_repository uow_in_memory uuid now input id existing m)
  unfolding Create.on_existing Store.find_by_owner_and_idempotency_key
  existing-Matches id (some existing) t checked same = inl (refl, same)
  existing-Matches id none t checked same =
      let request = create_processing_request uuid now (domain_input input id) in
      let found =
        find_by_key-Agrees manager view now database t m same keyed input.owner_user_id
          input.idempotency_key fits.owner fits.key in
      let look =
        stored.find_by_owner_and_idempotency_key input.owner_user_id input.idempotency_key in
      let look' =
        in_memory_repository.find_by_owner_and_idempotency_key input.owner_user_id
          input.idempotency_key in
      then-Matches X view (lift request) (lift request)
        (λ r. look >>= Create.on_bound stored uow uuid now input r)
        (λ r. look' >>= Create.on_bound in_memory_repository uow_in_memory uuid now input r) t m
        (refl, same)
        (λ r valid.
          then-Matches X view look look' (Create.on_bound stored uow uuid now input r)
            (Create.on_bound in_memory_repository uow_in_memory uuid now input r) t m found
            (λ bound e. bound-Matches id r bound _ checked valid found.1))

  -- A creation over PostgreSQL is one in memory with transactions that roll back: the same answer or
  -- error, and tables that stand for the memory left. Only where a request of the owner has the
  -- call's key, and one its source, when the transaction starts, may the answers differ. The entity
  -- manager is one of a database; the tables stand for the memory at the start, and what other
  -- executions commit before the transaction keeps that so; the requests have distinct ids and stand
  -- under them; the texts of the call fit their columns, as does, if not empty, the request id that
  -- its event was recorded with; the new request's id, and the event's, are not taken when the
  -- transaction starts.
  pub create-Agrees :
      ((x : String)
        → get input.event_id m.event_id_to_request_id ≡ some x
        → (x == "") ≡ false
        → fits_uuid x ≡ true)
      → Agrees view
          (create_stored manager between uuid now input s)
          (create rolls_back meanwhile uuid now input m)
        ⊎ (BothTaken input (meanwhile m)
            × (view (create_stored manager between uuid now input s).1
                ≡ tables_of (create rolls_back meanwhile uuid now input m).1))
  unfolding Create.execute Store.find_by_event_id
  create-Agrees recorded =
      let ids = valid_correlation_id input.correlation_id in
      let found =
        find_by_event-Agrees manager view now database s m related keyed input.event_id fits.event
          recorded in
      let look = λ (id : Option String).
        stored.find_by_event_id input.event_id
        >>= Create.on_existing stored uow uuid now input id in
      let look' = λ (id : Option String).
        in_memory_repository.find_by_event_id input.event_id
        >>= Create.on_existing in_memory_repository uow_in_memory uuid now input id in
      then-Matches X view (require input.event_id "eventId is required")
        (require input.event_id "eventId is required")
        (λ u.
          (require input.idempotency_key "idempotencyKey is required" >>= λ v. (lift ids >>= look)))
        (λ u.
          (require input.idempotency_key "idempotencyKey is required" >>= λ v.
          (lift ids >>= look')))
        s m (refl, related)
        (λ u e.
          then-Matches X view (require input.idempotency_key "idempotencyKey is required")
            (require input.idempotency_key "idempotencyKey is required") (λ v. (lift ids >>= look))
            (λ v. (lift ids >>= look')) s m (refl, related)
            (λ v f.
              then-Matches X view (lift ids) (lift ids) look look' s m (refl, related)
                (λ id checked.
                  then-Matches X view (stored.find_by_event_id input.event_id)
                    (in_memory_repository.find_by_event_id input.event_id)
                    (Create.on_existing stored uow uuid now input id)
                    (Create.on_existing in_memory_repository uow_in_memory uuid now input id) s m
                    found (λ existing g. existing-Matches id existing _ checked found.1))))
