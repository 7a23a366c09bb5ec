-- ===== src/Persistence/Creation/Recovery.antt =====
-- Around the transaction of src/application/create-processing-request.use-case.ts: the look-ups before
-- it, and the `catch` after it.
use processing_catalog.Memory.Store as Store
use processing_catalog.UseCase.Create
use processing_catalog.Persistence.TypeOrm.{typeorm_unit_of_work, typeorm_repository}
use processing_catalog.UseCase.Create.{CreateInput, CreateResult}
use processing_catalog.Memory.Store.{Memory, in_memory_repository, unit_of_work, rolls_back}
use processing_catalog.Outcome.{
  Error, Result, ok, err, duplicate_source, duplicate_idempotency_key, domain_error,
  idempotency_conflict, syntax_error, type_error, query_failed, other_error,
}
use processing_catalog.Persistence.Manager.{EntityManager}
use processing_catalog.Persistence.Database.{Tables, IsDatabase}
use processing_catalog.Prelude.{
  ℕ, String, Option, ◌≡◌, arith, some, none, ◌∙◌, Bool-cases, refl, ◌==◌, ap, sym, inl, inr,
}
use processing_catalog.Repository.{UnitOfWork, Repository}
use processing_catalog.Domain.Request.{ProcessingRequest}
use processing_catalog.Persistence.View.{tables_of, Agrees, IsKeyed}
use processing_catalog.Persistence.Refines.{find_by_source-Agrees, find_by_key-Agrees}
use processing_catalog.Persistence.Delivery.{then-Agrees}
use processing_catalog.Persistence.Creation.Texts.{InputFits}

module _ {S : Type 0} (manager : EntityManager S) (view : S → Tables) (now : ℕ)
    (database : IsDatabase manager view) (between : S → S) (meanwhile : Memory → Memory)
    (uuid : String) (input : CreateInput) (fits : InputFits uuid input) where
  abbrev stored : Repository S
  stored = typeorm_repository manager now

  abbrev uow : UnitOfWork S
  uow = typeorm_unit_of_work manager now between

  abbrev uow_in_memory : UnitOfWork Memory
  uow_in_memory = unit_of_work rolls_back meanwhile

  pub replay-Agrees :
      (bound : ProcessingRequest) (t : S) (n : Memory)
      → view t ≡ tables_of n
      → Agrees view
          (Create.replay stored uow uuid now input bound t)
          (Create.replay in_memory_repository uow_in_memory uuid now input bound n)
  unfolding Create.replay
  replay-Agrees bound t n same =
      elim (Bool-cases (bound.source_storage_key == input.source_storage_key)) [
        | inl own ↦ rw own (refl, same)
        | inr other ↦ rw other (refl, same)
      ]

  source_answer-Agrees :
      (e : Error) (winner : Option ProcessingRequest) (t : S) (n : Memory)
      → view t ≡ tables_of n
      → Agrees view
          (Create.answer_source stored uow uuid now input e winner t)
          (Create.answer_source in_memory_repository uow_in_memory uuid now input e winner n)
  unfolding Create.answer_source
  source_answer-Agrees e none t n same = (refl, same)
  source_answer-Agrees e (some winner) t n same = (refl, same)

  key_answer-Agrees :
      (e : Error) (winner : Option ProcessingRequest) (t : S) (n : Memory)
      → view t ≡ tables_of n
      → Agrees view
          (Create.answer_key stored uow uuid now input e winner t)
          (Create.answer_key in_memory_repository uow_in_memory uuid now input e winner n)
  unfolding Create.answer_key
  key_answer-Agrees e none t n same = (refl, same)
  key_answer-Agrees e (some winner) t n same = replay-Agrees winner t n same

  -- The `catch` answers alike on both sides, for the same error.
  recover-Agrees :
      (e : Error) (t : S) (n : Memory)
      → view t ≡ tables_of n
      → IsKeyed n.requests
      → Agrees view
          (Create.recover stored uow uuid now input e t)
          (Create.recover in_memory_repository uow_in_memory uuid now input e n)
  unfolding Create.recover Store.find_by_owner_and_source Store.find_by_owner_and_idempotency_key
  recover-Agrees (duplicate_source owner source) t n same keyed =
      let found =
        find_by_source-Agrees manager view now database t n same keyed input.owner_user_id
          input.source_storage_key fits.owner fits.source in
      then-Agrees view
        (stored.find_by_owner_and_source input.owner_user_id input.source_storage_key)
        (in_memory_repository.find_by_owner_and_source input.owner_user_id input.source_storage_key)
        (Create.answer_source stored uow uuid now input (duplicate_source owner source))
        (Create.answer_source in_memory_repository uow_in_memory uuid now input
          (duplicate_source owner source))
        t n found (λ winner e. source_answer-Agrees _ winner _ n found.1)
  recover-Agrees (duplicate_idempotency_key owner key) t n same keyed =
      let found =
        find_by_key-Agrees manager view now database t n same keyed input.owner_user_id
          input.idempotency_key fits.owner fits.key in
      then-Agrees view
        (stored.find_by_owner_and_idempotency_key input.owner_user_id input.idempotency_key)
        (in_memory_repository.find_by_owner_and_idempotency_key input.owner_user_id
          input.idempotency_key)
        (Create.answer_key stored uow uuid now input (duplicate_idempotency_key owner key))
        (Create.answer_key in_memory_repository uow_in_memory uuid now input
          (duplicate_idempotency_key owner key))
        t n found (λ winner e. key_answer-Agrees _ winner _ n found.1)
  recover-Agrees (domain_error x) t n same keyed = (refl, same)
  recover-Agrees idempotency_conflict t n same keyed = (refl, same)
  recover-Agrees syntax_error t n same keyed = (refl, same)
  recover-Agrees type_error t n same keyed = (refl, same)
  recover-Agrees (query_failed code constraint) t n same keyed = (refl, same)
  recover-Agrees (other_error x) t n same keyed = (refl, same)

  pub attempt-Agrees :
      (r : Result CreateResult) (t : S) (n : Memory)
      → view t ≡ tables_of n
      → ((e : Error) → r ≡ err e → IsKeyed n.requests)
      → Agrees view
          (Create.attempt stored uow uuid now input (r, t))
          (Create.attempt in_memory_repository uow_in_memory uuid now input (r, n))
  unfolding Create.attempt
  attempt-Agrees (ok a) t n same keyed = (refl, same)
  attempt-Agrees (err e) t n same keyed = recover-Agrees e t n same (keyed e refl)

  -- The `catch` leaves the state as it is, whatever the error and the repository.
  replay_keeps :
      (bound : ProcessingRequest) (n : Memory)
      → (Create.replay in_memory_repository uow_in_memory uuid now input bound n).1 ≡ n
  unfolding Create.replay
  replay_keeps bound n = ground arith

  key_answer_keeps :
      (e : Error) (winner : Option ProcessingRequest) (n : Memory)
      → (Create.answer_key in_memory_repository uow_in_memory uuid now input e winner n).1 ≡ n
  unfolding Create.answer_key
  key_answer_keeps e none n = refl
  key_answer_keeps e (some winner) n = replay_keeps winner n

  source_answer_keeps :
      (e : Error) (winner : Option ProcessingRequest) (n : Memory)
      → (Create.answer_source in_memory_repository uow_in_memory uuid now input e winner n).1 ≡ n
  unfolding Create.answer_source
  source_answer_keeps e none n = refl
  source_answer_keeps e (some winner) n = refl

  -- So where PostgreSQL reports the source and the in-memory repository the key, the states still
  -- agree.
  pub recover_keeps :
      (owner source key : String) (t : S) (n : Memory)
      → view t ≡ tables_of n
      → IsKeyed n.requests
      → view (Create.attempt stored uow uuid now input (err (duplicate_source owner source), t)).1
        ≡ tables_of
            (Create.attempt in_memory_repository uow_in_memory uuid now input
              (err (duplicate_idempotency_key owner key), n)).1
  unfolding Create.attempt Create.recover Store.find_by_owner_and_source
      Store.find_by_owner_and_idempotency_key
  recover_keeps owner source key t n same keyed =
      let by_source = recover-Agrees (duplicate_source owner source) t n same keyed in
      by_source.1
      ∙ ap tables_of (
          source_answer_keeps (duplicate_source owner source) _ n
          ∙ sym (key_answer_keeps (duplicate_idempotency_key owner key) _ n))
