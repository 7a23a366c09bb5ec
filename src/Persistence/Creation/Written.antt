-- ===== src/Persistence/Creation/Written.antt =====
-- The transaction of src/application/create-processing-request.use-case.ts: the request is saved, the
-- event that asks for its validation put in the outbox, and the call's event recorded.
use processing_catalog.Memory.Store as Store
use processing_catalog.UseCase.Create
use processing_catalog.Persistence.TypeOrm
use processing_catalog.Persistence.TypeOrm.{to_row, typeorm_unit_of_work, typeorm_repository}
use processing_catalog.UseCase.Create.{CreateInput, CreateResult, validation_payload, created}
use processing_catalog.Memory.Store.{
  Memory, in_memory_context, in_memory_repository, unit_of_work, rolls_back, text_or_empty,
}
use processing_catalog.Action.{Action, return, ◌>>=◌, lift}
use processing_catalog.Outcome.{Error, Result, ok, err, duplicate_source, duplicate_idempotency_key}
use processing_catalog.Domain.Request.{ProcessingRequest}
use processing_catalog.Repository.{TransactionContext, run_in_transaction}
use processing_catalog.Persistence.Manager.{EntityManager}
use processing_catalog.Prelude.{
  refl, ◌≡◌, ap, ℕ, arith, String, true, ◌⊎◌, false, inl, ◌&&◌, inr, some, ◌∙◌,
}
use processing_catalog.Persistence.Database.{Tables, IsDatabase, fits_payload}
use processing_catalog.Persistence.Columns.{fits_text, fits_row}
use processing_catalog.Value.{Fields}
use processing_catalog.Persistence.View.{tables_of, Agrees, IsKeyed}
use processing_catalog.Map.{has}
use processing_catalog.UseCase.Routes.{video_validation_requested}
use processing_catalog.Persistence.Writes.{add-Agrees, mark-Agrees}
use processing_catalog.Persistence.Delivery.{transaction-Agrees, then-Agrees}
use processing_catalog.Persistence.Creation.Texts.{validation-fits}
use processing_catalog.Persistence.Delivery.Payload.{row-fits}
use processing_catalog.Persistence.Save.{save-Agrees, key_taken, source_taken}

-- Where a call throws, what follows it does not run,
stops :
    {S A B : Type 0} (act : Action S A) (f : A → Action S B) (s : S) (e : Error)
    → (act s).0 ≡ err e
    → (act >>= f) s ≡ (err e, (act s).1)
stops act f s e h = ap (λ r. (lift r >>= f) (act s).1) h

-- and its transaction leaves the state at its start.
thrown :
    {S A : Type 0} (manager : EntityManager S) (now : ℕ) (between : S → S)
    (work : TransactionContext S → Action S A) (s : S) (e : Error)
    → (work (typeorm_unit_of_work manager now between).context (between s)).0 ≡ err e
    → run_in_transaction (typeorm_unit_of_work manager now between) work s ≡ (err e, between s)
thrown {S} manager now between work s e h =
    let left = (work (typeorm_unit_of_work manager now between).context (between s)).1 in
    ap (λ r. run_in_transaction (typeorm_unit_of_work manager now between) (λ ctx x. (r, left)) s) h

thrown_in_memory :
    {A : Type 0} (meanwhile : Memory → Memory) (work : TransactionContext Memory → Action Memory A)
    (m : Memory) (e : Error)
    → (work in_memory_context (meanwhile m)).0 ≡ err e
    → run_in_transaction (unit_of_work rolls_back meanwhile) work m ≡ (err e, meanwhile m)
thrown_in_memory meanwhile work m e h =
    let left = (work in_memory_context (meanwhile m)).1 in
    ap (λ r. run_in_transaction (unit_of_work rolls_back meanwhile) (λ ctx x. (r, left)) m) h

-- A save changes no record of an event.
save_events :
    (r : ProcessingRequest) (n : Memory)
    → (Store.save r n).1.event_id_to_request_id ≡ n.event_id_to_request_id
unfolding Store.save
save_events r n = ground arith

module _ {S : Type 0} (manager : EntityManager S) (view : S → Tables) (now : ℕ)
    (database : IsDatabase manager view) (between : S → S) (meanwhile : Memory → Memory)
    (uuid : String) (input : CreateInput) (fits_event : fits_text input.event_id ≡ true) where
  abbrev context : TransactionContext S
  context = (typeorm_unit_of_work manager now between).context

  abbrev pub written : ProcessingRequest → TransactionContext S → Action S CreateResult
  written =
      Create.write (typeorm_repository manager now) (typeorm_unit_of_work manager now between) uuid
        now input

  abbrev pub written_in_memory :
      ProcessingRequest → TransactionContext Memory → Action Memory CreateResult
  written_in_memory =
      Create.write in_memory_repository (unit_of_work rolls_back meanwhile) uuid now input

  entry-fits :
      (payload : Fields)
      → fits_payload payload ≡ true
      → (fits_text video_validation_requested.queue
          && fits_text video_validation_requested.pattern
          && fits_payload payload)
        ≡ true
  unfolding fits_text
  entry-fits payload h = h

  -- Where the saves agree, so do the transactions' callbacks.
  written-Agrees :
      (t : S) (n : Memory) (r : ProcessingRequest)
      → fits_row (to_row r) ≡ true
      → has input.event_id n.event_id_to_request_id ≡ false
      → Agrees view (TypeOrm.save manager now r t) (Store.save r n)
      → Agrees view (written r context t) (written_in_memory r in_memory_context n)
  unfolding Create.write Store.add
  written-Agrees t n r fits fresh saved =
      let payload = validation_payload input.event_id r in
      let route = video_validation_requested in
      let after = (TypeOrm.save manager now r t).1 in
      let kept = (Store.save r n).1 in
      let added =
        add-Agrees manager view now database after kept saved.1 route.queue route.pattern payload
          (entry-fits payload (validation-fits input.event_id r fits_event fits)) in
      let after_add = (TypeOrm.add manager now route.queue route.pattern payload after).1 in
      let kept_add = (Store.add route.queue route.pattern payload kept).1 in
      let marked =
        mark-Agrees manager view now database after_add kept_add added.1 input.event_id
          (some r.processing_request_id) fits_event (row-fits r fits).0
          (ap (has input.event_id) (save_events r n) ∙ fresh) in
      let answer : CreateResult = record { request = r; outcome = created } in
      let last = λ (v : Unit {0}).
        context.requests.mark_event_processed input.event_id (some r.processing_request_id) >>= λ w.
        return answer in
      let last' = λ (v : Unit {0}).
        in_memory_context.requests.mark_event_processed input.event_id
          (some r.processing_request_id)
        >>= λ w. return answer in
      let announce = context.outbox.add route.queue route.pattern payload in
      let announce' = in_memory_context.outbox.add route.queue route.pattern payload in
      then-Agrees view (context.requests.save r) (in_memory_context.requests.save r)
        (λ u. announce >>= last) (λ u. announce' >>= last') t n saved
        (λ u e. then-Agrees view announce announce' last last' after kept added (λ v g.
          then-Agrees view
            (context.requests.mark_event_processed input.event_id (some r.processing_request_id))
            (in_memory_context.requests.mark_event_processed input.event_id
              (some r.processing_request_id))
            (λ w. return answer) (λ w. return answer) after_add kept_add marked
            (λ w i. (refl, marked.1))))

  -- What the transaction does on both sides. Where the key and the source of the request are both
  -- taken, PostgreSQL may report the source, where the in-memory repository reports the key.
  abbrev pub TransactionAgrees : ProcessingRequest → S → Memory → Type 0
  TransactionAgrees r s m =
      Agrees view (run_in_transaction (typeorm_unit_of_work manager now between) (written r) s)
        (run_in_transaction (unit_of_work rolls_back meanwhile) (written_in_memory r) m)
      ⊎ ((run_in_transaction (typeorm_unit_of_work manager now between) (written r) s
            ≡ (err (duplicate_source r.owner_user_id r.source_storage_key), between s))
          × (run_in_transaction (unit_of_work rolls_back meanwhile) (written_in_memory r) m ≡ (
            err (duplicate_idempotency_key r.owner_user_id (text_or_empty r.idempotency_key)),
            meanwhile m,
          ))
          × (key_taken r (meanwhile m) ≡ true)
          × (source_taken r (meanwhile m) ≡ true))

  pub transacted-Agrees :
      (s : S) (m : Memory) (r : ProcessingRequest)
      → view (between s) ≡ tables_of (meanwhile m)
      → IsKeyed (meanwhile m).requests
      → fits_row (to_row r) ≡ true
      → has r.processing_request_id (meanwhile m).requests ≡ false
      → has input.event_id (meanwhile m).event_id_to_request_id ≡ false
      → TransactionAgrees r s m
  unfolding Create.write
  transacted-Agrees s m r met kept fits fresh_id fresh =
      elim (save-Agrees manager view now database (between s) (meanwhile m) met kept r fits
        fresh_id) [
          | inl agree ↦ inl (
              transaction-Agrees view manager now between meanwhile s m met (written r)
                (written_in_memory r) (written-Agrees (between s) (meanwhile m) r fits fresh agree))
          | inr (stored, kept_in_memory, same, same_memory, key, source) ↦ inr (
            thrown manager now between (written r) s _
                (ap (λ o. o.0) (stops (context.requests.save r) _ (between s) _ stored)),
            thrown_in_memory meanwhile (written_in_memory r) m _ (
                ap (λ o. o.0)
                  (stops (in_memory_context.requests.save r) _ (meanwhile m) _ kept_in_memory)),
            key,
            source,
          )
        ]

  -- A transaction in memory that throws leaves what it started from.
  pub rolled_back :
      (r : ProcessingRequest) (m : Memory) (e : Error)
      → (run_in_transaction (unit_of_work rolls_back meanwhile) (written_in_memory r) m).0 ≡ err e
      → (run_in_transaction (unit_of_work rolls_back meanwhile) (written_in_memory r) m).1
        ≡ meanwhile m
  rolled_back r m e h =
      go (written_in_memory r in_memory_context (meanwhile m)).0
        (written_in_memory r in_memory_context (meanwhile m)).1 h
    where
      go :
          (out : Result CreateResult) (n : Memory)
          → (run_in_transaction (unit_of_work rolls_back meanwhile) (λ ctx x. (out, n)) m).0 ≡ err e
          → (run_in_transaction (unit_of_work rolls_back meanwhile) (λ ctx x. (out, n)) m).1
            ≡ meanwhile m
      go (ok a) n h = ground arith
      go (err x) n h = refl
