-- ===== src/Persistence/Delivery/StartFound.antt =====
-- The transaction of src/application/start-processing-request.use-case.ts, once its request is found.
use processing_catalog.Persistence.Delivery.Flow.{marks-Agree, again-Agrees}
use processing_catalog.Prelude.{
  ℕ, ◌≡◌, refl, ap, true, false, not, some, if◌then◌else◌, ◌∙◌, Bool-cases, inl, inr,
}
use processing_catalog.Outcome.{ok}
use processing_catalog.Map.{get, has}
use processing_catalog.Persistence.Manager.{EntityManager}
use processing_catalog.Repository.{TransactionContext}
use processing_catalog.Domain.Transitions.{
  start_processing_request, Returned, is_unchanged, request_of, same_object, new_object,
  is_stale_attempt,
}
use processing_catalog.Persistence.Database.{Tables, IsDatabase}
use processing_catalog.Persistence.Columns.{fits_row, fits_text, fits_uuid}
use processing_catalog.Domain.Request.{ProcessingRequest}
use processing_catalog.Action.{Action, return, ◌>>=◌, lift}
use processing_catalog.Persistence.TypeOrm.{to_row, typeorm_unit_of_work, typeorm_repository}
use processing_catalog.Memory.Store.{
  Memory, in_memory_context, in_memory_repository, unit_of_work, rolls_back,
}
use processing_catalog.Persistence.View.{tables_of, Agrees, IsKeyed}
use processing_catalog.Persistence.Delivery.{then-Agrees}
use processing_catalog.UseCase.Start.{StartInput}
use processing_catalog.Persistence.Writes.{update-Agrees}
use processing_catalog.Memory.Store as Store
use processing_catalog.UseCase.Start
use processing_catalog.Persistence.Delivery.Texts.{start-SameIdentity, start-fits}
use processing_catalog.Persistence.TypeOrm

-- What the use case does after it has moved the request.
write : {S : Type 0} → ℕ → StartInput → TransactionContext S → Returned → Action S ProcessingRequest
write now input ctx out =
    (if not (is_unchanged out) then ctx.requests.update (request_of out) else return tt)
    >>= λ updated.
        (ctx.requests.mark_event_processed input.event_id
            (some (request_of out).processing_request_id)
          >>= λ marked. return (request_of out))

module _ {S : Type 0} (manager : EntityManager S) (view : S → Tables) (now : ℕ)
    (database : IsDatabase manager view) (between : S → S) (meanwhile : Memory → Memory)
    (input : StartInput) (fits_event : fits_text input.event_id ≡ true) where
  abbrev context : TransactionContext S
  context = (typeorm_unit_of_work manager now between).context

  -- A start that is allowed: the request is moved, and the event recorded.
  writes-Agree :
      (t : S) (n : Memory) (r : ProcessingRequest) (out : Returned)
      → view t ≡ tables_of n
      → IsKeyed n.requests
      → get r.processing_request_id n.requests ≡ some r
      → fits_uuid r.processing_request_id ≡ true
      → fits_row (to_row r) ≡ true
      → has input.event_id n.event_id_to_request_id ≡ false
      → start_processing_request now r ≡ ok out
      → Agrees view (write now input context out t) (write now input in_memory_context out n)
  unfolding write is_unchanged Store.update
  writes-Agree t n r (same_object q) related keyed there fits_id fits fresh e =
      let same = start-SameIdentity now r (same_object q) e in
      marks-Agree manager view now database between meanwhile input.event_id fits_event t n q
        related (ap fits_uuid same.processing_request_id ∙ fits_id) fresh
  writes-Agree t n r (new_object q) related keyed there fits_id fits fresh e =
      let same = start-SameIdentity now r (new_object q) e in
      let stored = ap (λ id. get id n.requests) same.processing_request_id ∙ there in
      let both =
        update-Agrees manager view now database t n related keyed q r
          (start-fits now r (new_object q) e ∙ fits) stored same.owner_user_id same.idempotency_key
          same.source_storage_key in
      then-Agrees view (context.requests.update q) (in_memory_context.requests.update q)
        (λ updated.
          (context.requests.mark_event_processed input.event_id (some q.processing_request_id)
            >>= λ marked. return q))
        (λ updated.
          (in_memory_context.requests.mark_event_processed input.event_id
              (some q.processing_request_id)
            >>= λ marked. return q))
        t n both
        (λ u done.
          marks-Agree manager view now database between meanwhile input.event_id fits_event
            (TypeOrm.update manager now q t).1 (Store.update q n).1 q both.1
            (ap fits_uuid same.processing_request_id ∙ fits_id) fresh)

  -- The request is there, and its row locked.
  pub found-Agrees :
      (t : S) (n : Memory) (r : ProcessingRequest)
      → view t ≡ tables_of n
      → IsKeyed n.requests
      → get r.processing_request_id n.requests ≡ some r
      → fits_uuid r.processing_request_id ≡ true
      → fits_row (to_row r) ≡ true
      → Agrees view
          (Start.on_found
            (typeorm_repository manager now)
            (typeorm_unit_of_work manager now between)
            now
            input
            context
            (some r)
            t)
          (Start.on_found in_memory_repository
            (unit_of_work rolls_back meanwhile)
            now
            input
            in_memory_context
            (some r)
            n)
  unfolding Start.on_found Start.apply_to Start.ignore_stale write
  found-Agrees t n r related keyed there fits_id fits =
      again-Agrees manager view now database between meanwhile input.event_id fits_event t n r _ _
        related keyed
        (λ u same fresh. elim (Bool-cases (is_stale_attempt r (some input.attempt_id))) [
          | inl stale ↦ rw stale (
              marks-Agree manager view now database between meanwhile input.event_id fits_event u n
                r same fits_id fresh)
          | inr current ↦ rw current (
              then-Agrees view (lift (start_processing_request now r))
                (lift (start_processing_request now r)) (write now input context)
                (write now input in_memory_context) u n (refl, same)
                (λ out e. writes-Agree u n r out same keyed there fits_id fits fresh e))
        ])
