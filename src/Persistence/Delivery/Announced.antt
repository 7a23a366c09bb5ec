-- ===== src/Persistence/Delivery/Announced.antt =====
-- How the use cases of src/application end that change a request and announce it: the request is
-- stored, the announcement put in the outbox and the event recorded, in one transaction.
use processing_catalog.Map.{get, has}
use processing_catalog.Memory.Store as Store
use processing_catalog.Persistence.TypeOrm
use processing_catalog.Memory.Store.{Memory, in_memory_context}
use processing_catalog.Persistence.TypeOrm.{to_row, typeorm_unit_of_work}
use processing_catalog.Repository.{TransactionContext}
use processing_catalog.Prelude.{String, ℕ, ◌≡◌, some, true, ◌&&◌, arith, false, refl, ap, ◌∙◌}
use processing_catalog.Persistence.Manager.{EntityManager}
use processing_catalog.Persistence.Database.{Tables, IsDatabase, fits_payload}
use processing_catalog.Value.{Fields}
use processing_catalog.Domain.Request.{ProcessingRequest}
use processing_catalog.Action.{Action, ◌>>◌, return, ◌>>=◌}
use processing_catalog.Persistence.Columns.{fits_text, fits_row}
use processing_catalog.Persistence.View.{tables_of, IsKeyed, Agrees}
use processing_catalog.Map.{get}
use processing_catalog.Domain.Allowed.{SameIdentity}
use processing_catalog.Persistence.Writes.{update-Agrees, add-Agrees}
use processing_catalog.Persistence.Delivery.Flow.{marks-Agree}
use processing_catalog.Persistence.Delivery.Payload.{row-fits}
use processing_catalog.Persistence.Delivery.{then-Agrees}
use processing_catalog.UseCase.Routes.{Route, processing_queued, terminal_event}

-- What all of them do last.
unfoldable pub announced :
    {S : Type 0}
    → TransactionContext S
    → String
    → Route
    → Fields
    → ProcessingRequest
    → Action S ProcessingRequest
announced ctx event_id route payload updated = do
  ctx.requests.update updated
  ctx.outbox.add route.queue route.pattern payload
  ctx.requests.mark_event_processed event_id (some updated.processing_request_id)
  return updated

module _ {S : Type 0} (manager : EntityManager S) (view : S → Tables) (now : ℕ)
    (database : IsDatabase manager view) (between : S → S) (meanwhile : Memory → Memory)
    (event_id : String) (fits_event : fits_text event_id ≡ true) (route : Route)
    (fits_route : (fits_text route.queue ≡ true) × (fits_text route.pattern ≡ true)) where
  abbrev context : TransactionContext S
  context = (typeorm_unit_of_work manager now between).context

  entry-fits :
      (payload : Fields)
      → fits_payload payload ≡ true
      → (fits_text route.queue && fits_text route.pattern && fits_payload payload) ≡ true
  entry-fits payload h = ground (arith, h, fits_route)

  pub announced-Agrees :
      (t : S) (n : Memory) (r q : ProcessingRequest) (payload : Fields)
      → view t ≡ tables_of n
      → IsKeyed n.requests
      → get r.processing_request_id n.requests ≡ some r
      → SameIdentity r q
      → fits_row (to_row q) ≡ true
      → fits_payload payload ≡ true
      → has event_id n.event_id_to_request_id ≡ false
      → Agrees view
          (announced context event_id route payload q t)
          (announced in_memory_context event_id route payload q n)
  unfolding announced Store.update Store.add
  announced-Agrees t n r q payload related keyed there same fits fits_load fresh =
      let stored = ap (λ id. get id n.requests) same.processing_request_id ∙ there in
      let updated =
        update-Agrees manager view now database t n related keyed q r fits stored same.owner_user_id
          same.idempotency_key same.source_storage_key in
      let after = (TypeOrm.update manager now q t).1 in
      let kept = (Store.update q n).1 in
      let added =
        add-Agrees manager view now database after kept updated.1 route.queue route.pattern payload
          (entry-fits payload fits_load) in
      let marks =
        marks-Agree manager view now database between meanwhile event_id fits_event
          (TypeOrm.add manager now route.queue route.pattern payload after).1
          (Store.add route.queue route.pattern payload kept).1 q added.1 (row-fits q fits).0
          fresh in
      let mark = λ (v : Unit {0}).
        context.requests.mark_event_processed event_id (some q.processing_request_id) >>= λ marked.
        return q in
      let mark' = λ (v : Unit {0}).
        in_memory_context.requests.mark_event_processed event_id (some q.processing_request_id)
        >>= λ marked. return q in
      let announce = context.outbox.add route.queue route.pattern payload in
      let announce' = in_memory_context.outbox.add route.queue route.pattern payload in
      then-Agrees view (context.requests.update q) (in_memory_context.requests.update q)
        (λ u. announce >>= mark) (λ u. announce' >>= mark') t n updated
        (λ u e. then-Agrees view announce announce' mark mark' after kept added (λ v g. marks))

pub terminal-fits :
    (fits_text terminal_event.queue ≡ true) × (fits_text terminal_event.pattern ≡ true)
unfolding fits_text
terminal-fits = (refl, refl)

pub queued_route-fits :
    (fits_text processing_queued.queue ≡ true) × (fits_text processing_queued.pattern ≡ true)
unfolding fits_text
queued_route-fits = (refl, refl)
