-- ===== src/Persistence/Delivery/Flow.antt =====
-- What every use case of a delivery does before its own work: it looks for the event, opens a
-- transaction and locks the request.
use processing_catalog.Persistence.Writes.{mark-Agrees}
use processing_catalog.Prelude.{
  ℕ, String, ◌≡◌, ap, true, false, some, All, if◌then◌else◌, refl, ◌∙◌, Option, none, Bool, ◌==◌,
  Bool-cases, inl, inr,
}
use processing_catalog.Map.{get, has}
use processing_catalog.Persistence.Manager.{EntityManager}
use processing_catalog.Repository.{TransactionContext, Repository, run_in_transaction}
use processing_catalog.Persistence.Database.{Tables, IsDatabase}
use processing_catalog.Persistence.Columns.{fits_row, fits_text, fits_uuid}
use processing_catalog.Domain.Request.{ProcessingRequest}
use processing_catalog.Action.{Action, return, ◌>>=◌}
use processing_catalog.Persistence.TypeOrm.{to_row, typeorm_unit_of_work, typeorm_repository}
use processing_catalog.Memory.Store.{
  Memory, in_memory_context, in_memory_repository, unit_of_work, rolls_back,
}
use processing_catalog.Persistence.View.{tables_of, Agrees, IsKeyed}
use processing_catalog.Persistence.Delivery.{then-Agrees, transaction-Agrees}
use processing_catalog.Persistence.Refines.{find_for_update-Agrees, has_event-Agrees}
use processing_catalog.Persistence.Events.{find_by_event-Agrees}
use processing_catalog.Memory.Store as Store
use processing_catalog.Persistence.TypeOrm
use processing_catalog.UseCase.Routes.{require}
use processing_catalog.Persistence.Delivery.Stored.{keyed_id, All-get, ok-injective}

-- The search for the event, and what follows it.
unfoldable pub looked :
    {S : Type 0}
    → Repository S
    → String
    → (Option ProcessingRequest → Action S ProcessingRequest)
    → Action S ProcessingRequest
looked repository event_id begin = repository.has_event_been_processed event_id >>= λ seen.
    ((if seen then repository.find_by_event_id event_id else return none) >>= begin)

module _ {S : Type 0} (manager : EntityManager S) (view : S → Tables) (now : ℕ)
    (database : IsDatabase manager view) (between : S → S) (meanwhile : Memory → Memory) where
  abbrev context : TransactionContext S
  context = (typeorm_unit_of_work manager now between).context

  -- The event is recorded with its request, and the request answered.
  pub marks-Agree :
      (event_id : String)
      → fits_text event_id ≡ true
      → (t : S) (n : Memory) (r : ProcessingRequest) → view t ≡ tables_of n
      → fits_uuid r.processing_request_id ≡ true
      → has event_id n.event_id_to_request_id ≡ false
      → Agrees view
          ((context.requests.mark_event_processed event_id (some r.processing_request_id)
              >>= λ marked. return r)
            t)
          ((in_memory_context.requests.mark_event_processed event_id (some r.processing_request_id)
              >>= λ marked. return r)
            n)
  marks-Agree event_id fits_event t n r related fits fresh =
      let both =
        mark-Agrees manager view now database t n related event_id (some r.processing_request_id)
          fits_event fits fresh in
      then-Agrees view
        (context.requests.mark_event_processed event_id (some r.processing_request_id))
        (in_memory_context.requests.mark_event_processed event_id (some r.processing_request_id))
        (λ marked. return r) (λ marked. return r) t n both (λ u e. (refl, both.1))

  -- The event is looked for again under the lock of its request.
  pub again-Agrees :
      (event_id : String)
      → fits_text event_id ≡ true
      → (t : S) (n : Memory) (r : ProcessingRequest) (rest : Action S ProcessingRequest)
        (rest' : Action Memory ProcessingRequest)
      → view t ≡ tables_of n
      → IsKeyed n.requests
      → ((u : S)
          → view u ≡ tables_of n
          → has event_id n.event_id_to_request_id ≡ false
          → Agrees view (rest u) (rest' n))
      → Agrees view
          ((context.requests.has_event_been_processed event_id >>= λ again.
              if again then return r else rest)
            t)
          ((in_memory_context.requests.has_event_been_processed event_id >>= λ again.
              if again then return r else rest')
            n)
  unfolding Store.has_event_been_processed
  again-Agrees event_id fits_event t n r rest rest' related keyed h =
      let both = has_event-Agrees manager view now database t n related keyed event_id fits_event in
      let after = (TypeOrm.has_event_been_processed manager now event_id t).1 in
      rw (both.0) (elim (Bool-cases (has event_id n.event_id_to_request_id)) [
        | inl seen ↦ rw seen (refl, both.1)
        | inr fresh ↦ rw fresh (h after both.1 fresh)
      ])

  module _ (m : Memory) (event_id : String) (fits_event : fits_text event_id ≡ true)
      (keyed : IsKeyed m.requests)
      (recorded : (x : String)
        → get event_id m.event_id_to_request_id ≡ some x
        → (x == "") ≡ false
        → fits_uuid x ≡ true)
      (begin : Option ProcessingRequest → Action S ProcessingRequest)
      (begin' : Option ProcessingRequest → Action Memory ProcessingRequest)
      (begun : (x : Option ProcessingRequest) (t : S)
        → view t ≡ tables_of m
        → Agrees view (begin x t) (begin' x m)) where
    searched-Agrees :
        (seen : Bool) (t : S)
        → view t ≡ tables_of m
        → Agrees view
            (((if seen then TypeOrm.find_by_event_id manager now event_id else return none)
                >>= begin)
              t)
            (((if seen then Store.find_by_event_id event_id else return none) >>= begin') m)
    unfolding Store.find_by_event_id
    searched-Agrees false t same = begun none t same
    searched-Agrees true t same =
        let both =
          find_by_event-Agrees manager view now database t m same keyed event_id fits_event
            recorded in
        then-Agrees view (TypeOrm.find_by_event_id manager now event_id)
          (Store.find_by_event_id event_id) begin begin' t m both
          (λ x e. begun x (TypeOrm.find_by_event_id manager now event_id t).1 both.1)

    pub looked-Agrees :
        (s : S)
        → view s ≡ tables_of m
        → Agrees view
            (looked (typeorm_repository manager now) event_id begin s)
            (looked in_memory_repository event_id begin' m)
    unfolding looked Store.has_event_been_processed
    looked-Agrees s related =
        let both =
          has_event-Agrees manager view now database s m related keyed event_id fits_event in
        then-Agrees view (TypeOrm.has_event_been_processed manager now event_id)
          (Store.has_event_been_processed event_id)
          (λ seen.
            ((if seen then TypeOrm.find_by_event_id manager now event_id else return none)
              >>= begin))
          (λ seen. ((if seen then Store.find_by_event_id event_id else return none) >>= begin')) s m
          both
          (λ seen e.
            searched-Agrees seen (TypeOrm.has_event_been_processed manager now event_id s).1 both.1)

  module _ (m : Memory) (id : String) (fits_id : fits_uuid id ≡ true)
      (kept : IsKeyed (meanwhile m).requests)
      (stored : All (λ e. fits_row (to_row e.1) ≡ true) (meanwhile m).requests)
      (met : (t : S) → view t ≡ tables_of m → view (between t) ≡ tables_of (meanwhile m))
      (work : TransactionContext S → Option ProcessingRequest → Action S ProcessingRequest)
      (work' : TransactionContext Memory
        → Option ProcessingRequest
        → Action Memory ProcessingRequest)
      (absent : (t : S)
        → view t ≡ tables_of (meanwhile m)
        → Agrees view (work context none t) (work' in_memory_context none (meanwhile m)))
      (present : (t : S) (r : ProcessingRequest)
        → view t ≡ tables_of (meanwhile m)
        → get r.processing_request_id (meanwhile m).requests ≡ some r
        → fits_uuid r.processing_request_id ≡ true
        → fits_row (to_row r) ≡ true
        → Agrees view
            (work context (some r) t)
            (work' in_memory_context (some r) (meanwhile m))) where
    opened-Agrees :
        (x : Option ProcessingRequest)
        → get id (meanwhile m).requests ≡ x
        → (t : S) → view t ≡ tables_of (meanwhile m)
        → Agrees view (work context x t) (work' in_memory_context x (meanwhile m))
    opened-Agrees none e t same = absent t same
    opened-Agrees (some r) e t same =
        let own = keyed_id id (meanwhile m).requests r kept.0 e in
        present t r same (ap (λ i. get i (meanwhile m).requests) own ∙ e)
          (ap fits_uuid own ∙ fits_id)
          (All-get (λ q. fits_row (to_row q) ≡ true) id (meanwhile m).requests r stored e)

    pub locked-Agrees :
        (t : S)
        → view t ≡ tables_of m
        → Agrees view
            (run_in_transaction
              (typeorm_unit_of_work manager now between)
              (λ ctx. ctx.requests.find_for_update id >>= work ctx)
              t)
            (run_in_transaction
              (unit_of_work rolls_back meanwhile)
              (λ ctx. ctx.requests.find_for_update id >>= work' ctx)
              m)
    unfolding Store.find_for_update Store.find_by_processing_request_id
    locked-Agrees t same =
        let both =
          find_for_update-Agrees manager view now database (between t) (meanwhile m) (met t same)
            kept id fits_id in
        transaction-Agrees view manager now between meanwhile t m (met t same)
          (λ ctx. ctx.requests.find_for_update id >>= work ctx)
          (λ ctx. ctx.requests.find_for_update id >>= work' ctx)
          (then-Agrees view (context.requests.find_for_update id)
            (in_memory_context.requests.find_for_update id) (work context) (work' in_memory_context)
            (between t) (meanwhile m) both
            (λ x e.
              opened-Agrees x (ok-injective (get id (meanwhile m).requests) x e)
                (TypeOrm.find_for_update manager now id (between t)).1 both.1))

-- Behind the guards that the use cases share.
pub guarded-Agrees :
    {S : Type 0} (view : S → Tables) (event_id id : String) (rest : Action S ProcessingRequest)
    (rest' : Action Memory ProcessingRequest) (s : S) (m : Memory)
    → view s ≡ tables_of m
    → Agrees view (rest s) (rest' m)
    → Agrees view
        ((require event_id "eventId is required" >>= λ u.
            require id "processingRequestId is required" >>= λ v. rest)
          s)
        ((require event_id "eventId is required" >>= λ u.
            require id "processingRequestId is required" >>= λ v. rest')
          m)
guarded-Agrees view event_id id rest rest' s m related h =
    then-Agrees view (require event_id "eventId is required")
      (require event_id "eventId is required")
      (λ u. require id "processingRequestId is required" >>= λ v. rest)
      (λ u. require id "processingRequestId is required" >>= λ v. rest') s m (refl, related)
      (λ u e.
        then-Agrees view (require id "processingRequestId is required")
          (require id "processingRequestId is required") (λ v. rest) (λ v. rest') s m
          (refl, related) (λ v g. h))
