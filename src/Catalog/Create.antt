-- ===== src/Catalog/Create.antt =====
-- A creation keeps the stored requests and the outbox consistent.
use processing_catalog.Prelude.{
  ℕ, String, ◌≡◌, ap, false, Option, none, some, List, ◌++◌, arith, ◌==◌, eq_iff, eq_refl,
  Bool-cases, inl, inr,
}
use mathlib.Core.Path.{subst, sym, ◌∙◌}
use processing_catalog.Map.{get, get-set}
use processing_catalog.Value.{get_field}
use processing_catalog.Outcome.{ok}
use processing_catalog.Domain.Request.{ProcessingRequest, create_processing_request}
use processing_catalog.Domain.Invariant.{create-IsWellFormed}
use processing_catalog.Memory.Store.{Memory, OnThrow, OutboxEntry}
use processing_catalog.UseCase.Create.{CreateInput}
use processing_catalog.UseCase.Create.Outcomes.{
  create, create_cases, domain_input, validation_entry, written,
}
use processing_catalog.Catalog.Counts.{count, counts-append}
use processing_catalog.Catalog.Unique.{written-AreUnique}
use processing_catalog.Map.Values.{set-IsDistinct}
use processing_catalog.Catalog.Deliver.{IsSound}
use processing_catalog.Catalog.Consistent.{Fits, IsConsistent}

new-Fits :
    (uuid : String) (now : ℕ) (input : CreateInput) (correlation_id : Option String)
    (r : ProcessingRequest) (entries : List OutboxEntry)
    → create_processing_request uuid now (domain_input input correlation_id) ≡ ok r
    → Fits uuid none entries
    → Fits uuid (some r) (entries ++ validation_entry input.event_id r)
unfolding count get_field create_processing_request
new-Fits uuid now input correlation_id r entries h f = ground (
  arith,
  create-IsWellFormed uuid now (domain_input input correlation_id) r h,
  eq_refl uuid,
  counts-append uuid entries (validation_entry input.event_id r),
)

other-Fits :
    (input : CreateInput) (r : ProcessingRequest) (found : Option ProcessingRequest) (id : String)
    (entries : List OutboxEntry)
    → (r.processing_request_id == id) ≡ false
    → Fits id found entries
    → Fits id found (entries ++ validation_entry input.event_id r)
unfolding count get_field
other-Fits input r none id entries ne f =
    ground (arith, counts-append id entries (validation_entry input.event_id r))
other-Fits input r (some x) id entries ne f =
    ground (arith, counts-append id entries (validation_entry input.event_id r))

created_id :
    (uuid : String) (now : ℕ) (input : CreateInput) (correlation_id : Option String)
    (r : ProcessingRequest)
    → create_processing_request uuid now (domain_input input correlation_id) ≡ ok r
    → r.processing_request_id ≡ uuid
unfolding create_processing_request
created_id uuid now input correlation_id r h = ground arith

written-IsConsistent :
    (uuid : String) (now : ℕ) (input : CreateInput) (correlation_id : Option String)
    (r : ProcessingRequest) (s : Memory)
    → create_processing_request uuid now (domain_input input correlation_id) ≡ ok r
    → get uuid s.requests ≡ none
    → IsConsistent s
    → IsConsistent (written input r s)
written-IsConsistent uuid now input correlation_id r s h fresh c id =
    let own : r.processing_request_id ≡ uuid = created_id uuid now input correlation_id r h in
    elim (Bool-cases (r.processing_request_id == id)) [
      | inl eq ↦
          rw (get-set, eq)
            (subst (λ k. Fits k (some r) (s.entries ++ validation_entry input.event_id r))
              (sym own ∙ (eq_iff _ _).0 eq)
              (new-Fits uuid now input correlation_id r s.entries h (rw fresh at (c uuid))))
      | inr ne ↦ rw (get-set, ne) (other-Fits input r (get id s.requests) id s.entries ne (c id))
    ]

-- If the state that it read and the one that its transaction found are sound, and the id that
-- randomUUID() answers is not taken, the state after a creation is sound, however it ends.
pub create-IsSound :
    (policy : OnThrow) (meanwhile : Memory → Memory) (uuid : String) (now : ℕ) (input : CreateInput)
    (s : Memory)
    → IsSound s
    → IsSound (meanwhile s)
    → get uuid (meanwhile s).requests ≡ none
    → IsSound (create policy meanwhile uuid now input s).1
create-IsSound policy meanwhile uuid now input s c d fresh =
    elim (create_cases policy meanwhile uuid now input s) [
      | inl (inl e) ↦ rw e c
      | inl (inr e) ↦ rw e d
      | inr w ↦ rw (ap (λ out. out.1) w.answer) (
        written-IsConsistent uuid now input w.correlation_id w.request (meanwhile s) w.valid fresh
            d.0,
        written-AreUnique input w.request (meanwhile s) w.is_new d.1,
        set-IsDistinct w.request.processing_request_id w.request (meanwhile s).requests d.2,
      )
    ]
