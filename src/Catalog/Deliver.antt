-- ===== src/Catalog/Deliver.antt =====
-- A delivery keeps the stored requests and the outbox consistent.
use processing_catalog.Prelude.{◌≡◌, sym, ◌∙◌, some, ◌++◌, ◌==◌, eq_iff, Bool-cases, inl, inr}
use mathlib.Core.Path.{subst}
use processing_catalog.Map.{get, set, get-set}
use processing_catalog.Outcome.{ok}
use processing_catalog.Domain.Request.{ProcessingRequest}
use processing_catalog.Domain.Transitions.{new_object}
use processing_catalog.Memory.Store.{Memory, OnThrow}
use processing_catalog.UseCase.Delivery.Spec.{
  Event, announce, transition, request_id, store, handle,
}
use processing_catalog.Map.Values.{IsDistinct, set-IsDistinct}
use processing_catalog.Catalog.Keeps.{handle_keeps}
use processing_catalog.Catalog.Unique.{AreUnique, replace-AreUnique, transition-SameIdentity}
use processing_catalog.Catalog.Consistent.{
  Fits, IsConsistent, applied-Fits, other-Fits, transition-SameId,
}

store-IsConsistent :
    (e : Event) (before r : ProcessingRequest) (s : Memory)
    → get (request_id e) s.requests ≡ some before
    → transition e before ≡ ok (new_object r)
    → IsConsistent s
    → IsConsistent (store r (announce e r) s)
store-IsConsistent e before r s found h c id =
    let f : Fits (request_id e) (some before) s.entries = rw found at (c (request_id e)) in
    let own : Fits before.processing_request_id (some before) s.entries = rw (← f.0) at f in
    elim (Bool-cases (r.processing_request_id == id)) [
      | inl eq ↦
          let same : before.processing_request_id ≡ id =
            sym (transition-SameId e before r h) ∙ (eq_iff _ _).0 eq in
          rw (get-set, eq)
            (subst (λ k. Fits k (some r) (s.entries ++ announce e r)) same
              (applied-Fits e before r s.entries h own))
      | inr ne ↦ rw (get-set, ne) (other-Fits e (get id s.requests) r id s.entries ne (c id))
    ]

replace-AreUnique_of_IsConsistent :
    (e : Event) (before r : ProcessingRequest) (s : Memory)
    → get (request_id e) s.requests ≡ some before
    → transition e before ≡ ok (new_object r)
    → IsConsistent s
    → AreUnique s.requests
    → AreUnique (set r.processing_request_id r s.requests)
replace-AreUnique_of_IsConsistent e before r s found h c u =
    let own : Fits (request_id e) (some before) s.entries = rw found at (c (request_id e)) in
    let same = transition-SameIdentity e before r h in
    let id : request_id e ≡ r.processing_request_id = sym own.0 ∙ sym same.processing_request_id in
    replace-AreUnique r.processing_request_id before r s.requests
      (subst (λ k. get k s.requests ≡ some before) id found) same u

-- What every reachable state has.
abbrev pub IsSound : Memory → Type 0
IsSound s = IsConsistent s × AreUnique s.requests × IsDistinct s.requests

pub handle-IsSound :
    (policy : OnThrow) (meanwhile : Memory → Memory) (e : Event) (s : Memory)
    → IsSound s
    → IsSound (meanwhile s)
    → IsSound (handle policy meanwhile e s).1
handle-IsSound policy meanwhile e s =
    handle_keeps IsSound e (λ id r t found c. c)
      (λ before r t found h c. (
        store-IsConsistent e before r t found h c.0,
        replace-AreUnique_of_IsConsistent e before r t found h c.0 c.1,
        set-IsDistinct r.processing_request_id r t.requests c.2,
      ))
      policy meanwhile s
