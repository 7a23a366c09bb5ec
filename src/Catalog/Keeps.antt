-- ===== src/Catalog/Keeps.antt =====
-- A predicate that each write of a delivery keeps is kept by the delivery.
use processing_catalog.Prelude.{
  String, ◌≡◌, refl, ap, Option, none, some, Bool-cases, inl, inr, eq_refl, arith, ◌∙◌,
}
use processing_catalog.Map.{get, has, get-set}
use processing_catalog.Outcome.{Result, ok, err}
use processing_catalog.Domain.Request.{ProcessingRequest}
use processing_catalog.Domain.Transitions.{
  Returned, same_object, new_object, accept_processing_request, start_processing_request,
  complete_processing_request, fail_processing_request, reject_processing_request,
}
use processing_catalog.Memory.Store.{Memory, OnThrow}
use processing_catalog.UseCase.Delivery.Spec.{
  Event, announce, transition, event_id, request_id, mark, store, settle_transition, settle_locked,
  settle_checked, after_check, seen_before, check, is_leftover, handle, deliver,
}
use processing_catalog.UseCase.Delivery.Refines.{handle-deliver}

-- A lifecycle function that returns its own argument has changed nothing.
same-transition :
    (e : Event) (before r : ProcessingRequest)
    → transition e before ≡ ok (same_object r)
    → before ≡ r
unfolding accept_processing_request start_processing_request complete_processing_request
    fail_processing_request reject_processing_request
same-transition (Event.accepted a b now input) before r h = ground arith
same-transition (Event.started now input) before r h = ground arith
same-transition (Event.completed b now input) before r h = ground arith
same-transition (Event.failed b now input) before r h = ground arith

module _ (P : Memory → Type 0) (e : Event)
    (marked : (id : String) (r : ProcessingRequest) (s : Memory)
      → get id s.requests ≡ some r
      → P s
      → P (mark (event_id e) r s))
    (stored : (before r : ProcessingRequest) (s : Memory)
      → get (request_id e) s.requests ≡ some before
      → transition e before ≡ ok (new_object r)
      → P s
      → P (store r (announce e r) s)) where
  settle_transition_keeps :
      (before : ProcessingRequest) (out : Result Returned) (s : Memory)
      → get (request_id e) s.requests ≡ some before
      → transition e before ≡ out
      → P s
      → P (settle_transition e out s).1
  settle_transition_keeps before (ok (same_object r)) s found h c =
      marked (request_id e) r s (found ∙ ap some (same-transition e before r h)) c
  settle_transition_keeps before (ok (new_object r)) s found h c =
      marked r.processing_request_id r (store r (announce e r) s)
        (rw (get-set, eq_refl r.processing_request_id) refl) (stored before r s found h c)
  settle_transition_keeps before (err x) s found h c = c

  settle_locked_keeps :
      (found : Option ProcessingRequest) (s : Memory)
      → get (request_id e) s.requests ≡ found
      → P s
      → P (settle_locked e found s).1
  settle_locked_keeps none s h c = c
  settle_locked_keeps (some before) s h c =
      elim (Bool-cases (has (event_id e) s.event_id_to_request_id)) [
        | inl seen ↦ rw seen c
        | inr fresh ↦ elim (Bool-cases (is_leftover e before)) [
          | inl old ↦ rw (fresh, old) (marked (request_id e) before s h c)
          | inr current ↦
              rw (fresh, current) (settle_transition_keeps before (transition e before) s h refl c)
        ]
      ]

  settle_checked_keeps :
      (meanwhile : Memory → Memory) (seen : Option ProcessingRequest) (s : Memory)
      → P s
      → P (settle_locked e (get (request_id e) (meanwhile s).requests) (meanwhile s)).1
      → P (settle_checked meanwhile e seen s).1
  settle_checked_keeps meanwhile none s c locked = locked
  settle_checked_keeps meanwhile (some r) s c locked = c

  after_check_keeps :
      (meanwhile : Memory → Memory) (checked : Result (Unit {0})) (s : Memory)
      → P s
      → P (settle_locked e (get (request_id e) (meanwhile s).requests) (meanwhile s)).1
      → P (after_check meanwhile e checked s).1
  after_check_keeps meanwhile (ok _) s c locked =
      settle_checked_keeps meanwhile (seen_before e s) s c locked
  after_check_keeps meanwhile (err x) s c locked = c

  -- Where the delivery ends: on the state that it read, or past the lock on the one it found.
  deliver_keeps :
      (meanwhile : Memory → Memory) (s : Memory)
      → P s
      → P (meanwhile s)
      → P (deliver meanwhile e s).1
  unfolding deliver
  deliver_keeps meanwhile s c d =
      after_check_keeps meanwhile (check e) s c
        (settle_locked_keeps (get (request_id e) (meanwhile s).requests) (meanwhile s) refl d)

  pub handle_keeps :
      (policy : OnThrow) (meanwhile : Memory → Memory) (s : Memory)
      → P s
      → P (meanwhile s)
      → P (handle policy meanwhile e s).1
  handle_keeps policy meanwhile s c d = rw handle-deliver (deliver_keeps meanwhile s c d)
