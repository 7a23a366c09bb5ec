-- ===== src/Catalog/Run.antt =====
-- The states that the service reaches: creations and deliveries, one after another or racing. An
-- execution reads a state, others commit, and its transaction starts on what they left.
use processing_catalog.Prelude.{ℕ, String, ◌≡◌, refl, none}
use processing_catalog.Map.{get}
use processing_catalog.Memory.Store.{Memory, OnThrow, empty}
use processing_catalog.UseCase.Create.{CreateInput}
use processing_catalog.UseCase.Create.Outcomes.{create}
use processing_catalog.UseCase.Delivery.Spec.{Event, handle}
use processing_catalog.Catalog.Consistent.{IsConsistent}
use processing_catalog.Catalog.Counts.{count}
use processing_catalog.Catalog.Deliver.{IsSound, handle-IsSound}
use processing_catalog.Catalog.Create.{create-IsSound}
use processing_catalog.Catalog.Unique.{AreUnique}

-- From the first state to the second. In a step, `s` is the state that the execution reads and `t`
-- the one that its transaction finds.
pub data Run : Memory → Memory → Type 0 where
  here : {a : Memory} → Run a a
  delivered :
      {a s t : Memory} (policy : OnThrow) (e : Event)
      → Run a s
      → Run s t
      → Run a (handle policy (λ _. t) e s).1
  created :
      {a s t : Memory} (policy : OnThrow) (uuid : String) (now : ℕ) (input : CreateInput)
      → Run a s
      → Run s t
      → get uuid t.requests ≡ none
      → Run a (create policy (λ _. t) uuid now input s).1

pub Run-IsSound : {a s : Memory} → Run a s → IsSound a → IsSound s
Run-IsSound here c = c
Run-IsSound (delivered {s} {t} policy e r q) c =
    let d = Run-IsSound r c in handle-IsSound policy (λ _. t) e s d (Run-IsSound q d)
Run-IsSound (created {s} {t} policy uuid now input r q fresh) c =
    let d = Run-IsSound r c in
    create-IsSound policy (λ _. t) uuid now input s d (Run-IsSound q d) fresh

pub IsSound-empty : IsSound empty
unfolding get count
IsSound-empty = (λ id. (refl, refl, refl), λ i j r q gi gj clash. cc, tt)

-- In every state reached from the empty one, by creations and deliveries that may race, the outbox
-- holds for each stored request one request for its validation, one job if it has an attempt,
-- and one terminal event if it is COMPLETED or FAILED, and no such entry otherwise; a stored
-- request stands under its own id and is well-formed.
pub Run-IsConsistent : {s : Memory} → Run empty s → IsConsistent s
Run-IsConsistent r = (Run-IsSound r IsSound-empty).0

-- In every state reached from the empty one, by creations and deliveries that may race, two stored
-- requests of one owner have different sources and different idempotency keys: where they agree
-- in one of them, they stand under the same id.
pub Run-AreUnique : {s : Memory} → Run empty s → AreUnique s.requests
Run-AreUnique r = (Run-IsSound r IsSound-empty).1
