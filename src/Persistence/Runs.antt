-- ===== src/Persistence/Runs.antt =====
-- The states of the database that the service reaches: creations and deliveries over the TypeORM
-- adapters, one after another or racing, are the runs over the in-memory ones.
use processing_catalog.UseCase.Delivery.Spec.{Event, handle}
use processing_catalog.Catalog.Run.{Run, here, delivered, created, Run-IsConsistent, Run-AreUnique}
use processing_catalog.UseCase.Create.{CreateInput}
use processing_catalog.UseCase.Create.Outcomes.{create, create_cases, validation_entry}
use processing_catalog.Map.{get, has, values}
use processing_catalog.Prelude.{
  String, ℕ, ◌≡◌, arith, true, any, false, ◌∙◌, sym, ◌==◌, ap, inl, inr, refl,
}
use processing_catalog.Persistence.TypeOrm.{to_row}
use processing_catalog.Persistence.Manager.{EntityManager, ProcessingRequestEntity}
use processing_catalog.Persistence.Database.{Tables, IsDatabase}
use processing_catalog.Persistence.Storable.{
  IsStorable, fits_event, handle-IsStorable, mark-IsStorable, store-IsStorable,
}
use processing_catalog.Persistence.Creation.Texts.{InputFits, created-fits}
use processing_catalog.Persistence.View.{tables_of, IsKeyed, has-event_row, get_absent}
use processing_catalog.Persistence.Delivery.Handle.{handle-Agrees, handle_stored}
use processing_catalog.Catalog.Consistent.{IsConsistent}
use processing_catalog.Catalog.Unique.{AreUnique}
use processing_catalog.Persistence.Save.{any-values}
use processing_catalog.Persistence.Creation.{create_stored, create-Agrees}
use processing_catalog.Persistence.Lists.{any-map}
use processing_catalog.Domain.Request.{ProcessingRequest}
use processing_catalog.Persistence.Delivery.Payload.{row-fits}
use processing_catalog.Memory.Store.{Memory, empty, rolls_back, OnThrow}

-- The state after a creation can be stored, however it ends.
create-IsStorable :
    (policy : OnThrow) (meanwhile : Memory → Memory) (uuid : String) (now : ℕ) (input : CreateInput)
    (s : Memory)
    → InputFits uuid input
    → IsStorable s
    → IsStorable (meanwhile s)
    → IsStorable (create policy meanwhile uuid now input s).1
create-IsStorable policy meanwhile uuid now input s fits c d =
    elim (create_cases policy meanwhile uuid now input s) [
      | inl (inl e) ↦ rw e c
      | inl (inr e) ↦ rw e d
      | inr w ↦
          let row = created-fits uuid now input w.correlation_id w.request fits w.checked w.valid in
          rw (ap (λ out. out.1) w.answer) (
            mark-IsStorable input.event_id w.request _ (row-fits w.request row).0 (
              store-IsStorable w.request (validation_entry input.event_id w.request) (meanwhile s)
                row d))
    ]

-- From the first state of the database to the second. In a step, `s` is the state that the execution
-- reads; others commit, and its transaction finds the tables of `t`. The id and the event's id of a
-- creation, answers of randomUUID(), are in no row that the transaction finds.
pub data Persisted {S : Type 0} (manager : EntityManager S) (view : S → Tables)
    : S → S → Type 0 where
  unchanged : {a : S} → Persisted manager view a a
  has_delivered :
      {a s t : S} (between : S → S) (e : Event)
      → Persisted manager view a s
      → Persisted manager view s t
      → ((u : S) → view u ≡ view s → view (between u) ≡ view t)
      → fits_event e ≡ true
      → Persisted manager view a (handle_stored manager between e s).1
  has_created :
      {a s t : S} (between : S → S) (uuid : String) (now : ℕ) (input : CreateInput)
      → Persisted manager view a s
      → Persisted manager view s t
      → ((u : S) → view u ≡ view s → view (between u) ≡ view t)
      → InputFits uuid input
      → any (λ r. r.processing_request_id == uuid) (view t).requests ≡ false
      → has input.event_id (view t).events ≡ false
      → Persisted manager view a (create_stored manager between uuid now input s).1

-- What is in no row of the tables is not in the memory.
fresh_request :
    (uuid : String) (n : Memory) (t : Tables)
    → t ≡ tables_of n
    → IsKeyed n.requests
    → any (λ r. r.processing_request_id == uuid) t.requests ≡ false
    → has uuid n.requests ≡ false
unfolding to_row
fresh_request uuid n t same keyed fresh =
    sym (any-values uuid n.requests keyed.0)
    ∙ sym (
        any-map to_row (λ (e : ProcessingRequestEntity). e.processing_request_id == uuid)
          (λ (q : ProcessingRequest). q.processing_request_id == uuid)
          (λ (q : ProcessingRequest). refl) (values n.requests))
    ∙ ap (λ (x : Tables). any (λ r. r.processing_request_id == uuid) x.requests) (sym same)
    ∙ fresh

fresh_event :
    (id : String) (n : Memory) (t : Tables)
    → t ≡ tables_of n
    → has id t.events ≡ false
    → has id n.event_id_to_request_id ≡ false
fresh_event id n t same fresh =
    sym (has-event_row id n.event_id_to_request_id)
    ∙ ap (λ (x : Tables). has id x.events) (sym same)
    ∙ fresh

IsStorable-empty : IsStorable empty
unfolding get
IsStorable-empty = record {
  keyed = (tt, tt);
  stored = tt;
  recorded = λ event x h present. ground arith;
}

module _ {S : Type 0} (manager : EntityManager S) (view : S → Tables)
    (database : IsDatabase manager view) where
  -- The tables stand for a memory that a run over the in-memory adapters reaches.
  abbrev pub IsReached : Memory → S → Type 0
  IsReached m s = (n : Memory) × Run m n × (view s ≡ tables_of n) × IsStorable n

  pub Persisted-IsReached :
      {a s : S} (m : Memory)
      → view a ≡ tables_of m
      → IsStorable m
      → Persisted manager view a s
      → IsReached m s
  Persisted-IsReached m related c unchanged = (m, here, related, c)
  Persisted-IsReached m related c (has_delivered {s} {t} between e p q met fits) =
      let (n, run, read, d) = Persisted-IsReached m related c p in
      let (k, race, found, f) = Persisted-IsReached n read d q in
      let both =
        handle-Agrees manager view between (λ _. k) e s n database read
          (λ u same. met u (same ∙ sym read) ∙ found) d f fits in
      (
        (handle rolls_back (λ _. k) e n).1,
        delivered rolls_back e run race,
        both.1,
        handle-IsStorable rolls_back (λ _. k) e n fits d f,
      )
  Persisted-IsReached m related c
        (has_created {s} {t} between uuid now input p q met fits fresh_id fresh) =
      let (n, run, read, d) = Persisted-IsReached m related c p in
      let (k, race, found, f) = Persisted-IsReached n read d q in
      let new_id = fresh_request uuid k (view t) found f.keyed fresh_id in
      let new_event = fresh_event input.event_id k (view t) found fresh in
      let out =
        create-Agrees manager view now database between (λ _. k) uuid input fits s n read
          (λ u same. met u (same ∙ sym read) ∙ found) d.keyed f.keyed new_id new_event
          (d.recorded input.event_id) in
      (
        (create rolls_back (λ _. k) uuid now input n).1,
        created rolls_back uuid now input run race (get_absent uuid k.requests new_id),
        elim out [ inl both ↦ both.1 | inr both ↦ both.1 ],
        create-IsStorable rolls_back (λ _. k) uuid now input n fits d f,
      )

  -- Every state of the database that creations and deliveries reach from empty tables, racing or not,
  -- holds the tables of a memory that a run over the in-memory adapters reaches, in which the outbox
  -- and the requests are consistent, and no two requests of one owner share a source or a key. The
  -- entity manager is one of a database, the columns can hold the texts of the creations and of the
  -- events, and the ids that randomUUID() answers for a creation are in no row yet.
  pub Persisted-IsConsistent :
      {a s : S}
      → view a ≡ tables_of empty
      → Persisted manager view a s
      → (n : Memory) × (view s ≡ tables_of n) × Run empty n × IsConsistent n × AreUnique n.requests
  Persisted-IsConsistent related p =
      let (n, run, same, c) = Persisted-IsReached empty related IsStorable-empty p in
      (n, same, run, Run-IsConsistent run, Run-AreUnique run)
