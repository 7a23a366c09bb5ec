-- ===== src/Examples/Deliveries.antt =====
-- A creation, a completion and a run over the tables and over the in-memory adapters.
use processing_catalog.UseCase.Delivery.Spec.{Event, handle}
use processing_catalog.Persistence.Delivery.Handle.{handle_stored, handle-Agrees}
use processing_catalog.Persistence.Creation.{create_stored, create-Agrees, BothTaken, InputFits}
use processing_catalog.Persistence.Storable.{IsStorable, fits_event}
use processing_catalog.Persistence.Runs.{
  Persisted, unchanged, has_created, has_delivered, Persisted-IsConsistent,
}
use processing_catalog.Memory.Store.{Memory, rolls_back, empty}
use processing_catalog.UseCase.Create.Outcomes.{create}
use processing_catalog.Catalog.Run.{Run}
use processing_catalog.Examples.Data.{stay, upload}
use processing_catalog.Domain.Request.{processing}
use processing_catalog.Persistence.Columns.{fits_row, fits_uuid, fits_text}
use processing_catalog.Prelude.{
  any, String, ◌==◌, ◌≡◌, arith, some, ◌⊎◌, false, ◌∷◌, true, refl, [],
}
use processing_catalog.Examples.Tables.{here, tables, there, small, shown, later, tables-IsDatabase}
use processing_catalog.Persistence.Database.{Tables}
use processing_catalog.Persistence.View.{IsKeyed, Agrees, tables_of}
use processing_catalog.Persistence.TypeOrm.{to_row}
use processing_catalog.Catalog.Consistent.{IsConsistent}
use processing_catalog.Catalog.Unique.{AreUnique}
use processing_catalog.Map.{get, has, values}

-- The processing has started, and now completes.
abbrev running : Memory
running = record small {
  requests = (here, record later { status = processing }) ∷ [];
  event_id_to_request_id = [];
}

running-IsStorable : IsStorable running
unfolding get has fits_row fits_uuid fits_text to_row
running-IsStorable = record {
  keyed = ((refl, tt), (refl, tt));
  stored = (refl, tt);
  recorded = λ event x found present. ground arith;
}

abbrev completion : Event
completion = Event.completed "u-1" 3000 (record {
  event_id = "e-9";
  processing_request_id = here;
  attempt_id = there;
  zip_storage_key = "zips/a.zip";
  occurred_at = "t";
})

completion-fits : fits_event completion ≡ true
unfolding fits_text fits_uuid
completion-fits = refl

handle-Agrees_example :
    Agrees shown
      (handle_stored tables shown completion (tables_of running))
      (handle rolls_back stay completion running)
handle-Agrees_example =
    handle-Agrees tables shown shown stay completion (tables_of running) running tables-IsDatabase
      refl (λ t e. e) running-IsStorable running-IsStorable completion-fits

upload-fits : InputFits here upload
unfolding fits_uuid fits_text
upload-fits = record {
  id = refl;
  event = refl;
  owner = refl;
  email = refl;
  source = refl;
  key = refl;
}

empty-IsKeyed : IsKeyed empty.requests
empty-IsKeyed = (tt, tt)

unseen :
    (x : String)
    → get upload.event_id empty.event_id_to_request_id ≡ some x
    → (x == "") ≡ false
    → fits_uuid x ≡ true
unfolding get
unseen x h present = ground arith

nothing :
    (has here empty.requests ≡ false) × (has upload.event_id empty.event_id_to_request_id ≡ false)
unfolding has
nothing = (refl, refl)

create-Agrees_example :
    Agrees shown
      (create_stored tables shown here 1000 upload (tables_of empty))
      (create rolls_back stay here 1000 upload empty)
    ⊎ (BothTaken upload empty
        × (shown (create_stored tables shown here 1000 upload (tables_of empty)).1
            ≡ tables_of (create rolls_back stay here 1000 upload empty).1))
create-Agrees_example =
    create-Agrees tables shown 1000 tables-IsDatabase shown stay here upload upload-fits
      (tables_of empty) empty refl (λ t e. e) empty-IsKeyed empty-IsKeyed nothing.0 nothing.1 unseen

abbrev acceptance : Event
acceptance =
    Event.accepted there "u-2" 2000
      (record { event_id = "e-2"; processing_request_id = here; occurred_at = "t" })

acceptance-fits : fits_event acceptance ≡ true
unfolding fits_text fits_uuid
acceptance-fits = refl

-- The tables after a creation, and after its acceptance.
abbrev opened : Tables
opened = (create_stored tables shown here 1000 upload (tables_of empty)).1

abbrev accepted : Tables
accepted = (handle_stored tables shown acceptance opened).1

no_rows :
    (any (λ r. r.processing_request_id == here) (tables_of empty).requests ≡ false)
    × (has upload.event_id (tables_of empty).events ≡ false)
unfolding has values
no_rows = (refl, refl)

life : Persisted tables shown (tables_of empty) accepted
life =
    has_delivered shown acceptance
      (has_created shown here 1000 upload unchanged unchanged (λ u same. same) upload-fits no_rows.0
        no_rows.1)
      unchanged (λ u same. same) acceptance-fits

Persisted-IsConsistent_example :
    (n : Memory) × (shown accepted ≡ tables_of n)
    × Run empty n
    × IsConsistent n
    × AreUnique n.requests
Persisted-IsConsistent_example = Persisted-IsConsistent tables shown tables-IsDatabase refl life
