-- ===== src/Examples/Lifecycle.antt =====
-- The lifecycle functions on one request.
use processing_catalog.Prelude.{ℕ, ◌≡◌, refl, ◌≤◌, ◌↔◌, none, some, List, [], ◌∷◌}
use processing_catalog.Value.{string}
use processing_catalog.Text.{is_missing}
use processing_catalog.Outcome.{ok}
use processing_catalog.Domain.Request
use processing_catalog.Domain.Request.{
  ProcessingRequest, received, completed, create_processing_request, Status, queued,
}
use processing_catalog.Domain.Transitions.{Returned, accept_processing_request, new_object}
use processing_catalog.Domain.Invariant.{IsWellFormed}
use processing_catalog.Domain.Machine.{
  Command, accept, start, complete, reject, perform, ◌⟶◌, perform-⟶,
}
use processing_catalog.Domain.History.{
  history, changes, steps_left, history-IsWellFormed, changes-le-steps_left,
}
use processing_catalog.Domain.Allowed.{
  IsAllowed, perform-ok_iff, SameIdentity, history-SameIdentity,
}
use processing_catalog.Examples.Data.{fresh, waiting}

abbrev input : Request.CreateInput
input = record {
  owner_user_id = "ann";
  owner_email = "ann@example.org";
  source_storage_key = "uploads/a.mp4";
  idempotency_key = some "k-1";
  correlation_id = none;
}

abbrev script : List (ℕ × Command)
script =
    (2000, accept "a-1")
    ∷ (2500, reject (string "FORMATO_INVALIDO"))
    ∷ (3000, complete "zips/a.zip")
    ∷ (4000, start)
    ∷ []

creates_fresh : create_processing_request "r-1" 1000 input ≡ ok fresh
unfolding create_processing_request is_missing
creates_fresh = refl

accepts_fresh : perform 2000 (accept "a-1") fresh ≡ ok (new_object waiting)
unfolding perform accept_processing_request
accepts_fresh = refl

history-IsWellFormed_example : IsWellFormed (history fresh script)
history-IsWellFormed_example = history-IsWellFormed "r-1" 1000 input fresh script creates_fresh

changes-le-steps_left_example : changes fresh script ≤ steps_left received
changes-le-steps_left_example = changes-le-steps_left fresh script

abbrev done : ProcessingRequest
done = record waiting { status = completed; zip_storage_key = some "zips/a.zip" }

history-SameIdentity_example : SameIdentity fresh (history fresh script)
history-SameIdentity_example = history-SameIdentity fresh script

perform-ok_iff_example :
    ((out : Returned) × (perform 3000 (complete "zips/a.zip") waiting ≡ ok out))
    ↔ IsAllowed (complete "zips/a.zip") waiting
perform-ok_iff_example = perform-ok_iff 3000 (complete "zips/a.zip") waiting

perform-⟶_example : received ⟶ queued
perform-⟶_example = perform-⟶ 2000 (accept "a-1") fresh waiting accepts_fresh
