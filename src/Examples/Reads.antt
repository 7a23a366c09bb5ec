-- ===== src/Examples/Reads.antt =====
-- Owner-scoped reads and the controllers, on small stores.
use processing_catalog.Prelude.{
  ℕ, String, ◌≡◌, refl, ◌≢◌, ◌↔◌, ◌≤◌, some, none, false, inr, [], ◌∷◌, Bool, map, length, arith,
  ◌*◌, eq_iff, Option, if◌then◌else◌, ◌==◌,
}
use processing_catalog.Value.{Value, Fields, string, field, end}
use processing_catalog.Outcome.{ok}
use processing_catalog.Text.{is_missing, text_length, trim}
use processing_catalog.Map.{get, values}
use processing_catalog.Domain.Request.{ProcessingRequest, completed, Status}
use processing_catalog.Domain.Request
use processing_catalog.Domain.Invariant.{IsWellFormed}
use processing_catalog.Memory.Store.{
  Memory, in_memory_repository, owned_by, sort, find_page_by_owner, count_by_owner,
}
use processing_catalog.Query.Reads.{to_owned_item, get_owned_archive, ready, list_owned, OwnedPage}
use processing_catalog.Query.Owner.{IsOwned, archive-ready_iff}
use processing_catalog.Query.Order.{IsSorted}
use processing_catalog.Query.Sorting.{occurrences, sort-IsSorted}
use processing_catalog.Query.Pages.{read_pages, pages_complete}
use processing_catalog.Interface.Http.{refused, answered}
use processing_catalog.Interface.Owned.{
  parse_bounded, list, find_one, find_archive, missed, require_owner, page_input,
}
use processing_catalog.Interface.Checks.{list-bounded}
use processing_catalog.Interface.Misses.{misses_alike}
use processing_catalog.UseCase.Delivery.Spec.{Event}
use processing_catalog.Consumer.Contract.{envelope}
use processing_catalog.Examples.Data.{fresh}

-- A completed request of ann, a newer one that failed, and one of bob.
abbrev done : ProcessingRequest
done = record fresh { status = completed; attempt_id = some "a-1"; zip_storage_key = some "z" }

abbrev broken : ProcessingRequest
broken = record fresh {
  processing_request_id = "r-2";
  source_storage_key = "uploads/b.mp4";
  status = Status.failed;
  failure_code = some Request.formato_invalido;
  idempotency_key = some "k-2";
  created_at = 2000;
}

abbrev bobs : ProcessingRequest
bobs = record fresh { processing_request_id = "r-3"; owner_user_id = "bob" }

abbrev shelf : Memory
shelf = record {
  requests = ("r-1", done) ∷ ("r-2", broken) ∷ ("r-3", bobs) ∷ [];
  event_id_to_request_id = [];
  entries = [];
}

archive-ready_iff_example :
    ((get_owned_archive in_memory_repository "ann" "r-1" shelf).0 ≡ ok (ready "z")) ↔ (
      (r : ProcessingRequest) × IsOwned "ann" "r-1" shelf r
      × (r.status ≡ completed)
      × (r.zip_storage_key ≡ some "z")
      × ◌≢◌ {A = String} "z" "")
archive-ready_iff_example = archive-ready_iff "ann" "r-1" "z" shelf

bobs_there : get "r-3" shelf.requests ≡ some bobs
unfolding get
bobs_there = refl

bob_is_not_ann : ◌≢◌ {A = String} "bob" "ann"
bob_is_not_ann = ground (arith, eq_iff "bob" "ann")

broken-IsWellFormed : IsWellFormed broken
unfolding is_missing text_length trim
broken-IsWellFormed = record { owner = refl; email = refl; source = refl; fields = (refl, tt) }

sort-IsSorted_example :
    IsSorted (sort (done ∷ broken ∷ []))
    × ((p : ProcessingRequest → Bool)
        → occurrences p (sort (done ∷ broken ∷ [])) ≡ occurrences p (done ∷ broken ∷ []))
sort-IsSorted_example = sort-IsSorted (done ∷ broken ∷ [])

two_of_ann : length (owned_by "ann" shelf) ≤ 2 * 1
unfolding owned_by values
two_of_ann = omega arith

pages_complete_example :
    read_pages "ann" 1 2 shelf ≡ map to_owned_item (sort (owned_by "ann" shelf))
pages_complete_example = pages_complete "ann" 1 2 shelf two_of_ann

abbrev dto : Fields
dto = field "ownerUserId" (string "ann") end

abbrev page : OwnedPage
page = record {
  items = map to_owned_item (broken ∷ done ∷ []);
  page = 1;
  page_size = 20;
  total = 2;
}

listed :
    (list in_memory_repository "ann" Value.undefined Value.undefined shelf).0 ≡ answered 200 page
unfolding list list_owned find_page_by_owner count_by_owner sort values require_owner parse_bounded
    page_input is_missing
listed = refl

list-bounded_example :
    (1 ≤ 1) × (1 ≤ 20) × (20 ≤ 100) × (2 ≤ 20) × (◌≡◌ {A = ℕ} 2 (length (owned_by "ann" shelf)))
list-bounded_example = list-bounded "ann" Value.undefined Value.undefined shelf 200 page listed

ann_is_present : is_missing "ann" ≡ false
unfolding is_missing text_length trim
ann_is_present = refl

misses_alike_example :
    (find_one in_memory_repository "ann" "r-3" shelf ≡ (refused missed, shelf))
    × (find_archive in_memory_repository "ann" "r-3" shelf ≡ (refused missed, shelf))
misses_alike_example =
    misses_alike "ann" "r-3" shelf ann_is_present (inr (inr (bobs, bobs_there, bob_is_not_ann)))

abbrev traced : ProcessingRequest
traced = record done { correlation_id = some "trace-7" }

abbrev named : Fields
named = field "eventId" (string "e-7") (field "correlationId" (string "trace-7") end)

abbrev read_one : String → Option Value
read_one content = if content == "sent" then some (envelope "p" named) else none

abbrev completion : Event
completion = Event.completed "e-9" 2000 (record {
  event_id = "e-7";
  processing_request_id = "r-1";
  attempt_id = "a-1";
  zip_storage_key = "z";
  occurred_at = "t";
})

abbrev a_uuid : String
a_uuid = "00000000-0000-4000-8000-00000000000a"

abbrev with_trace : Request.CreateInput
with_trace = record {
  owner_user_id = "ann";
  owner_email = "ann@example.org";
  source_storage_key = "uploads/c.mp4";
  idempotency_key = some "k-3";
  correlation_id = some "trace-7";
}

abbrev from_trace : ProcessingRequest
from_trace = record fresh {
  processing_request_id = "r-7";
  source_storage_key = "uploads/c.mp4";
  idempotency_key = some "k-3";
  correlation_id = some "trace-7";
}
