-- ===== src/Query/Reads.antt =====
-- src/application/owned-item.ts, get-owned-archive.query.ts, get-owned-processing-request.query.ts
-- and list-owned-processing-requests.query.ts, over any repository. The two reads that
-- `Promise.all` starts write nothing; they are taken in order.
use mathlib.Core.Option.{map as map_option}
use processing_catalog.Prelude.{
  Option, String, List, ℕ, some, if◌then◌else◌, ◌-◌, none, ◌==◌, ◌*◌, map,
}
use processing_catalog.Domain.Request.{
  ProcessingRequest, Status, FailureCode, failure_reason_for, failed, completed,
}
use processing_catalog.IsoDate.{to_iso_string}
use processing_catalog.Action.{Action, ◌>>=◌, return}
use processing_catalog.Repository.{Repository}

pub record OwnedItem : Type 0 where
  pub processing_request_id : String
  pub status : Status
  pub created_at : String
  pub updated_at : String
  pub failure_reason : Option String

pub record OwnedPage : Type 0 where
  pub items : List OwnedItem
  pub page : ℕ
  pub page_size : ℕ
  pub total : ℕ

-- the reason that the `if` sets
reason_of : Status → Option FailureCode → Option String
reason_of failed (some code) = some (failure_reason_for code)
reason_of _ _ = none

unfoldable pub to_owned_item : ProcessingRequest → OwnedItem
unfolding reason_of
to_owned_item r = record {
  processing_request_id = r.processing_request_id;
  status = r.status;
  created_at = to_iso_string r.created_at;
  updated_at = to_iso_string r.updated_at;
  failure_reason = reason_of r.status r.failure_code;
}

pub data OwnedArchive : Type 0 where
  ready : (zip_storage_key : String) → OwnedArchive
  not_completed not_found : OwnedArchive

archive_at : Status → Option String → OwnedArchive
archive_at completed (some key) = if key == "" then not_completed else ready key
archive_at _ _ = not_completed

archive_of : Option ProcessingRequest → OwnedArchive
unfolding archive_at
archive_of none = not_found
archive_of (some r) = archive_at r.status r.zip_storage_key

module _ {S : Type 0} (repository : Repository S) where
  unfoldable pub get_owned_archive : String → String → Action S OwnedArchive
  unfolding archive_of
  get_owned_archive owner id = do
    request ← repository.find_by_id_and_owner id owner
    return (archive_of request)

  unfoldable pub get_owned : String → String → Action S (Option OwnedItem)
  get_owned owner id = do
    request ← repository.find_by_id_and_owner id owner
    return (map_option to_owned_item request)

  -- `page` counts from 1; the caller validates it
  unfoldable pub list_owned : String → ℕ → ℕ → Action S OwnedPage
  list_owned owner page page_size = do
    rows ← repository.find_page_by_owner owner ((page - 1) * page_size) page_size
    total ← repository.count_by_owner owner
    return (record {
      items = map to_owned_item rows;
      page = page;
      page_size = page_size;
      total = total;
    })
