-- ===== src/Query/Owner.antt =====
-- What an owner-scoped read tells, and to whom.
use processing_catalog.Query.Reads.{get_owned, get_owned_archive, to_owned_item, ready, not_found}
use processing_catalog.Memory.Store.{Memory, find_by_id_and_owner, in_memory_repository}
use processing_catalog.Domain.Request.{ProcessingRequest, failed, completed}
use processing_catalog.Domain.Invariant.{IsWellFormed, IsSome}
use processing_catalog.Map.{get}
use processing_catalog.Outcome.{ok}
use processing_catalog.Prelude.{String, ◌≡◌, some, ◌↔◌, ◌≢◌, none, arith, eq_iff, Option, refl}

-- The request with an id in the store that is the owner's.
abbrev pub IsOwned : String → String → Memory → ProcessingRequest → Type 0
IsOwned owner id s r = (get id s.requests ≡ some r) × (r.owner_user_id ≡ owner)

key_given :
    (owner id key : String) (s : Memory)
    → (get_owned_archive in_memory_repository owner id s).0 ≡ ok (ready key)
    → (o : Option ProcessingRequest) → get id s.requests ≡ o
    → (r : ProcessingRequest) × IsOwned owner id s r
      × (r.status ≡ completed)
      × (r.zip_storage_key ≡ some key)
      × (key ≢ "")
unfolding get_owned_archive find_by_id_and_owner
key_given owner id key s h none p = ground arith
key_given owner id key s h (some r) p = (
  r,
  ground (arith, eq_iff r.owner_user_id owner),
  ground (arith, eq_iff key ""),
  ground (arith, eq_iff key ""),
  ground (arith, eq_iff key ""),
)

-- The key of an archive is given out exactly when the store has a request of that id and owner
-- that is COMPLETED and has that key, which is not empty.
pub archive-ready_iff :
    (owner id key : String) (s : Memory)
    → ((get_owned_archive in_memory_repository owner id s).0 ≡ ok (ready key)) ↔ (
        (r : ProcessingRequest) × IsOwned owner id s r
        × (r.status ≡ completed)
        × (r.zip_storage_key ≡ some key)
        × (key ≢ ""))
unfolding get_owned_archive find_by_id_and_owner
archive-ready_iff owner id key s = (
  λ h. key_given owner id key s h (get id s.requests) refl,
  λ h. ground (arith, eq_iff key "", eq_iff h.0.owner_user_id owner),
)

-- An item or an archive of a request of another owner is answered as one of no request at all,
-- and reading leaves the state as it is.
pub reads_hide_others :
    (owner id : String) (s : Memory) (r : ProcessingRequest)
    → get id s.requests ≡ some r
    → r.owner_user_id ≢ owner
    → (get_owned in_memory_repository owner id s ≡ (ok none, s))
      × (get_owned_archive in_memory_repository owner id s ≡ (ok not_found, s))
unfolding get_owned get_owned_archive find_by_id_and_owner
reads_hide_others owner id s r h other = ground (arith, eq_iff r.owner_user_id owner)

-- The item of a well-formed request tells a reason for its failure if and only if its status is
-- FAILED.
pub item-reason_iff :
    (r : ProcessingRequest)
    → IsWellFormed r
    → IsSome (to_owned_item r).failure_reason ↔ (r.status ≡ failed)
unfolding to_owned_item
item-reason_iff r w = ground arith
