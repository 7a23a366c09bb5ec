-- ===== src/Interface/Misses.antt =====
-- The owner's routes do not tell which requests exist
-- (src/interface/owned-processing-requests.controller.ts).
use processing_catalog.Prelude.{inl, inr, eq_iff, String, ◌≡◌, false, ◌⊎◌, none, some, ◌≢◌, arith}
use processing_catalog.Interface.Owned.{find_one, find_archive, is_uuid, require_owner, missed}
use processing_catalog.Memory.Store.{Memory, find_by_id_and_owner, in_memory_repository}
use processing_catalog.Query.Reads.{get_owned, get_owned_archive}
use processing_catalog.Text.{is_missing}
use processing_catalog.Map.{get}
use processing_catalog.Domain.Request.{ProcessingRequest}
use processing_catalog.Interface.Http.{refused}
use Prim.Native.String.{String}

-- The owner has no request of that id in the store: it is malformed, or unknown, or another's.
abbrev pub IsMiss : String → String → Memory → Type 0
IsMiss owner id s =
    (is_uuid id ≡ false)
    ⊎ (get id s.requests ≡ none)
    ⊎ ((r : ProcessingRequest) × (get id s.requests ≡ some r) × (r.owner_user_id ≢ owner))

-- Every miss is answered alike, by both routes, whichever it is and whatever the store holds.
pub misses_alike :
    (owner id : String) (s : Memory)
    → is_missing owner ≡ false
    → IsMiss owner id s
    → (find_one in_memory_repository owner id s ≡ (refused missed, s))
      × (find_archive in_memory_repository owner id s ≡ (refused missed, s))
unfolding find_one find_archive require_owner get_owned get_owned_archive find_by_id_and_owner
misses_alike owner id s present (inl malformed) = ground arith
misses_alike owner id s present (inr (inl unknown)) = ground arith
misses_alike owner id s present (inr (inr (r, found, other))) =
    ground (arith, eq_iff r.owner_user_id owner)
