-- ===== src/Catalog/Unique.antt =====
-- One upload is one request: no two stored requests of an owner share a source or an idempotency
-- key. In the database two unique indexes say so
-- (src/infrastructure/persistence/migrations/1789957000000-UniqueOwnerSource.ts and
-- 1789956000000-AddIdempotencyKey.ts); the in-memory repository checks it by hand.
use processing_catalog.Prelude.{
  String, ◌≡◌, sym, ◌⊎◌, Bool, true, false, some, List, [], ◌∷◌, any, filter, arith, ◌==◌, eq_iff,
  eq_refl, inl, inr,
}
use processing_catalog.Map.{get, set, values, get-set}
use processing_catalog.Outcome.{ok}
use processing_catalog.Domain.Request.{ProcessingRequest}
use processing_catalog.Domain.Transitions.{
  new_object, accept_processing_request, start_processing_request, complete_processing_request,
  fail_processing_request, reject_processing_request,
}
use processing_catalog.Domain.Allowed.{SameIdentity}
use processing_catalog.Memory.Store.{Memory, owned_by, has_idempotency_key, has_source}
use processing_catalog.UseCase.Create.{CreateInput}
use processing_catalog.UseCase.Create.Outcomes.{written, IsNew}
use processing_catalog.UseCase.Delivery.Spec.{Event, transition}

-- Two requests of one owner that hold the same source, or the same key.
abbrev pub Clashes : ProcessingRequest → ProcessingRequest → Type 0
Clashes r q =
    (r.owner_user_id ≡ q.owner_user_id)
    × ((r.source_storage_key ≡ q.source_storage_key)
        ⊎ ((key : String) × (r.idempotency_key ≡ some key) × (q.idempotency_key ≡ some key)))

abbrev pub AreUnique : List (String × ProcessingRequest) → Type 0
AreUnique m =
    (i j : String) (r q : ProcessingRequest)
    → get i m ≡ some r
    → get j m ≡ some q
    → Clashes r q
    → i ≡ j

pub transition-SameIdentity :
    (e : Event) (before r : ProcessingRequest)
    → transition e before ≡ ok (new_object r)
    → SameIdentity before r
unfolding accept_processing_request start_processing_request complete_processing_request
    fail_processing_request reject_processing_request
transition-SameIdentity (Event.accepted a b now input) before r h = ground arith
transition-SameIdentity (Event.started now input) before r h = ground arith
transition-SameIdentity (Event.completed b now input) before r h = ground arith
transition-SameIdentity (Event.failed b now input) before r h = ground arith

-- A request that is stored under its own id again, changed in what is not its identity.
pub replace-AreUnique :
    (k : String) (before r : ProcessingRequest) (m : List (String × ProcessingRequest))
    → get k m ≡ some before
    → SameIdentity before r
    → AreUnique m
    → AreUnique (set k r m)
replace-AreUnique k before r m found same unique i j x y gi gj clash = ground (
  arith,
  get-set k i r m,
  get-set k j r m,
  eq_iff k i,
  eq_iff k j,
  unique i j x y,
  unique i j before y,
  unique i j x before,
  unique i j before before,
)

Clashes-symm : (r q : ProcessingRequest) → Clashes r q → Clashes q r
Clashes-symm r q (owner, inl source) = (sym owner, inl (sym source))
Clashes-symm r q (owner, inr (key, own, other)) = (sym owner, inr (key, other, own))

-- A request that clashes with none of those stored.
pub insert-AreUnique :
    (k : String) (r : ProcessingRequest) (m : List (String × ProcessingRequest))
    → ((j : String) (q : ProcessingRequest) → get j m ≡ some q → ¬ (Clashes r q))
    → AreUnique m
    → AreUnique (set k r m)
insert-AreUnique k r m free unique i j x y gi gj clash = ground (
  arith,
  get-set k i r m,
  get-set k j r m,
  eq_iff k i,
  eq_iff k j,
  unique i j x y,
  free i x,
  free j y,
  Clashes-symm x y clash,
)

-- What no value of the map passes, no stored request does.
any-filter-values :
    (p own : ProcessingRequest → Bool) (m : List (String × ProcessingRequest)) (j : String)
    (q : ProcessingRequest)
    → any p (filter own (values m)) ≡ false
    → get j m ≡ some q
    → own q ≡ true
    → p q ≡ false
unfolding get values
any-filter-values p own [] j q h g o = ground arith
any-filter-values p own ((k, v) ∷ m) j q h g o = ground (arith, any-filter-values p own m j q)

module _ (r : ProcessingRequest) (s : Memory) (new : IsNew r s) (j : String) (q : ProcessingRequest)
    (found : get j s.requests ≡ some q) where
  abbrev Passes : (ProcessingRequest → Bool) → Type 0
  Passes p = (q.owner_user_id == r.owner_user_id) ≡ true → p q ≡ false

  other_source : Passes (has_source r.source_storage_key)
  unfolding owned_by
  other_source =
      any-filter-values (has_source r.source_storage_key) (λ x. x.owner_user_id == r.owner_user_id)
        s.requests j q new.source found

  other_key : Passes (has_idempotency_key r.idempotency_key)
  unfolding owned_by
  other_key =
      any-filter-values (has_idempotency_key r.idempotency_key)
        (λ x. x.owner_user_id == r.owner_user_id) s.requests j q new.key found

  -- What `save` checks rules out a clash.
  IsNew-free : ¬ (Clashes r q)
  IsNew-free (owner, inl source) = ground (
    arith,
    other_source,
    eq_iff q.owner_user_id r.owner_user_id,
    eq_iff q.source_storage_key r.source_storage_key,
  )
  IsNew-free (owner, inr (key, own, other)) =
      ground (arith, other_key, eq_iff q.owner_user_id r.owner_user_id, eq_refl key)

pub written-AreUnique :
    (input : CreateInput) (r : ProcessingRequest) (s : Memory)
    → IsNew r s
    → AreUnique s.requests
    → AreUnique (written input r s).requests
written-AreUnique input r s new unique =
    insert-AreUnique r.processing_request_id r s.requests (IsNew-free r s new) unique
