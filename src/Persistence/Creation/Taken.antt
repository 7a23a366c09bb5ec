-- ===== src/Persistence/Creation/Taken.antt =====
-- What a creation does over PostgreSQL and in memory: the two agree but for one case, in which only
-- the states do.
use processing_catalog.Memory.Store as Store
use processing_catalog.UseCase.Create
use processing_catalog.Memory.Store.{Memory, has_idempotency_key, has_source}
use processing_catalog.Outcome.{Result, ok, err}
use processing_catalog.Action.{Action, lift, ◌>>=◌}
use processing_catalog.Persistence.View.{Agrees, tables_of}
use mathlib.Core.Path.{subst}
use processing_catalog.UseCase.Create.{CreateInput, CreateResult}
use processing_catalog.Prelude.{
  String, any, ◌⊎◌, some, ◌≡◌, ℕ, Option, sym, inl, true, refl, arith, ◌∙◌,
}
use processing_catalog.Persistence.Manager.{EntityManager}
use processing_catalog.Persistence.Database.{Tables}
use processing_catalog.Domain.Request.{create_processing_request, ProcessingRequest}
use processing_catalog.Persistence.TypeOrm.{typeorm_repository, typeorm_unit_of_work}
use processing_catalog.Persistence.Save.{key_taken, source_taken}
use processing_catalog.UseCase.Create.Outcomes.{domain_input}

-- The two sides agree, or are in a case where only the states need to.
abbrev pub Matches :
    {S A : Type 0} → Type 0 → (S → Tables) → Result A × S → Result A × Memory → Type 0
Matches X view out expected = Agrees view out expected ⊎ (X × (view out.1 ≡ tables_of expected.1))

module _ {S : Type 0} (X : Type 0) (view : S → Tables) where
  next-Matches :
      {A B : Type 0} (f : A → Action S B) (g : A → Action Memory B) (r : Result A) (t : S)
      (n : Memory)
      → view t ≡ tables_of n
      → ((a : A) → r ≡ ok a → Matches X view (f a t) (g a n))
      → Matches X view ((lift r >>= f) t) ((lift r >>= g) n)
  next-Matches f g (ok a) t n related h = h a refl
  next-Matches f g (err e) t n related h = inl (refl, related)

  -- Where two calls agree, and what follows them matches from any answer, the sequences match.
  pub then-Matches :
      {A B : Type 0} (act : Action S A) (act' : Action Memory A) (f : A → Action S B)
      (g : A → Action Memory B) (s : S) (m : Memory)
      → Agrees view (act s) (act' m)
      → ((a : A) → (act' m).0 ≡ ok a → Matches X view (f a (act s).1) (g a (act' m).1))
      → Matches X view ((act >>= f) s) ((act' >>= g) m)
  then-Matches act act' f g s m (answer, related) h =
      subst (λ r. Matches X view ((lift r >>= f) (act s).1) ((act' >>= g) m)) (sym answer)
        (next-Matches f g (act' m).0 (act s).1 (act' m).1 related h)

-- A request of the owner has the call's key, and one its source.
abbrev pub BothTaken : CreateInput → Memory → Type 0
BothTaken input m =
    (any (has_idempotency_key (some input.idempotency_key)) (Store.owned_by input.owner_user_id m)
      ≡ true)
    × (any (has_source input.source_storage_key) (Store.owned_by input.owner_user_id m) ≡ true)

-- A creation over the TypeORM adapters.
abbrev pub create_stored :
    {S : Type 0} → EntityManager S → (S → S) → String → ℕ → CreateInput → Action S CreateResult
create_stored manager between uuid now =
    Create.execute (typeorm_repository manager now) (typeorm_unit_of_work manager now between) uuid
      now

pub created_by :
    (uuid : String) (now : ℕ) (input : CreateInput) (id : Option String) (r : ProcessingRequest)
    → create_processing_request uuid now (domain_input input id) ≡ ok r
    → (r.processing_request_id ≡ uuid)
      × (r.owner_user_id ≡ input.owner_user_id)
      × (r.source_storage_key ≡ input.source_storage_key)
      × (r.idempotency_key ≡ some input.idempotency_key)
unfolding create_processing_request
created_by uuid now input id r h = ground arith

-- What is taken for the new request is taken for the call.
pub both_taken :
    (uuid : String) (now : ℕ) (input : CreateInput) (id : Option String) (r : ProcessingRequest)
    (m : Memory)
    → create_processing_request uuid now (domain_input input id) ≡ ok r
    → key_taken r m ≡ true
    → source_taken r m ≡ true
    → BothTaken input m
both_taken uuid now input id r m h key source =
    let (own_id, owner, own_source, own_key) = created_by uuid now input id r h in
    let same_key : key_taken r m
        ≡ any (has_idempotency_key (some input.idempotency_key))
            (Store.owned_by input.owner_user_id m) =
      rw (owner, own_key) refl in
    let same_source : source_taken r m
        ≡ any (has_source input.source_storage_key) (Store.owned_by input.owner_user_id m) =
      rw (owner, own_source) refl in
    (sym same_key ∙ key, sym same_source ∙ source)
