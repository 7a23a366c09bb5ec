-- ===== src/Catalog/Replay.antt =====
-- src/application/create-processing-request.use-case.ts: a creation for what the owner already has
-- answers with that request and writes nothing, also where another execution created it first.
use processing_catalog.Prelude.{
  ℕ, String, ◌≡◌, sym, ◌∙◌, Option, none, some, false, arith, inl, inr, eq_iff, eq_refl, ◌==◌,
  if◌then◌else◌, find, any_of_find, ◌⊎◌, any, any_of_find-none,
}
use processing_catalog.Text.{is_missing}
use processing_catalog.Map.{get}
use processing_catalog.Map.Values.{find_only}
use processing_catalog.Outcome.{Result, ok, err, idempotency_conflict}
use processing_catalog.Domain.Request.{ProcessingRequest, create_processing_request}
use processing_catalog.Domain.Allowed.{same_text_iff}
use processing_catalog.Memory.Store.{
  Memory, OnThrow, owned_by, has_idempotency_key, has_source, find_by_event_id,
  find_by_owner_and_idempotency_key, find_by_owner_and_source, save,
}
use processing_catalog.UseCase.Create.{
  CreateInput, CreateResult, replayed, valid_correlation_id, execute,
}
use processing_catalog.UseCase.Create.Outcomes.{create}
use processing_catalog.Catalog.Unique.{Clashes}
use processing_catalog.Catalog.Deliver.{IsSound}

-- Two requests stored under one id are one.
same_id :
    (s : Memory) (i j : String) (r q : ProcessingRequest)
    → IsSound s
    → get i s.requests ≡ some r
    → get j s.requests ≡ some q
    → Clashes r q
    → q ≡ r
same_id s i j r q sound gi gj clash = ground (arith, sound.1 i j r q gi gj clash)

-- The searches of the repository find a stored request by its owner and key, or source.
find_by_key :
    (s : Memory) (id owner key : String) (r : ProcessingRequest)
    → IsSound s
    → get id s.requests ≡ some r
    → r.owner_user_id ≡ owner
    → r.idempotency_key ≡ some key
    → find (has_idempotency_key (some key)) (owned_by owner s) ≡ some r
unfolding owned_by
find_by_key s id owner key r sound g o k =
    find_only (has_idempotency_key (some key)) (λ x. x.owner_user_id == owner) s.requests id r
      sound.2 g ((eq_iff _ _).1 o) (rw k (eq_refl key))
      λ j q gj owned passed. same_id s id j r q sound g gj (
        o ∙ sym ((eq_iff _ _).0 owned),
        inr (key, k, (same_text_iff q.idempotency_key key).0 passed),
      )

find_by_source :
    (s : Memory) (id owner source : String) (r : ProcessingRequest)
    → IsSound s
    → get id s.requests ≡ some r
    → r.owner_user_id ≡ owner
    → r.source_storage_key ≡ source
    → find (has_source source) (owned_by owner s) ≡ some r
unfolding owned_by
find_by_source s id owner source r sound g o k =
    find_only (has_source source) (λ x. x.owner_user_id == owner) s.requests id r sound.2 g
      ((eq_iff _ _).1 o) ((eq_iff _ _).1 k)
      λ j q gj owned passed.
        same_id s id j r q sound g gj
          (o ∙ sym ((eq_iff _ _).0 owned), inl (k ∙ sym ((eq_iff _ _).0 passed)))

-- An input that passes the checks before anything is looked up, under an event id of its own.
pub record IsAcceptable (input : CreateInput) (s : Memory) : Type 0 where
  pub event_id : is_missing input.event_id ≡ false
  pub idempotency_key : is_missing input.idempotency_key ≡ false
  pub correlation_id : Option String
  pub correlation_ok : valid_correlation_id input.correlation_id ≡ ok correlation_id
  pub owner_user_id : is_missing input.owner_user_id ≡ false
  pub owner_email : is_missing input.owner_email ≡ false
  pub source_storage_key : is_missing input.source_storage_key ≡ false
  pub unseen : (find_by_event_id input.event_id s).0 ≡ ok none

-- What `replay` answers for the request that holds the key.
abbrev pub replay_answer : ProcessingRequest → CreateInput → Result CreateResult
replay_answer r input =
    if r.source_storage_key == input.source_storage_key
    then ok (record { request = r; outcome = replayed })
    else err idempotency_conflict

on_key :
    (policy : OnThrow) (meanwhile : Memory → Memory) (uuid : String) (now : ℕ) (input : CreateInput)
    (s : Memory) (r : ProcessingRequest)
    → IsAcceptable input s
    → find (has_idempotency_key (some input.idempotency_key)) (owned_by input.owner_user_id s)
      ≡ some r
    → create policy meanwhile uuid now input s ≡ (replay_answer r input, s)
unfolding execute find_by_event_id find_by_owner_and_idempotency_key create_processing_request
on_key policy meanwhile uuid now input s r valid found = ground arith

on_source :
    (policy : OnThrow) (meanwhile : Memory → Memory) (uuid : String) (now : ℕ) (input : CreateInput)
    (s : Memory) (r : ProcessingRequest)
    → IsAcceptable input s
    → find_by_owner_and_idempotency_key input.owner_user_id input.idempotency_key s ≡ (ok none, s)
    → find (has_source input.source_storage_key) (owned_by input.owner_user_id s) ≡ some r
    → create policy meanwhile uuid now input s
      ≡ (ok (record { request = r; outcome = replayed }), s)
unfolding execute find_by_event_id find_by_owner_and_idempotency_key find_by_owner_and_source
    create_processing_request
on_source policy meanwhile uuid now input s r valid unused found = ground arith

-- The request has the call's key, or, where the owner has not used that, its source.
abbrev pub IsHeld : ProcessingRequest → CreateInput → Memory → Type 0
IsHeld r input s =
    (r.idempotency_key ≡ some input.idempotency_key)
    ⊎ (r.source_storage_key ≡ input.source_storage_key)
      × (find_by_owner_and_idempotency_key input.owner_user_id input.idempotency_key s
          ≡ (ok none, s))

-- In a sound state in which the owner has a request under the call's key, or under its source where
-- the key is unused, a valid creation writes nothing: it replays that request if the source is the
-- same, and is a conflict if not.
pub create_replay :
    (policy : OnThrow) (meanwhile : Memory → Memory) (uuid : String) (now : ℕ) (input : CreateInput)
    (s : Memory) (id : String) (r : ProcessingRequest)
    → IsSound s
    → IsAcceptable input s
    → get id s.requests ≡ some r
    → r.owner_user_id ≡ input.owner_user_id
    → IsHeld r input s
    → create policy meanwhile uuid now input s ≡ (replay_answer r input, s)
create_replay policy meanwhile uuid now input s id r sound valid g owner (inl key) =
    on_key policy meanwhile uuid now input s r valid
      (find_by_key s id input.owner_user_id input.idempotency_key r sound g owner key)
create_replay policy meanwhile uuid now input s id r sound valid g owner (inr (source, unused)) =
    rw ((eq_iff _ _).1 source) (
      on_source policy meanwhile uuid now input s r valid unused
        (find_by_source s id input.owner_user_id input.source_storage_key r sound g owner source))

race_on_key :
    (policy : OnThrow) (meanwhile : Memory → Memory) (uuid : String) (now : ℕ) (input : CreateInput)
    (s : Memory) (r : ProcessingRequest)
    → IsAcceptable input s
    → find_by_owner_and_idempotency_key input.owner_user_id input.idempotency_key s ≡ (ok none, s)
    → find_by_owner_and_source input.owner_user_id input.source_storage_key s ≡ (ok none, s)
    → find
        (has_idempotency_key (some input.idempotency_key))
        (owned_by input.owner_user_id (meanwhile s))
      ≡ some r
    → create policy meanwhile uuid now input s ≡ (replay_answer r input, meanwhile s)
unfolding execute find_by_event_id find_by_owner_and_idempotency_key find_by_owner_and_source
    create_processing_request save
race_on_key policy meanwhile uuid now input s r valid no_key no_source found = ground (
  arith,
  any_of_find (has_idempotency_key (some input.idempotency_key))
      (owned_by input.owner_user_id (meanwhile s)) r,
)

race_on_source :
    (policy : OnThrow) (meanwhile : Memory → Memory) (uuid : String) (now : ℕ) (input : CreateInput)
    (s : Memory) (r : ProcessingRequest)
    → IsAcceptable input s
    → find_by_owner_and_idempotency_key input.owner_user_id input.idempotency_key s ≡ (ok none, s)
    → find_by_owner_and_source input.owner_user_id input.source_storage_key s ≡ (ok none, s)
    → any
        (has_idempotency_key (some input.idempotency_key))
        (owned_by input.owner_user_id (meanwhile s))
      ≡ false
    → find (has_source input.source_storage_key) (owned_by input.owner_user_id (meanwhile s))
      ≡ some r
    → create policy meanwhile uuid now input s
      ≡ (ok (record { request = r; outcome = replayed }), meanwhile s)
unfolding execute find_by_event_id find_by_owner_and_idempotency_key find_by_owner_and_source
    create_processing_request save
race_on_source policy meanwhile uuid now input s r valid no_key no_source unused found = ground (
  arith,
  any_of_find (has_source input.source_storage_key) (owned_by input.owner_user_id (meanwhile s)) r,
)

-- The search by key that finds nothing has nothing to find.
unused_key :
    (input : CreateInput) (t : Memory)
    → find_by_owner_and_idempotency_key input.owner_user_id input.idempotency_key t ≡ (ok none, t)
    → any (has_idempotency_key (some input.idempotency_key)) (owned_by input.owner_user_id t)
      ≡ false
unfolding find_by_owner_and_idempotency_key
unused_key input t unused =
    any_of_find-none (has_idempotency_key (some input.idempotency_key))
      (owned_by input.owner_user_id t) (ground arith)

-- A lost race: the owner had neither the key nor the source, and before this creation's insert
-- another execution committed a request of the owner under the key, or under the source with the
-- key still unused, and left a sound state. This creation is valid and under an event id of its own;
-- it writes nothing and leaves the state that it found then. It replays the
-- winner where that has the source of the call, and is a conflict where the key is bound to another
-- source.
pub create_race :
    (policy : OnThrow) (meanwhile : Memory → Memory) (uuid : String) (now : ℕ) (input : CreateInput)
    (s : Memory) (id : String) (r : ProcessingRequest)
    → IsAcceptable input s
    → find_by_owner_and_idempotency_key input.owner_user_id input.idempotency_key s ≡ (ok none, s)
    → find_by_owner_and_source input.owner_user_id input.source_storage_key s ≡ (ok none, s)
    → IsSound (meanwhile s)
    → get id (meanwhile s).requests ≡ some r
    → r.owner_user_id ≡ input.owner_user_id
    → IsHeld r input (meanwhile s)
    → create policy meanwhile uuid now input s ≡ (replay_answer r input, meanwhile s)
create_race policy meanwhile uuid now input s id r valid no_key no_source sound g owner (inl key) =
    race_on_key policy meanwhile uuid now input s r valid no_key no_source
      (find_by_key (meanwhile s) id input.owner_user_id input.idempotency_key r sound g owner key)
create_race policy meanwhile uuid now input s id r valid no_key no_source sound g owner
      (inr (source, unused)) =
    rw ((eq_iff _ _).1 source) (
      race_on_source policy meanwhile uuid now input s r valid no_key no_source
        (unused_key input (meanwhile s) unused)
        (find_by_source (meanwhile s) id input.owner_user_id input.source_storage_key r sound g
          owner source))
