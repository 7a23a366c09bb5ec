-- ===== src/Persistence/Save.antt =====
-- `save` over PostgreSQL, whose unique indexes make the checks of the in-memory one.
use mathlib.Core.Path.{subst}
use processing_catalog.Prelude.{
  ℕ, String, ◌≡◌, refl, sym, ap, ◌∙◌, true, false, Bool, ◌&&◌, ◌⊎◌, inl, inr, some, List, [], ◌∷◌,
  ◌++◌, map, any, arith, Bool-cases, ◌==◌, eq_iff, All, if◌then◌else◌,
}
use processing_catalog.Map.{set, has, values}
use processing_catalog.Outcome.{
  ok, err, duplicate_source, duplicate_idempotency_key, query_failed, Error,
}
use processing_catalog.Domain.Request.{ProcessingRequest}
use processing_catalog.Domain.Transitions.{same_text, is_present}
use processing_catalog.Memory.Store.{
  Memory, text_or_empty, has_idempotency_key, has_source, request_named, OutboxEntry,
}
use processing_catalog.Memory.Store as Store
use processing_catalog.Persistence.Manager.{EntityManager, ProcessingRequestEntity}
use processing_catalog.Persistence.TypeOrm
use processing_catalog.Persistence.TypeOrm.{to_row, to_domain, save_error, violated_unique_index}
use processing_catalog.Persistence.Columns.{fits_row}
use processing_catalog.Persistence.Database.{Tables, IsDatabase, violated}
use processing_catalog.Persistence.Lists.{any-map, any-filter, map-append}
use processing_catalog.Persistence.View.{tables_of, IsKeyed, Agrees, set_new, values-append}

pub any-values :
    (id : String) (m : List (String × ProcessingRequest))
    → All (λ e. e.1.processing_request_id ≡ e.0) m
    → any (λ r. r.processing_request_id == id) (values m) ≡ has id m
unfolding values has
any-values id [] h = refl
any-values id ((k, r) ∷ m) h = ground (arith, h.0, ap (◌== id) h.0, any-values id m h.1)

abbrev pub key_taken : ProcessingRequest → Memory → Bool
key_taken r m =
    is_present r.idempotency_key
    && any (has_idempotency_key r.idempotency_key) (Store.owned_by r.owner_user_id m)

abbrev pub source_taken : ProcessingRequest → Memory → Bool
source_taken r m = any (has_source r.source_storage_key) (Store.owned_by r.owner_user_id m)

when : Bool → String → List String
when b name = if b then name ∷ [] else []

violated_lem :
    (r : ProcessingRequest) (m : Memory)
    → IsKeyed m.requests
    → violated (to_row r) (map to_row (values m.requests))
      ≡ when (has r.processing_request_id m.requests) "processing_request_pkey"
        ++ (when (key_taken r m) "uq_processing_request_owner_idempotency"
            ++ when (source_taken r m) "uq_processing_request_owner_source")
unfolding violated to_row Store.owned_by when
violated_lem r m keyed =
    let vs = values m.requests in
    ground (
      arith,
      any-map to_row
          (λ (e : ProcessingRequestEntity). e.processing_request_id == r.processing_request_id)
          (λ (q : ProcessingRequest). q.processing_request_id == r.processing_request_id)
          (λ (q : ProcessingRequest). refl) vs,
      any-values r.processing_request_id m.requests keyed.0,
      any-map to_row
          (λ (e : ProcessingRequestEntity).
            e.owner_user_id == r.owner_user_id && same_text e.idempotency_key r.idempotency_key)
          (λ (q : ProcessingRequest).
            q.owner_user_id == r.owner_user_id && same_text q.idempotency_key r.idempotency_key)
          (λ (q : ProcessingRequest). refl) vs,
      any-filter (has_idempotency_key r.idempotency_key)
          (λ (q : ProcessingRequest). q.owner_user_id == r.owner_user_id) vs,
      any-map to_row
          (λ (e : ProcessingRequestEntity).
            e.owner_user_id == r.owner_user_id && e.source_storage_key == r.source_storage_key)
          (λ (q : ProcessingRequest).
            q.owner_user_id == r.owner_user_id && q.source_storage_key == r.source_storage_key)
          (λ (q : ProcessingRequest). refl) vs,
      any-filter (has_source r.source_storage_key)
          (λ (q : ProcessingRequest). q.owner_user_id == r.owner_user_id) vs,
    )

-- What the in-memory repository answers, by what is taken.
save_free :
    (r : ProcessingRequest) (m : Memory)
    → key_taken r m ≡ false
    → source_taken r m ≡ false
    → Store.save r m ≡ (ok tt, record m { requests = set r.processing_request_id r m.requests })
unfolding Store.save
save_free r m key source = ground arith

save_key :
    (r : ProcessingRequest) (m : Memory)
    → key_taken r m ≡ true
    → Store.save r m
      ≡ (err (duplicate_idempotency_key r.owner_user_id (text_or_empty r.idempotency_key)), m)
unfolding Store.save
save_key r m key = ground arith

save_source :
    (r : ProcessingRequest) (m : Memory)
    → key_taken r m ≡ false
    → source_taken r m ≡ true
    → Store.save r m ≡ (err (duplicate_source r.owner_user_id r.source_storage_key), m)
unfolding Store.save
save_source r m key source = ground arith

abbrev key_index : String
key_index = "uq_processing_request_owner_idempotency"

abbrev source_index : String
source_index = "uq_processing_request_owner_source"

none_taken :
    (key source : Bool)
    → when false "processing_request_pkey" ++ (when key key_index ++ when source source_index) ≡ []
    → (key ≡ false) × (source ≡ false)
unfolding when
none_taken key source h = ground arith

one_taken :
    (key source : Bool) (index : String)
    → any
        (λ name. name == index)
        (when false "processing_request_pkey" ++ (when key key_index ++ when source source_index))
      ≡ true
    → ((key ≡ true) × (index ≡ key_index)) ⊎ ((source ≡ true) × (index ≡ source_index))
unfolding when
one_taken key source index h = ground (arith, eq_iff key_index index, eq_iff source_index index)

module _ {S : Type 0} (manager : EntityManager S) (view : S → Tables) (now : ℕ)
    (database : IsDatabase manager view) (s : S) (m : Memory) (related : view s ≡ tables_of m)
    (keyed : IsKeyed m.requests) where
  -- What a save does on both sides; the two may report another index where two are violated.
  abbrev pub SaveAgrees : ProcessingRequest → Type 0
  SaveAgrees r =
      Agrees view (TypeOrm.save manager now r s) (Store.save r m)
      ⊎ (((TypeOrm.save manager now r s).0
            ≡ err (duplicate_source r.owner_user_id r.source_storage_key))
          × ((Store.save r m).0
              ≡ err (duplicate_idempotency_key r.owner_user_id (text_or_empty r.idempotency_key)))
          × (view (TypeOrm.save manager now r s).1 ≡ tables_of m)
          × ((Store.save r m).1 ≡ m)
          × (key_taken r m ≡ true)
          × (source_taken r m ≡ true))

  listed :
      (r : ProcessingRequest)
      → has r.processing_request_id m.requests ≡ false
      → violated (to_row r) (view s).requests
        ≡ when false "processing_request_pkey"
          ++ (when (key_taken r m) key_index ++ when (source_taken r m) source_index)
  listed r fresh =
      ap (λ t. violated (to_row r) t.requests) related
      ∙ violated_lem r m keyed
      ∙ ap
          (λ b.
            when b "processing_request_pkey"
            ++ (when (key_taken r m) key_index ++ when (source_taken r m) source_index))
          fresh

  added :
      (r : ProcessingRequest)
      → has r.processing_request_id m.requests ≡ false
      → ◌≡◌ {A = Tables}
          (record (view s) { requests = (view s).requests ++ to_row r ∷ [] })
          (tables_of (record m { requests = set r.processing_request_id r m.requests }))
  unfolding values
  added r fresh =
      let id = r.processing_request_id in
      ap (λ (t : Tables). record t { requests = t.requests ++ to_row r ∷ [] }) related
      ∙ ap (λ (rows : List ProcessingRequestEntity). record (tables_of m) { requests = rows })
          (sym (
            ap (λ x. map to_row (values x)) (set_new id r m.requests fresh)
            ∙ ap (map to_row) (values-append m.requests ((id, r) ∷ []))
            ∙ map-append to_row (values m.requests) (r ∷ [])))

  -- A failed insert that the code reports as an error of the domain.
  failed :
      (r : ProcessingRequest) (index : String) (x : Error)
      → (manager.insert_request (to_row r) s).0 ≡ err (query_failed (some "23505") (some index))
      → save_error r (query_failed (some "23505") (some index)) ≡ x
      → (TypeOrm.save manager now r s).0 ≡ err x
  unfolding TypeOrm.save
  failed r index x answer e = rw answer (ap err e)

  -- Let the entity manager be one of a database, and let its tables stand for a memory whose requests
  -- have distinct ids and stand under them. For a request with a new id, whose texts fit their
  -- columns, `save` over PostgreSQL answers what the in-memory one answers, the same error of a
  -- taken key or source included, and leaves the tables that stand for the memory it leaves; only
  -- where both the key and the source of the request are taken may PostgreSQL report the source
  -- where the in-memory one reports the key, and then neither changes anything.
  pub save-Agrees :
      (r : ProcessingRequest)
      → fits_row (to_row r) ≡ true
      → has r.processing_request_id m.requests ≡ false
      → SaveAgrees r
  unfolding TypeOrm.save save_error violated_unique_index
  save-Agrees r fits fresh = elim (database.inserts_request (to_row r) s fits) [
    | inl (free, done) ↦
        let (key, source) =
          none_taken (key_taken r m) (source_taken r m) (sym (listed r fresh) ∙ free) in
        inl (
          subst (λ o. Agrees view (TypeOrm.save manager now r s) o) (sym (save_free r m key source))
            (rw (done.0) refl, done.1 ∙ added r fresh))
    | inr (index, taken, answer, kept) ↦
        elim (one_taken (key_taken r m) (source_taken r m) index
          (ap (any (λ name. name == index)) (sym (listed r fresh)) ∙ taken)) [
            | inl (key, same) ↦ inl (
                subst (λ o. Agrees view (TypeOrm.save manager now r s) o) (sym (save_key r m key))
                  (failed r index _ answer (rw same refl), kept ∙ related))
            | inr (source, same) ↦ elim (Bool-cases (key_taken r m)) [
              | inl key ↦ inr (
                failed r index _ answer (rw same refl),
                ap (λ o. o.0) (save_key r m key),
                kept ∙ related,
                ap (λ o. o.1) (save_key r m key),
                key,
                source,
              )
              | inr free ↦ inl (
                  subst (λ o. Agrees view (TypeOrm.save manager now r s) o)
                    (sym (save_source r m free source))
                    (failed r index _ answer (rw same refl), kept ∙ related))
            ]
          ]
  ]
