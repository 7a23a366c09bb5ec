-- ===== src/App/Shared.antt =====
-- Operations on one part of a state, as operations on the whole of it: the process holds the in-memory
-- adapters and, where one is configured, a database beside them.
use processing_catalog.Action.{Action}
use processing_catalog.Repository.{Repository, UnitOfWork}

-- A part of a state: how to read it and how to replace it.
pub record Part (W S : Type 0) : Type 0 where
  pub read : W → S
  pub replace : S → W → W

module _ {W S : Type 0} (part : Part W S) where
  unfoldable pub on_part : {A : Type 0} → Action S A → Action W A
  on_part act w = ((act (part.read w)).0, part.replace (act (part.read w)).1 w)

  abbrev pub repository_on : Repository S → Repository W
  repository_on r = record {
    save = λ request. on_part (r.save request);
    update = λ request. on_part (r.update request);
    find_by_processing_request_id = λ id. on_part (r.find_by_processing_request_id id);
    find_for_update = λ id. on_part (r.find_for_update id);
    find_by_event_id = λ id. on_part (r.find_by_event_id id);
    mark_event_processed = λ event id. on_part (r.mark_event_processed event id);
    has_event_been_processed = λ event. on_part (r.has_event_been_processed event);
    find_page_by_owner = λ owner offset limit. on_part (r.find_page_by_owner owner offset limit);
    count_by_owner = λ owner. on_part (r.count_by_owner owner);
    find_by_id_and_owner = λ id owner. on_part (r.find_by_id_and_owner id owner);
    find_by_owner_and_idempotency_key =
        λ owner key. on_part (r.find_by_owner_and_idempotency_key owner key);
    find_by_owner_and_source = λ owner source. on_part (r.find_by_owner_and_source owner source);
  }

  abbrev pub unit_of_work_on : UnitOfWork S → UnitOfWork W
  unit_of_work_on u = record {
    context = record {
      requests = repository_on u.context.requests;
      outbox = record {
        add = λ queue pattern payload. on_part (u.context.outbox.add queue pattern payload);
      };
    };
    meanwhile = λ w. part.replace (u.meanwhile (part.read w)) w;
    on_throw = λ start w. part.replace (u.on_throw (part.read start) (part.read w)) w;
  }

-- The parts of a pair.
abbrev pub first_part : {A B : Type 0} → Part (A × B) A
first_part = record { read = λ w. w.0; replace = λ a w. (a, w.1) }

abbrev pub second_part : {A B : Type 0} → Part (A × B) B
second_part = record { read = λ w. w.1; replace = λ b w. (w.0, b) }
