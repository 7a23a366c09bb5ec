-- ===== src/Persistence/View.antt =====
-- The tables that stand for a state of the in-memory adapters.
use mathlib.Core.Option.{map as map_option}
use processing_catalog.Memory.Store.{OutboxEntry, Memory, owned_or_none}
use processing_catalog.Map.{set, values, has, get}
use processing_catalog.Persistence.Database.{Tables, replace_row, OutboxRow, outbox_row}
use processing_catalog.Persistence.TypeOrm.{to_domain, to_row}
use processing_catalog.Outcome.{Result}
use processing_catalog.Domain.Request.{ProcessingRequest}
use processing_catalog.Map.Values.{IsDistinct}
use processing_catalog.Prelude.{
  map, [], ◌∷◌, ap, refl, ◌&&◌, ◌++◌, arith, if◌then◌else◌, ◌==◌, some, none, false, ◌≡◌, All,
  String, List, Option, find, eq_iff,
}

-- mark_event_processed keeps the empty text for an event of no request, the table a null
abbrev pub id_column : String → Option String
id_column id = if id == "" then none else some id

abbrev pub event_row : String × String → String × Option String
event_row (event_id, id) = (event_id, id_column id)

abbrev pub entry_row : OutboxEntry → OutboxRow
entry_row entry = outbox_row entry.queue entry.pattern entry.payload

abbrev pub tables_of : Memory → Tables
tables_of m = record {
  requests = map to_row (values m.requests);
  events = map event_row m.event_id_to_request_id;
  outbox = map entry_row m.entries;
}

-- Each request stands under its own id, and no two under one.
abbrev pub IsKeyed : List (String × ProcessingRequest) → Type 0
IsKeyed m = All (λ e. e.1.processing_request_id ≡ e.0) m × IsDistinct m

-- The two adapters answer alike, and leave tables and memory alike.
abbrev pub Agrees : {S A : Type 0} → (S → Tables) → Result A × S → Result A × Memory → Type 0
Agrees view out expected = (out.0 ≡ expected.0) × (view out.1 ≡ tables_of expected.1)

pub to_domain-to_row : (r : ProcessingRequest) → to_domain (to_row r) ≡ r
unfolding to_domain to_row
to_domain-to_row r = refl

-- A search by id among the values is a look-up.
pub find-values :
    (id : String) (m : List (String × ProcessingRequest))
    → All (λ e. e.1.processing_request_id ≡ e.0) m
    → find (λ r. r.processing_request_id == id) (values m) ≡ get id m
unfolding values get
find-values id [] h = refl
find-values id ((k, r) ∷ m) (e, h) = ground (arith, e, ap (◌== id) e, find-values id m h)

pub get_absent :
    {V : Type 0} (k : String) (m : List (String × V)) → has k m ≡ false → get k m ≡ none
unfolding get has
get_absent k [] h = refl
get_absent k ((i, w) ∷ m) h = ground (arith, get_absent k m)

-- So is a search by id and owner, where the ids are distinct.
pub find_owned-values :
    (id owner : String) (m : List (String × ProcessingRequest))
    → IsKeyed m
    → find (λ r. r.processing_request_id == id && r.owner_user_id == owner) (values m)
      ≡ owned_or_none owner (get id m)
unfolding values get has
find_owned-values id owner [] h = refl
find_owned-values id owner ((k, r) ∷ m) h = ground (
  arith,
  h.0.0,
  ap (◌== id) h.0.0,
  find_owned-values id owner m (h.0.1, h.1.1),
  eq_iff k id,
  get_absent id m,
  get_absent k m,
)

pub get-event_row :
    (id : String) (evs : List (String × String))
    → get id (map event_row evs) ≡ map_option id_column (get id evs)
unfolding get
get-event_row id [] = refl
get-event_row id ((k, r) ∷ evs) = ground (arith, get-event_row id evs)

pub has-event_row :
    (id : String) (evs : List (String × String)) → has id (map event_row evs) ≡ has id evs
unfolding has
has-event_row id [] = refl
has-event_row id ((k, r) ∷ evs) = ground (arith, has-event_row id evs)

-- A key that is not there is set at the end.
pub set_new :
    {V : Type 0} (k : String) (v : V) (m : List (String × V))
    → has k m ≡ false
    → set k v m ≡ m ++ (k, v) ∷ []
unfolding set has
set_new k v [] h = refl
set_new k v ((i, w) ∷ m) h = ground (arith, set_new k v m)

pub values-append : {V : Type 0} (m n : List (String × V)) → values (m ++ n) ≡ values m ++ values n
unfolding values
values-append [] n = refl
values-append ((k, v) ∷ m) n = ap (v ∷◌) (values-append m n)

replace_row_absent :
    (r : ProcessingRequest) (m : List (String × ProcessingRequest))
    → All (λ e. e.1.processing_request_id ≡ e.0) m
    → has r.processing_request_id m ≡ false
    → replace_row (to_row r) (map to_row (values m)) ≡ map to_row (values m)
unfolding values has replace_row to_row
replace_row_absent r [] h absent = refl
replace_row_absent r ((k, q) ∷ m) h absent =
    ground (arith, h.0, ap (◌== r.processing_request_id) h.0, replace_row_absent r m h.1)

-- Setting a request under its id replaces its row.
pub replace_row-values :
    (r before : ProcessingRequest) (m : List (String × ProcessingRequest))
    → All (λ e. e.1.processing_request_id ≡ e.0) m
    → IsDistinct m
    → get r.processing_request_id m ≡ some before
    → map to_row (values (set r.processing_request_id r m))
      ≡ replace_row (to_row r) (map to_row (values m))
unfolding values get set has replace_row to_row
replace_row-values r before [] h d g = ground arith
replace_row-values r before ((k, q) ∷ m) h d g = ground (
  arith,
  h.0,
  ap (◌== r.processing_request_id) h.0,
  replace_row-values r before m h.1 d.1,
  eq_iff k r.processing_request_id,
  replace_row_absent r m h.1,
)
