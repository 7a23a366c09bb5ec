-- ===== src/App/Wiring.antt =====
-- The providers of src/app.module.ts, and src/infrastructure/persistence/data-source.ts: what the
-- environment makes the service use. A data source, which TypeORM opens and migrates, is an entity
-- manager; `env` is process.env.
use processing_catalog.Persistence.Creation.{create_stored}
use processing_catalog.Persistence.Delivery.Handle.{handle_stored, time}
use processing_catalog.UseCase.Create
use processing_catalog.UseCase.Create.{CreateInput, CreateResult}
use processing_catalog.UseCase.Create.Outcomes.{create}
use processing_catalog.UseCase.Delivery.Spec.{Event, dispatch, handle}
use processing_catalog.Memory.Store.{Memory, in_memory_repository, unit_of_work, keeps_writes}
use processing_catalog.App.Shared.{repository_on, unit_of_work_on, on_part, first_part, second_part}
use processing_catalog.App.Parts.{
  dispatch_on_first, dispatch_on_second, create_on_first, create_on_second,
}
use processing_catalog.Repository.{Repository, UnitOfWork}
use processing_catalog.Prelude.{
  String, if◌then◌else◌, List, Option, Bool, some, false, ℕ, ◌∷◌, not, ◌≡◌, [], ◌==◌, none, arith,
  true, sym,
}
use processing_catalog.Outcome.{Result, ok, ◌>>=◌}
use processing_catalog.Persistence.Manager.{EntityManager}
use processing_catalog.Domain.Transitions.{same_text}
use processing_catalog.Domain.Request.{ProcessingRequest}
use processing_catalog.Persistence.TypeOrm.{typeorm_repository, typeorm_unit_of_work}

abbrev pub Environment : Type 0
Environment = String → Option String

-- Boolean(process.env.DATABASE_HOST)
is_truthy : Option String → Bool
is_truthy none = false
is_truthy (some text) = not (text == "")

unfoldable pub is_database_configured : Environment → Bool
unfolding is_truthy
is_database_configured env = is_truthy (env "DATABASE_HOST")

-- process.env.LOCAL_INTEGRATION === 'true'
unfoldable pub is_local_integration : Environment → Bool
is_local_integration env = same_text (env "LOCAL_INTEGRATION") (some "true")

abbrev or_default : Option String → String → String
or_default none fallback = fallback
or_default (some text) fallback = text

-- What buildDataSourceOptions reads, before Number makes the port of its text.
pub record DataSourceOptions : Type 0 where
  pub host : String
  pub port : String
  pub database : String
  pub schema : String
  pub username : String
  pub password : String

unfoldable pub build_data_source_options : Environment → DataSourceOptions
build_data_source_options env = record {
  host = or_default (env "DATABASE_HOST") "localhost";
  port = or_default (env "DATABASE_PORT") "5432";
  database = or_default (env "DATABASE_NAME") "fiapx";
  schema = or_default (env "DATABASE_SCHEMA") "catalog";
  username = or_default (env "DATABASE_USER") "catalog";
  password = or_default (env "DATABASE_PASSWORD") "catalog";
}

pub data Controller : Type 0 where
  app create_processing_request health owned_processing_requests processing_request_observation :
      Controller

unfoldable pub controllers : Environment → List Controller
unfolding is_local_integration
controllers env =
    app
    ∷ create_processing_request
    ∷ health
    ∷ owned_processing_requests
    ∷ (if is_local_integration env then processing_request_observation ∷ [] else [])

pub data EventPublisher : Type 0 where
  rabbitmq_event_publisher in_memory_event_publisher : EventPublisher

unfoldable pub event_publisher : Environment → EventPublisher
unfolding is_local_integration
event_publisher env =
    if is_local_integration env then rabbitmq_event_publisher else in_memory_event_publisher

-- `opened` is what initialize() and runMigrations() settle to.
unfoldable pub data_source :
    {S : Type 0}
    → Environment
    → (DataSourceOptions → Result (EntityManager S))
    → Result (Option (EntityManager S))
unfolding is_database_configured build_data_source_options
data_source env opened =
    if not (is_database_configured env)
    then ok none
    else opened (build_data_source_options env) >>= λ manager. ok (some manager)

-- new OutboxRelay(dataSource, connection), where there is a data source
unfoldable pub outbox_relay :
    {S R : Type 0} → (EntityManager S → R) → Option (EntityManager S) → Option R
outbox_relay new none = none
outbox_relay new (some manager) = some (new manager)

abbrev pub is_present_relay : {R : Type 0} → Option R → Bool
is_present_relay none = false
is_present_relay (some relay) = true

-- The state of the service: what the in-memory adapters hold, and the database. `meanwhile` is what
-- other executions commit to each before a transaction.
module _ {S : Type 0} (meanwhile : Memory → Memory) (between : S → S) where
  unfoldable pub provide_unit_of_work : Option (EntityManager S) → ℕ → UnitOfWork (Memory × S)
  provide_unit_of_work none now = unit_of_work_on first_part (unit_of_work keeps_writes meanwhile)
  provide_unit_of_work (some manager) now =
      unit_of_work_on second_part (typeorm_unit_of_work manager now between)

unfoldable pub provide_repository :
    {S : Type 0} → Option (EntityManager S) → ℕ → Repository (Memory × S)
provide_repository none now = repository_on first_part in_memory_repository
provide_repository (some manager) now = repository_on second_part (typeorm_repository manager now)

module _ {S : Type 0} (meanwhile : Memory → Memory) (between : S → S) where
  -- An event, and a creation, in the service as it is put together.
  unfoldable pub app_handle :
      Option (EntityManager S) → Event → Memory × S → Result ProcessingRequest × (Memory × S)
  unfolding provide_repository provide_unit_of_work
  app_handle source e =
      dispatch (provide_repository source (time e))
        (provide_unit_of_work meanwhile between source (time e)) e

  unfoldable pub app_create :
      Option (EntityManager S)
      → String
      → ℕ
      → CreateInput
      → Memory × S
      → Result CreateResult × (Memory × S)
  unfolding provide_repository provide_unit_of_work
  app_create source uuid now input =
      Create.execute (provide_repository source now)
        (provide_unit_of_work meanwhile between source now) uuid now input

  -- What the service should do with an event, and with a creation.
  abbrev pub expected :
      Option (EntityManager S) → Event → Memory × S → Result ProcessingRequest × (Memory × S)
  expected none e w =
      ((handle keeps_writes meanwhile e w.0).0, ((handle keeps_writes meanwhile e w.0).1, w.1))
  expected (some manager) e w =
      ((handle_stored manager between e w.1).0, (w.0, (handle_stored manager between e w.1).1))

  abbrev pub expected_creation :
      Option (EntityManager S)
      → String
      → ℕ
      → CreateInput
      → Memory × S
      → Result CreateResult × (Memory × S)
  expected_creation none uuid now input w = (
    (create keeps_writes meanwhile uuid now input w.0).0,
    ((create keeps_writes meanwhile uuid now input w.0).1, w.1),
  )
  expected_creation (some manager) uuid now input w = (
    (create_stored manager between uuid now input w.1).0,
    (w.0, (create_stored manager between uuid now input w.1).1),
  )

  -- What the data source is, by the environment.
  abbrev pub Configured :
      Environment
      → (DataSourceOptions → Result (EntityManager S))
      → Option (EntityManager S)
      → Type 0
  Configured env opened none = is_database_configured env ≡ false
  Configured env opened (some manager) =
      (is_database_configured env ≡ true) × (opened (build_data_source_options env) ≡ ok manager)

  configured_lem :
      (env : Environment) (opened : DataSourceOptions → Result (EntityManager S))
      (source : Option (EntityManager S))
      → data_source env opened ≡ ok source
      → Configured env opened source
  unfolding data_source
  configured_lem env opened none h = ground (arith, h)
  configured_lem env opened (some manager) h = ground (arith, h)

  -- The service that starts uses the database exactly where DATABASE_HOST is set and not empty: then
  -- an event and a creation read and write the database that was opened, and leave the in-memory
  -- adapters alone, and the outbox has a relay; else they read and write the memory, and leave the
  -- database alone, and there is no relay.
  pub app_lem :
      {R : Type 0} (new : EntityManager S → R) (env : Environment)
      (opened : DataSourceOptions → Result (EntityManager S)) (source : Option (EntityManager S))
      (m : Memory) (s : S) (e : Event) (uuid : String) (now : ℕ) (input : CreateInput)
      → data_source env opened ≡ ok source
      → Configured env opened source
        × (app_handle source e (m, s) ≡ expected source e (m, s))
        × (app_create source uuid now input (m, s) ≡ expected_creation source uuid now input (m, s))
        × (is_present_relay (outbox_relay new source) ≡ is_database_configured env)
  unfolding app_handle app_create handle handle_stored outbox_relay on_part
  app_lem new env opened none m s e uuid now input h =
      let configured = configured_lem env opened none h in
      (
        configured,
        dispatch_on_first in_memory_repository (unit_of_work keeps_writes meanwhile) e m s,
        create_on_first in_memory_repository (unit_of_work keeps_writes meanwhile) uuid now input m
            s,
        sym configured,
      )
  app_lem new env opened (some manager) m s e uuid now input h =
      let configured = configured_lem env opened (some manager) h in
      (
        configured,
        dispatch_on_second (typeorm_repository manager (time e))
            (typeorm_unit_of_work manager (time e) between) e m s,
        create_on_second (typeorm_repository manager now) (typeorm_unit_of_work manager now between)
            uuid now input m s,
        sym configured.0,
      )
