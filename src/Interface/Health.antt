-- ===== src/Interface/Health.antt =====
-- src/interface/health.controller.ts, src/infrastructure/persistence/database.health-indicator.ts
-- and src/interface/processing-request-observation.controller.ts.
use processing_catalog.Repository.{Repository}
use processing_catalog.Prelude.{
  String, Bool, Option, true, if◌then◌else◌, ℕ, some, not, false, ◌||◌, none,
}
use processing_catalog.Domain.Request.{ProcessingRequest, Status, FailureCode}
use processing_catalog.Interface.Http.{Answer, refused, not_found, answered, unhandled}
use processing_catalog.Outcome.{Result, ok, err}
use processing_catalog.IsoDate.{to_iso_string}
use processing_catalog.Text.{◌<>◌}
use Prim.Native.String.{String}

-- The data source of the indicator, if one is configured: whether it is initialized, and whether
-- `SELECT 1` succeeds.
pub record DataSource : Type 0 where
  pub is_initialized : Bool
  pub answers : Bool

unfoldable pub is_healthy : Option DataSource → Bool
is_healthy none = true
is_healthy (some source) = if not source.is_initialized then false else source.answers

pub record HealthBody : Type 0 where
  pub status : String
  pub rabbitmq : String
  pub database : String

up_or_down : Bool → String
up_or_down up = if up then "up" else "down"

-- The HTTP status and the body, which are 503 and that of the exception where one is thrown.
unfoldable pub check : Bool → Option DataSource → ℕ × HealthBody
unfolding is_healthy up_or_down
check rabbitmq source =
    if not rabbitmq || not (is_healthy source)
    then (
      503,
      record {
        status = "error";
        rabbitmq = up_or_down rabbitmq;
        database = up_or_down (is_healthy source);
      },
    )
    else (200, record { status = "ok"; rabbitmq = "up"; database = "up" })

pub record Observation : Type 0 where
  pub processing_request_id : String
  pub owner_user_id : String
  pub source_storage_key : String
  pub status : Status
  pub attempt_id : Option String
  pub zip_storage_key : Option String
  pub failure_code : Option FailureCode
  pub created_at : String
  pub updated_at : String

abbrev observation_of : ProcessingRequest → Observation
observation_of r = record {
  processing_request_id = r.processing_request_id;
  owner_user_id = r.owner_user_id;
  source_storage_key = r.source_storage_key;
  status = r.status;
  attempt_id = r.attempt_id;
  zip_storage_key = r.zip_storage_key;
  failure_code = r.failure_code;
  created_at = to_iso_string r.created_at;
  updated_at = to_iso_string r.updated_at;
}

observed : String → Result (Option ProcessingRequest) → Answer Observation
observed id (ok none) = refused (not_found ("Processing request " <> id <> " not found"))
observed id (ok (some r)) = answered 200 (observation_of r)
observed id (err e) = refused (unhandled e)

unfoldable pub find_by_id : {S : Type 0} → Repository S → String → S → Answer Observation × S
unfolding observed
find_by_id repository id s = (
  observed id (repository.find_by_processing_request_id id s).0,
  (repository.find_by_processing_request_id id s).1,
)
