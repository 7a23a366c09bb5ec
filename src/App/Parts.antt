-- ===== src/App/Parts.antt =====
-- The use cases of src/application over a part of the state do what they do over that part alone.
use processing_catalog.UseCase.Delivery.Spec.{Event, accepted, started, completed, failed, dispatch}
use processing_catalog.UseCase.Create
use processing_catalog.UseCase.Create.{CreateInput}
use processing_catalog.App.Shared.{repository_on, unit_of_work_on, on_part, first_part, second_part}
use processing_catalog.Prelude.{◌≡◌, String, ℕ, arith}
use processing_catalog.Repository.{Repository, UnitOfWork}

pub dispatch_on_second :
    {A S : Type 0} (r : Repository S) (u : UnitOfWork S) (e : Event) (a : A) (s : S)
    → dispatch (repository_on second_part r) (unit_of_work_on second_part u) e (a, s)
      ≡ on_part second_part (dispatch r u e) (a, s)
unfolding dispatch on_part
dispatch_on_second r u (accepted attempt_uuid event_uuid now input) a s = ground arith
dispatch_on_second r u (started now input) a s = ground arith
dispatch_on_second r u (completed event_uuid now input) a s = ground arith
dispatch_on_second r u (failed event_uuid now input) a s = ground arith

pub dispatch_on_first :
    {S B : Type 0} (r : Repository S) (u : UnitOfWork S) (e : Event) (s : S) (b : B)
    → dispatch (repository_on first_part r) (unit_of_work_on first_part u) e (s, b)
      ≡ on_part first_part (dispatch r u e) (s, b)
unfolding dispatch on_part
dispatch_on_first r u (accepted attempt_uuid event_uuid now input) s b = ground arith
dispatch_on_first r u (started now input) s b = ground arith
dispatch_on_first r u (completed event_uuid now input) s b = ground arith
dispatch_on_first r u (failed event_uuid now input) s b = ground arith

pub create_on_second :
    {A S : Type 0} (r : Repository S) (u : UnitOfWork S) (uuid : String) (now : ℕ)
    (input : CreateInput) (a : A) (s : S)
    → Create.execute
        (repository_on second_part r)
        (unit_of_work_on second_part u)
        uuid
        now
        input
        (a, s)
      ≡ on_part second_part (Create.execute r u uuid now input) (a, s)
unfolding Create.execute on_part
create_on_second r u uuid now input a s = ground arith

pub create_on_first :
    {S B : Type 0} (r : Repository S) (u : UnitOfWork S) (uuid : String) (now : ℕ)
    (input : CreateInput) (s : S) (b : B)
    → Create.execute
        (repository_on first_part r)
        (unit_of_work_on first_part u)
        uuid
        now
        input
        (s, b)
      ≡ on_part first_part (Create.execute r u uuid now input) (s, b)
unfolding Create.execute on_part
create_on_first r u uuid now input s b = ground arith
