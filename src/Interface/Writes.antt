-- ===== src/Interface/Writes.antt =====
-- When POST /processing-requests (src/interface/create-processing-request.controller.ts) writes.
use processing_catalog.Prelude.{
  ℕ, String, ◌≡◌, refl, Bool, true, false, ◌⊎◌, inl, inr, nat_eq, arith,
}
use processing_catalog.Value.{Fields}
use processing_catalog.Memory.Store.{Memory, OnThrow, in_memory_repository, unit_of_work}
use processing_catalog.UseCase.Create.{execute, CreateResult, created}
use processing_catalog.UseCase.Create.Outcomes.{create_cases}
use processing_catalog.Domain.Request.{ProcessingRequest}
use processing_catalog.Outcome.{Result, ok}
use mathlib.Core.Path.{subst}
use processing_catalog.Interface.Http.{Answer, answered, refused, Checked, checked, passed}
use processing_catalog.Interface.Creation.{
  create, validate_dto, CreatedBody, Validated, use_case_input, answer_with,
}

abbrev pub is_created : Answer CreatedBody → Bool
is_created (answered status body) = nat_eq status 201
is_created (refused e) = false

module _ (policy : OnThrow) (meanwhile : Memory → Memory) (event_uuid uuid : String) (now : ℕ)
    (dto : Fields) (s : Memory) where
  abbrev pub post : Answer CreatedBody × Memory
  post = create in_memory_repository (unit_of_work policy meanwhile) event_uuid uuid now dto s

  abbrev after : Validated → Memory → Answer CreatedBody × Memory
  after fields t = answer_with (
      execute in_memory_repository (unit_of_work policy meanwhile) uuid now
        (use_case_input event_uuid dto fields) t)

  not_created :
      {out : Result CreateResult × Memory} {r : ProcessingRequest} {t : Memory}
      → out ≡ (ok (record { request = r; outcome = created }), t)
      → is_created (answer_with out).0 ≡ false
      → ⊥
  not_created e h =
      let wrong : true ≡ false = subst (λ o. is_created (answer_with o).0 ≡ false) e h in
      ground (arith, wrong)

  on_checked :
      (c : Checked Validated)
      → is_created (checked c after s).0 ≡ false
      → ((checked c after s).1 ≡ s) ⊎ ((checked c after s).1 ≡ meanwhile s)
  on_checked (Checked.failed e) h = inl refl
  on_checked (passed fields) h =
      elim (create_cases policy meanwhile uuid now (use_case_input event_uuid dto fields) s) [
        | inl kept ↦ kept
        | inr w ↦ absurd (not_created w.answer h)
      ]

  -- A creation that is not answered with 201 has written nothing, be it a replay, a conflict, a
  -- refused body or any other error, and even where the unit of work cannot roll back: the state is
  -- the one that it read, or the one that its transaction found.
  pub create-unwritten : is_created post.0 ≡ false → (post.1 ≡ s) ⊎ (post.1 ≡ meanwhile s)
  unfolding create
  create-unwritten h = on_checked (validate_dto dto) h
