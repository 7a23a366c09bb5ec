-- ===== src/Domain/History.antt =====
-- Histories of commands over the lifecycle functions of src/domain/processing-request.ts: a
-- refused command leaves the stored request as it was, any other stores what the function returned.
use processing_catalog.Prelude.{ℕ, ◌+◌, ◌≤◌, ◌<◌, String, ◌≡◌, refl, List, [], ◌∷◌, arith}
use processing_catalog.Outcome.{Result, ok, err}
use processing_catalog.Domain.Request.{
  received, queued, processing, completed, failed, Status, ProcessingRequest, CreateInput,
  create_processing_request,
}
use processing_catalog.Domain.Transitions.{Returned, same_object, new_object, request_of}
use processing_catalog.Domain.Invariant.{IsWellFormed, create-IsWellFormed}
use processing_catalog.Domain.Machine.{
  Command, perform, perform-IsWellFormed, ◌⟶◌, perform-⟶, perform_same_object, on_accepted,
  on_rejected, on_started, on_completed, on_completed_started, on_failed, on_failed_started,
}

abbrev pub stored : ProcessingRequest → Result Returned → ProcessingRequest
stored r (ok out) = request_of out
stored r (err e) = r

abbrev pub count_new : Result Returned → ℕ
count_new (ok (new_object r)) = 1
count_new _ = 0

unfoldable pub history : ProcessingRequest → List (ℕ × Command) → ProcessingRequest
history r [] = r
history r ((now, c) ∷ rest) = history (stored r (perform now c r)) rest

-- How many of the commands changed the request.
pub changes : ProcessingRequest → List (ℕ × Command) → ℕ
changes r [] = 0
changes r ((now, c) ∷ rest) =
    count_new (perform now c r) + changes (stored r (perform now c r)) rest

stored-IsWellFormed :
    (now : ℕ) (c : Command) (r : ProcessingRequest)
    → IsWellFormed r
    → IsWellFormed (stored r (perform now c r))
stored-IsWellFormed now c r w = go (perform now c r) refl
  where
    go : (out : Result Returned) → perform now c r ≡ out → IsWellFormed (stored r out)
    go (ok out) e = perform-IsWellFormed now c r out e w
    go (err x) e = w

pub history-IsWellFormed_of_IsWellFormed :
    (r : ProcessingRequest) (cs : List (ℕ × Command)) → IsWellFormed r → IsWellFormed (history r cs)
unfolding history
history-IsWellFormed_of_IsWellFormed r [] w = w
history-IsWellFormed_of_IsWellFormed r ((now, c) ∷ rest) w =
    history-IsWellFormed_of_IsWellFormed (stored r (perform now c r)) rest
      (stored-IsWellFormed now c r w)

-- Whatever commands a created request meets, in whatever order, its optional fields fit its
-- status, and its owner, e-mail and source stay filled in.
pub history-IsWellFormed :
    (uuid : String) (now : ℕ) (input : CreateInput) (r : ProcessingRequest)
    (cs : List (ℕ × Command))
    → create_processing_request uuid now input ≡ ok r
    → IsWellFormed (history r cs)
history-IsWellFormed uuid now input r cs h =
    history-IsWellFormed_of_IsWellFormed r cs (create-IsWellFormed uuid now input r h)

-- The longest path of the diagram from each status.
pub steps_left : Status → ℕ
steps_left received = 3
steps_left queued = 2
steps_left processing = 1
steps_left completed = 0
steps_left failed = 0

⟶-steps_left : {s t : Status} → s ⟶ t → steps_left t < steps_left s
unfolding steps_left
⟶-steps_left on_accepted = omega arith
⟶-steps_left on_rejected = omega arith
⟶-steps_left on_started = omega arith
⟶-steps_left on_completed = omega arith
⟶-steps_left on_completed_started = omega arith
⟶-steps_left on_failed = omega arith
⟶-steps_left on_failed_started = omega arith

stored-steps_left :
    (now : ℕ) (c : Command) (r : ProcessingRequest)
    → count_new (perform now c r) + steps_left (stored r (perform now c r)).status
      ≤ steps_left r.status
stored-steps_left now c r = go (perform now c r) refl
  where
    go :
        (out : Result Returned)
        → perform now c r ≡ out
        → count_new out + steps_left (stored r out).status ≤ steps_left r.status
    go (ok (same_object r')) e = ground (arith, perform_same_object now c r r' e)
    go (ok (new_object r')) e = omega (arith, ⟶-steps_left (perform-⟶ now c r r' e))
    go (err x) e = omega arith

-- No history changes a request more often than the longest path of the diagram allows: three
-- times from RECEIVED, and never once it is COMPLETED or FAILED.
pub changes-le-steps_left :
    (r : ProcessingRequest) (cs : List (ℕ × Command)) → changes r cs ≤ steps_left r.status
unfolding changes
changes-le-steps_left r [] = omega arith
changes-le-steps_left r ((now, c) ∷ rest) =
    omega
      (arith, stored-steps_left now c r, changes-le-steps_left (stored r (perform now c r)) rest)

-- A completed or failed request.
abbrev pub IsTerminal : Status → Type 0
IsTerminal completed = Unit
IsTerminal failed = Unit
IsTerminal _ = ⊥

not-⟶_of_IsTerminal : {s t : Status} → s ⟶ t → ¬ (IsTerminal s)
not-⟶_of_IsTerminal on_accepted h = h
not-⟶_of_IsTerminal on_rejected h = h
not-⟶_of_IsTerminal on_started h = h
not-⟶_of_IsTerminal on_completed h = h
not-⟶_of_IsTerminal on_completed_started h = h
not-⟶_of_IsTerminal on_failed h = h
not-⟶_of_IsTerminal on_failed_started h = h

stored_of_IsTerminal :
    (now : ℕ) (c : Command) (r : ProcessingRequest)
    → IsTerminal r.status
    → stored r (perform now c r) ≡ r
stored_of_IsTerminal now c r t = go (perform now c r) refl
  where
    go : (out : Result Returned) → perform now c r ≡ out → stored r out ≡ r
    go (ok (same_object r')) e = perform_same_object now c r r' e
    go (ok (new_object r')) e = absurd (not-⟶_of_IsTerminal (perform-⟶ now c r r' e) t)
    go (err x) e = refl

-- A request that is COMPLETED or FAILED stays exactly as it is, whatever commands follow.
pub history_of_IsTerminal :
    (r : ProcessingRequest) (cs : List (ℕ × Command)) → IsTerminal r.status → history r cs ≡ r
unfolding history
history_of_IsTerminal r [] t = refl
history_of_IsTerminal r ((now, c) ∷ rest) t =
    rw (stored_of_IsTerminal now c r t) (history_of_IsTerminal r rest t)
