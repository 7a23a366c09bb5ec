-- ===== src/Catalog/Counts.antt =====
-- How many entries of the outbox announce a given step of a given request.
use processing_catalog.Prelude.{
  ℕ, suc, ◌+◌, String, ◌≡◌, Bool, false, ◌&&◌, List, [], ◌∷◌, ◌++◌, arith, ◌==◌, if◌then◌else◌,
}
use processing_catalog.Value.{Value, string, get_field}
use processing_catalog.Domain.Request.{ProcessingRequest}
use processing_catalog.Memory.Store.{OutboxEntry}
use processing_catalog.UseCase.Delivery.Spec.{Event, announce}

abbrev pub names : String → Value → Bool
names id (string s) = s == id
names id _ = false

abbrev pub is_about : String → String → OutboxEntry → Bool
is_about pattern id entry =
    entry.pattern == pattern && names id (get_field "processingRequestId" entry.payload)

unfoldable pub count : String → String → List OutboxEntry → ℕ
count pattern id [] = 0
count pattern id (entry ∷ entries) =
    let rest = count pattern id entries in if is_about pattern id entry then suc rest else rest

pub count-append :
    (pattern id : String) (xs ys : List OutboxEntry)
    → count pattern id (xs ++ ys) ≡ count pattern id xs + count pattern id ys
unfolding count
count-append pattern id [] ys = omega arith
count-append pattern id (x ∷ xs) ys = ground (arith, count-append pattern id xs ys)

-- What an event makes the Catalog publish is about the changed request alone.
pub count-announce_ne :
    (pattern id : String) (e : Event) (r : ProcessingRequest)
    → (r.processing_request_id == id) ≡ false
    → count pattern id (announce e r) ≡ 0
unfolding count get_field
count-announce_ne pattern id (Event.accepted _ _ now input) r h = ground arith
count-announce_ne pattern id (Event.started now input) r h = ground arith
count-announce_ne pattern id (Event.completed _ now input) r h = ground arith
count-announce_ne pattern id (Event.failed _ now input) r h = ground arith

-- The three patterns that the Catalog publishes.
pub counts-append :
    (id : String) (xs ys : List OutboxEntry)
    → (count "VideoValidationRequested" id (xs ++ ys)
        ≡ count "VideoValidationRequested" id xs + count "VideoValidationRequested" id ys)
      × (count "ProcessingQueued" id (xs ++ ys)
          ≡ count "ProcessingQueued" id xs + count "ProcessingQueued" id ys)
      × (count "terminal.event" id (xs ++ ys)
          ≡ count "terminal.event" id xs + count "terminal.event" id ys)
counts-append id xs ys = (
  count-append "VideoValidationRequested" id xs ys,
  count-append "ProcessingQueued" id xs ys,
  count-append "terminal.event" id xs ys,
)
