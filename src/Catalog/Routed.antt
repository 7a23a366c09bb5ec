-- ===== src/Catalog/Routed.antt =====
-- Where the entries of the outbox are to go: src/application/event-routes.ts, over any run.
use processing_catalog.UseCase.Create.{CreateInput}
use processing_catalog.Memory.Store.{Memory, OutboxEntry, OnThrow, empty}
use processing_catalog.Memory.Recorded.{
  recorded_validation_requests, recorded_processing_queued, recorded_terminal_events,
}
use processing_catalog.UseCase.Delivery.Spec.{Event, announce, handle}
use processing_catalog.Catalog.Run.{Run, here, delivered, created}
use processing_catalog.Domain.Request.{ProcessingRequest, is_failure_code}
use processing_catalog.Catalog.Keeps.{handle_keeps}
use processing_catalog.UseCase.Create.Outcomes.{create, create_cases, validation_entry}
use processing_catalog.Value.{Fields}
use processing_catalog.Prelude.{
  filter, ◌⊎◌, All, String, ◌≡◌, List, ◌==◌, inr, All-append, ℕ, map, ◌∷◌, inl, Option-cases, ap,
  refl, [], Bool, if◌then◌else◌,
}

abbrev pub IsOn : String → String → OutboxEntry → Type 0
IsOn queue pattern entry = (entry.queue ≡ queue) × (entry.pattern ≡ pattern)

-- The table of the README: the messages of the Catalog, and the queue of each.
abbrev pub IsRouted : OutboxEntry → Type 0
IsRouted entry =
    IsOn "video-validation" "VideoValidationRequested" entry
    ⊎ IsOn "processing" "ProcessingQueued" entry
    ⊎ IsOn "notification.terminal" "terminal.event" entry

abbrev pub AreRouted : Memory → Type 0
AreRouted s = All IsRouted s.entries

announce-IsRouted : (e : Event) (r : ProcessingRequest) → All IsRouted (announce e r)
announce-IsRouted (Event.accepted a b now input) r = (inr (inl (refl, refl)), tt)
announce-IsRouted (Event.started now input) r = tt
announce-IsRouted (Event.completed b now input) r = (inr (inr (refl, refl)), tt)
announce-IsRouted (Event.failed b now input) r =
    elim (Option-cases (is_failure_code input.failure_code)) [
      | inl unknown ↦ rw unknown tt
      | inr (code, known) ↦ rw known (inr (inr (refl, refl)), tt)
    ]

handle-AreRouted :
    (policy : OnThrow) (meanwhile : Memory → Memory) (e : Event) (s : Memory)
    → AreRouted s
    → AreRouted (meanwhile s)
    → AreRouted (handle policy meanwhile e s).1
handle-AreRouted policy meanwhile e s =
    handle_keeps AreRouted e (λ id r t found c. c)
      (λ before r t found h c.
        All-append IsRouted t.entries (announce e r) c (announce-IsRouted e r))
      policy meanwhile s

create-AreRouted :
    (policy : OnThrow) (meanwhile : Memory → Memory) (uuid : String) (now : ℕ) (input : CreateInput)
    (s : Memory)
    → AreRouted s
    → AreRouted (meanwhile s)
    → AreRouted (create policy meanwhile uuid now input s).1
create-AreRouted policy meanwhile uuid now input s c d =
    elim (create_cases policy meanwhile uuid now input s) [
      | inl (inl e) ↦ rw e c
      | inl (inr e) ↦ rw e d
      | inr w ↦ rw (ap (λ out. out.1) w.answer) (
          All-append IsRouted (meanwhile s).entries (validation_entry input.event_id w.request) d
            (inl (refl, refl), tt))
    ]

Run-AreRouted : {a s : Memory} → Run a s → AreRouted a → AreRouted s
Run-AreRouted here c = c
Run-AreRouted (delivered {s} {t} policy e r q) c =
    let d = Run-AreRouted r c in handle-AreRouted policy (λ _. t) e s d (Run-AreRouted q d)
Run-AreRouted (created {s} {t} policy uuid now input r q fresh) c =
    let d = Run-AreRouted r c in
    create-AreRouted policy (λ _. t) uuid now input s d (Run-AreRouted q d)

-- The payloads of the entries that wait for a queue.
abbrev pub payloads_on : String → List OutboxEntry → List Fields
payloads_on queue entries =
    map (λ entry. entry.payload) (filter (λ entry. entry.queue == queue) entries)

-- An entry has a pattern where it waits for the queue of that pattern, and not elsewhere.
pattern_of_queue :
    (entry : OutboxEntry)
    → IsRouted entry
    → ((entry.pattern == "VideoValidationRequested") ≡ (entry.queue == "video-validation"))
      × ((entry.pattern == "ProcessingQueued") ≡ (entry.queue == "processing"))
      × ((entry.pattern == "terminal.event") ≡ (entry.queue == "notification.terminal"))
pattern_of_queue entry (inl on) = rw (on.0, on.1) (refl, refl, refl)
pattern_of_queue entry (inr (inl on)) = rw (on.0, on.1) (refl, refl, refl)
pattern_of_queue entry (inr (inr on)) = rw (on.0, on.1) (refl, refl, refl)

filter_routed :
    (p q : OutboxEntry → Bool)
    → ((entry : OutboxEntry) → IsRouted entry → p entry ≡ q entry)
    → (entries : List OutboxEntry) → All IsRouted entries
    → filter p entries ≡ filter q entries
filter_routed p q same [] h = refl
filter_routed p q same (entry ∷ entries) (h, hs) =
    rw (same entry h)
      (ap (λ es. if q entry then entry ∷ es else es) (filter_routed p q same entries hs))

-- In every state reached from the empty one, by creations and deliveries that may race, each entry
-- of the outbox is a VideoValidationRequested for video-validation, a ProcessingQueued for
-- processing, or a terminal.event for notification.terminal; and each of the three accessors of the
-- in-memory outbox answers the payloads of the entries for its one of these queues, in their order.
pub Run-IsRouted :
    {s : Memory}
    → Run empty s
    → AreRouted s
      × (recorded_validation_requests s ≡ payloads_on "video-validation" s.entries)
      × (recorded_processing_queued s ≡ payloads_on "processing" s.entries)
      × (recorded_terminal_events s ≡ payloads_on "notification.terminal" s.entries)
unfolding recorded_validation_requests recorded_processing_queued recorded_terminal_events
Run-IsRouted {s} run =
    let all = Run-AreRouted run tt in
    let payloads = map {A = OutboxEntry} {B = Fields} (λ entry. entry.payload) in
    (
      all,
      ap payloads (filter_routed _ _ (λ e h. (pattern_of_queue e h).0) s.entries all),
      ap payloads (filter_routed _ _ (λ e h. (pattern_of_queue e h).1) s.entries all),
      ap payloads (filter_routed _ _ (λ e h. (pattern_of_queue e h).2) s.entries all),
    )
