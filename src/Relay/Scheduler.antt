-- ===== src/Relay/Scheduler.antt =====
-- src/infrastructure/messaging/outbox-relay.scheduler.ts as a state machine: a tick is split where it
-- awaits the drain, so that the interval may fire again meanwhile.
use processing_catalog.Prelude.{
  false, arith, ◌≡◌, Bool, if◌then◌else◌, not, ℕ, true, ◌-◌, ◌||◌, ◌<◌, ◌+◌,
}

-- The fields of the scheduler, and how many calls of `drain` have not settled.
pub record Schedule : Type 0 where
  pub has_relay : Bool
  pub timer : Bool
  pub draining : Bool
  pub running : ℕ

-- A new scheduler, with or without a relay.
abbrev pub new_schedule : Bool → Schedule
new_schedule relay = record { has_relay = relay; timer = false; draining = false; running = 0 }

unfoldable pub on_application_bootstrap : Schedule → Schedule
on_application_bootstrap s = if not s.has_relay then s else record s { timer = true }

unfoldable pub on_module_destroy : Schedule → Schedule
on_module_destroy s = if s.timer then record s { timer = false } else s

-- `tick` up to its `await`
unfoldable pub begin_tick : Schedule → Schedule
begin_tick s =
    if not s.has_relay || s.draining
    then s
    else record s { draining = true; running = s.running + 1 }

-- The drain settles, whichever way, and `finally` runs.
unfoldable pub settle_tick : Schedule → Schedule
settle_tick s = record s { draining = false; running = s.running - 1 }

-- What can happen next: the interval fires while it is set, and anyone may call `tick`.
pub data Turn : Schedule → Schedule → Type 0 where
  bootstraps : {s : Schedule} → Turn s (on_application_bootstrap s)
  destroys : {s : Schedule} → Turn s (on_module_destroy s)
  fires : {s : Schedule} → s.timer ≡ true → Turn s (begin_tick s)
  calls : {s : Schedule} → Turn s (begin_tick s)
  settles : {s : Schedule} → 0 < s.running → Turn s (settle_tick s)

pub data Turns : Schedule → Schedule → Type 0 where
  start : {s : Schedule} → Turns s s
  next : {a s t : Schedule} → Turns a s → Turn s t → Turns a t

-- A drain runs exactly while `draining` is set, alone, and only if there is a relay.
abbrev pub IsExclusive : Schedule → Type 0
IsExclusive s =
    (s.running ≡ (if s.draining then 1 else 0))
    × (s.has_relay ≡ false → (s.running ≡ 0) × (s.timer ≡ false))

Turn-IsExclusive : {s t : Schedule} → Turn s t → IsExclusive s → IsExclusive t
unfolding on_application_bootstrap on_module_destroy begin_tick settle_tick
Turn-IsExclusive (bootstraps {s}) h = ground (arith, h)
Turn-IsExclusive (destroys {s}) h = ground (arith, h)
Turn-IsExclusive (fires {s} due) h = ground (arith, h)
Turn-IsExclusive (calls {s}) h = ground (arith, h)
Turn-IsExclusive (settles {s} some_runs) h = ground (arith, h, some_runs)

-- However the interval fires, drains settle and `tick` is called, at most one drain of the scheduler
-- runs at a time, exactly while `draining` is set; without a relay no interval is set and none runs.
pub Turns-IsExclusive : (relay : Bool) {s : Schedule} → Turns (new_schedule relay) s → IsExclusive s
Turns-IsExclusive relay start = ground arith
Turns-IsExclusive relay (next before turn) = Turn-IsExclusive turn (Turns-IsExclusive relay before)
