-- ===== src/Notify/Trace.antt =====
-- A life of a filter: calls of `Allow`, timer callbacks and flushes in any order, at times that do
-- not fall, with the log of what reached the user.
use better_nm.Prelude.{ℕ, ◌≤◌, String, List, [], ◌∷◌, if◌then◌else◌}
use better_nm.Core.Event.{Event}
use better_nm.Notify.Filter.{Filter, allow, release, flush}

-- `release key timer` may run at any time, also for a timer that was stopped or is not due.
pub data Call : Type 0 where
  allow_call : Event → Call
  release_call : String → ℕ → Call
  flush_call : Call

-- The events that a call hands to the user.
unfoldable pub call : Call → ℕ → Filter → Filter × List Event
call (allow_call e) now f = let (f', passed) = allow e now f in (f', if passed then e ∷ [] else [])
call (release_call key timer) now f = release key timer now f
call flush_call now f = flush now f

-- Deliveries, newest first.
abbrev pub Log : Type 0
Log = List (ℕ × Event)

abbrev pub log_all : ℕ → List Event → Log → Log
log_all now [] log = log
log_all now (e ∷ es) log = log_all now es ((now, e) ∷ log)

unfoldable pub run : List (ℕ × Call) → Filter → Log → Filter × Log
run [] f log = (f, log)
run ((now, c) ∷ calls) f log = let (f', out) = call c now f in run calls f' (log_all now out log)

-- The clock does not run backwards.
abbrev pub IsTimed : ℕ → List (ℕ × Call) → Type 0
IsTimed start [] = Unit
IsTimed start ((now, c) ∷ calls) = (start ≤ now) × IsTimed now calls
