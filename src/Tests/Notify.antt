-- ===== src/Tests/Notify.antt =====
-- The notifier at concrete events.
use better_nm.Prelude.{
  ℕ, ◌*◌, List, [], ◌∷◌, true, false, none, some, lookup, All, ◌≡◌, refl, arith, leb,
}
use better_nm.Core.Event.{Event, EventType, connected, disconnected, secret_needed}
use better_nm.Notify.Policy.{default_policy, second, is_enabled, is_muted, mem_text}
use better_nm.Notify.RateKey.{rate_key}
use better_nm.Notify.Filter.{
  Filter, Held, new_filter, set_on_ready, limited, allow_switch, allow, release,
}
use better_nm.Notify.Trace.{Call, call, allow_call, release_call, flush_call, run, IsTimed}
use better_nm.Notify.Spacing.{run-Spaced}
use better_nm.Notify.Spaced.{Spaced}
use better_nm.Notify.Notable.{IsNotable, run-IsNotable}
use better_nm.Notify.Debounce.{Passes, flap_silent, limited_flap}
use better_nm.Notify.Waiting.{IsIdle}
use better_nm.Notify.HeldOnce.{after_calls, held_once}

abbrev home : EventType → Event
home t = record {
  time = 0;
  type = t;
  network_key = "wifi:home";
  title = "";
  body = "";
  urgency = "";
  extra = [];
}

-- A flap, a prompt, a connect that comes through, and one that a flush hands out.
abbrev calls : List (ℕ × Call)
calls =
    (1 * second, allow_call (home connected))
    ∷ (2 * second, allow_call (home disconnected))
    ∷ (3 * second, allow_call (home secret_needed))
    ∷ (4 * second, allow_call (home connected))
    ∷ (9 * second, release_call "wifi:home" 1)
    ∷ (12 * second, allow_call (home disconnected))
    ∷ (50 * second, allow_call (home connected))
    ∷ (51 * second, flush_call)
    ∷ []

calls-IsTimed : IsTimed 0 calls
calls-IsTimed = ground arith

run-Spaced_example :
    Spaced default_policy.rate_limit
      (run calls (set_on_ready true (new_filter default_policy)) []).1
run-Spaced_example = run-Spaced default_policy true calls calls-IsTimed

run-IsNotable_example :
    All
      (λ d. IsNotable default_policy d.1)
      (run calls (set_on_ready true (new_filter default_policy)) []).1
run-IsNotable_example = run-IsNotable default_policy true calls

-- A filter that nothing was delivered by yet, and one that holds a connected event.
abbrev empty : Filter
empty = record { policy = default_policy; on_ready = true; held = []; last = []; next_timer = 0 }

abbrev held_home : Held
held_home = record { event = home connected; timer = 0 }

abbrev holding : Filter
holding = record empty { held = ("wifi:home", held_home) ∷ []; next_timer = 1 }

abbrev recent : Filter
recent = record holding { last = (rate_key (home disconnected), second) ∷ [] }

disconnect-Passes : Passes (home disconnected) (2 * second) holding
unfolding is_enabled is_muted mem_text limited default_policy lookup rate_key
disconnect-Passes = record { on = refl; heard = refl; free = refl }

held_there : lookup "wifi:home" holding.held ≡ some held_home
unfolding lookup
held_there = refl

still_limited : limited recent (home disconnected) (2 * second) ≡ true
unfolding limited default_policy lookup rate_key
still_limited = refl

debounced : leb default_policy.debounce 0 ≡ false
unfolding default_policy
debounced = refl

flap_silent_example :
    let (f, passed) = allow (home disconnected) (2 * second) holding in
    (passed ≡ false)
    × (f.last ≡ [])
    × (lookup "wifi:home" f.held ≡ none)
    × (release "wifi:home" 0 (6 * second) f ≡ (f, []))
flap_silent_example =
    flap_silent (home disconnected) (2 * second) (6 * second) holding held_home refl
      disconnect-Passes held_there

limited_flap_example :
    (allow (home disconnected) (2 * second) recent ≡ (recent, false))
    × ((release "wifi:home" 0 (6 * second) (allow (home disconnected) (2 * second) recent).0).1
        ≡ home connected ∷ [])
limited_flap_example =
    limited_flap (home disconnected) (2 * second) (6 * second) recent held_home refl still_limited
      refl held_there

-- A prompt and another network's events before; a second connect between; and the timer again after.
abbrev earlier_calls : List (ℕ × Call)
earlier_calls = (second, allow_call (home secret_needed)) ∷ []

abbrev idle_calls : List (ℕ × Call)
idle_calls = (3 * second, allow_call (home connected)) ∷ ((4 * second, release_call "lan" 0) ∷ [])

abbrev later_calls : List (ℕ × Call)
later_calls = (9 * second, allow_call (home disconnected)) ∷ ((9 * second, flush_call) ∷ [])

prompted-Passes : Passes (home connected) (2 * second) (after_calls default_policy earlier_calls)
unfolding is_enabled is_muted mem_text limited default_policy lookup rate_key run call allow
    allow_switch new_filter set_on_ready
prompted-Passes = record { on = refl; heard = refl; free = refl }

none_held_yet : lookup "wifi:home" (after_calls default_policy earlier_calls).held ≡ none
unfolding is_enabled is_muted mem_text limited default_policy lookup rate_key run call allow
    allow_switch new_filter set_on_ready
none_held_yet = refl

idle_calls-IsIdle :
    All
      (λ c. IsIdle "wifi:home" (after_calls default_policy earlier_calls).next_timer c.1)
      idle_calls
idle_calls-IsIdle = (refl, (refl, tt))

held_once_example :
    let f = after_calls default_policy earlier_calls in
    let (f₁, passed) = allow (home connected) (2 * second) f in
    let f₂ = (run idle_calls f₁ []).0 in
    let (f₃, out) = release "wifi:home" f.next_timer (7 * second) f₂ in
    let f₄ = (run later_calls f₃ []).0 in
    (passed ≡ false)
    × (out ≡ home connected ∷ [])
    × (release "wifi:home" f.next_timer (9 * second) f₄ ≡ (f₄, []))
held_once_example =
    held_once default_policy earlier_calls idle_calls later_calls (home connected) (2 * second)
      (7 * second) (9 * second) refl debounced prompted-Passes none_held_yet idle_calls-IsIdle
