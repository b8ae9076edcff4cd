-- ===== src/Notify/Filter.antt =====
-- internal/notify/filter.go. A method returns the new filter beside its result. The map `last` is
-- keyed by `rate_key`; a held event carries the number of the timer that `AfterFunc` armed for it,
-- so that the comparison of pointers in `release` is one of numbers. The calls of the `OnReady`
-- callback are the list of events that a method returns.
use better_nm.Prelude.{
  ℕ, ◌+◌, String, List, [], ◌∷◌, Bool, true, false, not, none, some, Assoc, lookup, insert, erase,
  length, ltb, leb, ◌==◌, if◌then◌else◌,
}
use better_nm.Core.Event.{Event, EventType, connected, disconnected, secret_needed}
use better_nm.Notify.Policy.{Policy, is_enabled, is_muted}
use better_nm.Notify.RateKey.{rate_key}

pub record Held : Type 0 where
  pub event : Event
  pub timer : ℕ

pub record Filter : Type 0 where
  pub policy : Policy
  pub on_ready : Bool
  pub held : Assoc Held
  pub last : Assoc ℕ
  pub next_timer : ℕ  -- the timer that `AfterFunc` arms next

unfoldable pub new_filter : Policy → Filter
new_filter p = record { policy = p; on_ready = false; held = []; last = []; next_timer = 0 }

unfoldable pub set_on_ready : Bool → Filter → Filter
set_on_ready registered f = record f { on_ready = registered }

-- `now.Sub(last) < RateLimit`, with the subtraction moved to the other side
unfoldable pub limited : Filter → Event → ℕ → Bool
limited f e now = if leb f.policy.rate_limit 0 then false else elim (lookup (rate_key e) f.last) [
  | none ↦ false
  | some last ↦ ltb now (last + f.policy.rate_limit)
]

unfoldable pub record_at : Event → ℕ → Filter → Filter
record_at e now f = record f { last = insert (rate_key e) now f.last }

abbrev pub is_secret_needed : EventType → Bool
is_secret_needed secret_needed = true
is_secret_needed _ = false

-- `case core.EventConnected`
unfoldable pub allow_connected : Event → ℕ → Filter → Filter × Bool
unfolding record_at
allow_connected e now f =
    if leb f.policy.debounce 0
    then (record_at e now f, true)
    else elim (lookup e.network_key f.held) [
      | some h ↦ (f, false)
      | none ↦ (
        record f {
          held = insert e.network_key (record { event = e; timer = f.next_timer }) f.held;
          next_timer = f.next_timer + 1;
        },
        false,
      )
    ]

-- `case core.EventDisconnected`, and the lines behind the `switch`
unfoldable pub allow_disconnected : Event → ℕ → Filter → Filter × Bool
unfolding record_at
allow_disconnected e now f = elim (lookup e.network_key f.held) [
  | some h ↦ (record f { held = erase e.network_key f.held }, false)
  | none ↦ (record_at e now f, true)
]

unfoldable pub allow_switch : EventType → Event → ℕ → Filter → Filter × Bool
unfolding allow_connected allow_disconnected record_at
allow_switch connected e now f = allow_connected e now f
allow_switch disconnected e now f = allow_disconnected e now f
allow_switch _ e now f = (record_at e now f, true)

unfoldable pub allow : Event → ℕ → Filter → Filter × Bool
unfolding allow_switch
allow e now f =
    if not (is_enabled f.policy e.type)
    then (f, false)
    else if is_secret_needed e.type
    then (f, true)
    else if is_muted f.policy e.network_key
    then (f, false)
    else if limited f e now
    then (f, false)
    else allow_switch e.type e now f

-- The loop of `Flush` over the held events.
unfoldable pub flush_held : Assoc Held → ℕ → Filter → Filter × List Event
unfolding record_at
flush_held [] now f = (f, [])
flush_held ((key, h) ∷ rest) now f =
    let (f', ready) =
      flush_held rest now (record_at h.event now (record f { held = erase key f.held })) in
    (f', h.event ∷ ready)

unfoldable pub flush : ℕ → Filter → Filter × List Event
unfolding flush_held
flush now f = let (f', ready) = flush_held f.held now f in (f', if f'.on_ready then ready else [])

unfoldable pub pending : Filter → ℕ
pending f = length f.held

-- `release(key, h)`, the callback of timer number `timer`
unfoldable pub release : String → ℕ → ℕ → Filter → Filter × List Event
unfolding record_at
release key timer now f = elim (lookup key f.held) [
  | none ↦ (f, [])
  | some h ↦
      if h.timer == timer
      then (
        record_at h.event now (record f { held = erase key f.held }),
        if f.on_ready then h.event ∷ [] else [],
      )
      else (f, [])
]
