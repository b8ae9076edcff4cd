-- ===== src/Notify/Waiting.antt =====
-- internal/notify/filter.go: what leaves a held event alone.
use better_nm.Prelude.{
  ℕ, String, List, [], ◌∷◌, Bool, true, false, ◌&&◌, some, lookup, All, ◌≡◌, arith, eq_iff, str_eq,
  lookup-insert, lookup-erase, ◌==◌,
}
use better_nm.Core.Event.{Event, EventType, connected, disconnected}
use better_nm.Notify.Filter.{
  Filter, Held, record_at, allow_connected, allow_disconnected, allow_switch, allow, release,
}
use better_nm.Notify.Trace.{Call, allow_call, release_call, flush_call, call, Log, log_all, run}

abbrev is_disconnected : EventType → Bool
is_disconnected disconnected = true
is_disconnected _ = false

-- The call is not about what is held for the key: no disconnected event of it, not the callback of
-- its timer, and no flush.
abbrev pub IsIdle : String → ℕ → Call → Type 0
IsIdle key timer (allow_call e) = (is_disconnected e.type && str_eq e.network_key key) ≡ false
IsIdle key timer (release_call k t) = (str_eq k key && (t == timer)) ≡ false
IsIdle key timer flush_call = ⊥

module _ (key : String) (h : Held) where
  abbrev Waits : Filter → Type 0
  Waits f = lookup key f.held ≡ some h

  switch-Waits :
      (f : Filter) (t : EventType) (e : Event) (now : ℕ)
      → (is_disconnected t && str_eq e.network_key key) ≡ false
      → Waits f
      → Waits (allow_switch t e now f).0
  unfolding allow_switch allow_connected allow_disconnected record_at
  switch-Waits f connected e now idle at =
      let arm : Held = record { event = e; timer = f.next_timer } in
      ground (arith, at, lookup-insert e.network_key key arm f.held, eq_iff e.network_key key)
  switch-Waits f disconnected e now idle at =
      ground (arith, at, idle, lookup-erase e.network_key key f.held)
  switch-Waits f _ e now idle at = at

  allow-Waits :
      (f : Filter) (e : Event) (now : ℕ)
      → (is_disconnected e.type && str_eq e.network_key key) ≡ false
      → Waits f
      → Waits (allow e now f).0
  unfolding allow
  allow-Waits f e now idle at = ground (arith, at, switch-Waits f e.type e now idle at)

  release-Waits :
      (f : Filter) (k : String) (t now : ℕ)
      → (str_eq k key && (t == h.timer)) ≡ false
      → Waits f
      → Waits (release k t now f).0
  unfolding release record_at
  release-Waits f k t now idle at =
      ground (arith, at, idle, lookup-erase k key f.held, eq_iff k key)

  call-Waits :
      (f : Filter) (c : Call) (now : ℕ) → IsIdle key h.timer c → Waits f → Waits (call c now f).0
  unfolding call
  call-Waits f (allow_call e) now idle at = allow-Waits f e now idle at
  call-Waits f (release_call k t) now idle at = release-Waits f k t now idle at
  call-Waits f flush_call now idle at = absurd idle

  pub run-Waits :
      (calls : List (ℕ × Call)) (f : Filter) (log : Log)
      → All (λ c. IsIdle key h.timer c.1) calls
      → Waits f
      → Waits (run calls f log).0
  unfolding run
  run-Waits [] f log idle at = at
  run-Waits ((now, c) ∷ calls) f log (i, idle) at =
      run-Waits calls (call c now f).0 (log_all now (call c now f).1 log) idle
        (call-Waits f c now i at)
