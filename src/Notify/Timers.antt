-- ===== src/Notify/Timers.antt =====
-- internal/notify/filter.go: the timers of held events, over any calls.
use better_nm.Prelude.{
  ℕ, ◌+◌, ◌≤◌, String, List, [], ◌∷◌, true, some, Assoc, lookup, insert, erase, ◌≡◌, inl, inr, refl,
  arith, leb, lookup-insert, lookup-erase, str_eq, Bool-cases, Option-cases, ◌==◌,
}
use better_nm.Core.Event.{Event, EventType, connected, disconnected}
use better_nm.Notify.Policy.{Policy, is_enabled, is_muted}
use better_nm.Notify.Filter.{
  Filter, Held, new_filter, set_on_ready, record_at, is_secret_needed, limited, allow_disconnected,
  allow_switch, allow, flush_held, flush, release,
}
use better_nm.Notify.Trace.{Call, allow_call, release_call, flush_call, call, Log, log_all, run}

-- A property of the number of the next timer, a key and the number of the timer of its held event.
module _ (p : Policy) (low : ℕ) (P : ℕ → String → ℕ → Type 0) where
  pub record Timers (f : Filter) : Type 0 where
    pub policy : f.policy ≡ p
    pub ready : f.on_ready ≡ true
    pub armed : low ≤ f.next_timer
    pub held : (k : String) (h : Held) → lookup k f.held ≡ some h → P f.next_timer k h.timer

  Timers-record : {f : Filter} (e : Event) (now : ℕ) → Timers f → Timers (record_at e now f)
  unfolding record_at
  Timers-record e now g = record {
    policy = g.policy;
    ready = g.ready;
    armed = g.armed;
    held = g.held;
  }

  Timers-erase :
      {f : Filter} (key : String) → Timers f → Timers (record f { held = erase key f.held })
  Timers-erase {f} key g = record {
    policy = g.policy;
    ready = g.ready;
    armed = g.armed;
    held = λ k h e. g.held k h (ground (arith, lookup-erase key k f.held));
  }

  pub start-Timers : low ≤ 0 → Timers (set_on_ready true (new_filter p))
  unfolding new_filter set_on_ready lookup
  start-Timers none_yet = record {
    policy = refl;
    ready = refl;
    armed = none_yet;
    held = λ k h e. absurd (ground arith);
  }

  -- The property holds of an event that is held from now on, and stays when another timer is armed.
  module _ (new : (n : ℕ) (k : String) → low ≤ n → P (n + 1) k n)
      (later : (n : ℕ) (k : String) (t : ℕ) → P n k t → P (n + 1) k t) where
    Timers-hold :
        {f : Filter} (e : Event)
        → Timers f
        → Timers (record f {
          held = insert e.network_key (record { event = e; timer = f.next_timer }) f.held;
          next_timer = f.next_timer + 1;
        })
    Timers-hold {f} e g =
        let arm : Held = record { event = e; timer = f.next_timer } in
        record {
          policy = g.policy;
          ready = g.ready;
          armed = omega (arith, g.armed);
          held = λ k h at. elim (Bool-cases (str_eq e.network_key k)) [
            | inl same ↦
                let is : h ≡ arm =
                  ground (arith, lookup-insert e.network_key k arm f.held, same, at) in
                rw is (new f.next_timer k g.armed)
            | inr other ↦
                later f.next_timer k h.timer
                  (g.held k h (ground (arith, lookup-insert e.network_key k arm f.held, other, at)))
          ];
        }

    switch-Timers :
        {f : Filter} (t : EventType) (e : Event) (now : ℕ)
        → Timers f
        → Timers (allow_switch t e now f).0
    unfolding allow_switch
    switch-Timers {f} connected e now g = elim (Bool-cases (leb f.policy.debounce 0)) [
      | inl off ↦ rw off (Timers-record e now g)
      | inr on ↦ rw on (elim (Option-cases (lookup e.network_key f.held)) [
        | inl free ↦ rw (free, allow_switch) (Timers-hold e g)
        | inr (h, at) ↦ rw (at, allow_switch) g
      ])
    ]
    switch-Timers {f} disconnected e now g = elim (Option-cases (lookup e.network_key f.held)) [
      | inl free ↦ rw (free, allow_disconnected) (Timers-record e now g)
      | inr (h, at) ↦ rw (at, allow_disconnected) (Timers-erase e.network_key g)
    ]
    switch-Timers _ e now g = Timers-record e now g

    allow-Timers : {f : Filter} (e : Event) (now : ℕ) → Timers f → Timers (allow e now f).0
    unfolding allow
    allow-Timers {f} e now g = elim (Bool-cases (is_enabled f.policy e.type)) [
      | inr off ↦ rw off g
      | inl on ↦ rw on (elim (Bool-cases (is_secret_needed e.type)) [
        | inl prompt ↦ rw prompt g
        | inr plain ↦ rw plain (elim (Bool-cases (is_muted f.policy e.network_key)) [
          | inl muted ↦ rw muted g
          | inr heard ↦ rw heard (elim (Bool-cases (limited f e now)) [
            | inl soon ↦ rw soon g
            | inr free ↦ rw free (switch-Timers e.type e now g)
          ])
        ])
      ])
    ]

    release-Timers :
        {f : Filter} (key : String) (timer now : ℕ) → Timers f → Timers (release key timer now f).0
    unfolding release
    release-Timers {f} key timer now g = elim (Option-cases (lookup key f.held)) [
      | inl free ↦ rw (free, release) g
      | inr (h, at) ↦
          rw (at, release)
            (elim (Bool-cases (h.timer == timer)) [
              | inr stale ↦ rw stale g
              | inl mine ↦ rw mine (Timers-record h.event now (Timers-erase key g))
            ])
    ]

    flush_held-Timers :
        (m : Assoc Held) {f : Filter} (now : ℕ) → Timers f → Timers (flush_held m now f).0
    unfolding flush_held
    flush_held-Timers [] now g = g
    flush_held-Timers ((key, h) ∷ m) now g =
        flush_held-Timers m now (Timers-record h.event now (Timers-erase key g))

    call-Timers : {f : Filter} (c : Call) (now : ℕ) → Timers f → Timers (call c now f).0
    unfolding call flush
    call-Timers (allow_call e) now g = allow-Timers e now g
    call-Timers (release_call key timer) now g = release-Timers key timer now g
    call-Timers {f} flush_call now g = flush_held-Timers f.held now g

    pub run-Timers :
        (calls : List (ℕ × Call)) {f : Filter} (log : Log) → Timers f → Timers (run calls f log).0
    unfolding run
    run-Timers [] log g = g
    run-Timers ((now, c) ∷ calls) {f} log g =
        run-Timers calls (log_all now (call c now f).1 log) (call-Timers c now g)
