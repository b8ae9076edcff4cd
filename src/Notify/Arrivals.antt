-- ===== src/Notify/Arrivals.antt =====
-- A call of `Allow` keeps deliveries spaced.
use better_nm.Prelude.{
  ℕ, ◌+◌, ◌∷◌, true, false, lookup, insert, ◌≡◌, ◌≢◌, inl, inr, refl, ap, sym, ◌∙◌, arith, eq_iff,
  leb, lookup-insert, insert-Distinct, Bool-cases, Option-cases, str_eq,
}
use better_nm.Core.Event.{Event, EventType, connected, disconnected}
use better_nm.Notify.Policy.{Policy, is_enabled, is_muted}
use better_nm.Notify.Filter.{
  Filter, Held, record_at, is_secret_needed, limited, allow_connected, allow_disconnected,
  allow_switch, allow,
}
use better_nm.Notify.Trace.{Log}
use better_nm.Notify.Spaced.{
  Good-record, Clear, Good, Good-erase, logged, fresh_of_type, limited-Clear,
}

module _ (p : Policy) where
  module _ (e : Event) (now : ℕ) {f : Filter} {log : Log} where
    hold-Good :
        (timer next : ℕ)
        → e.type ≡ connected
        → leb f.policy.debounce 0 ≡ false
        → Clear p f.last e now
        → Good p f log now
        → Good p
            (record f {
              held = insert e.network_key (record { event = e; timer = timer }) f.held;
              next_timer = next;
            })
            log
            now
    hold-Good timer next is on clear g =
        let new : Held = record { event = e; timer = timer } in
        record {
          policy = g.policy;
          distinct = insert-Distinct e.network_key new f.held g.distinct;
          covers = g.covers;
          past = g.past;
          waits = λ k h at. elim (Bool-cases (str_eq e.network_key k)) [
            | inl same ↦
                let eq : new ≡ h = ground (arith, lookup-insert e.network_key k new f.held) in
                let key : e.network_key ≡ k = (eq_iff e.network_key k).0 same in
                rw (← eq) (record {
                  type = is;
                  key = key;
                  debounced = ap (λ (q : Policy). leb q.debounce 0) (sym g.policy) ∙ on;
                  clear = clear;
                })
            | inr other ↦ g.waits k h (ground (arith, lookup-insert e.network_key k new f.held))
          ];
          spaced = g.spaced;
        }

    allow_connected-Good :
        e.type ≡ connected
        → Clear p f.last e now
        → Good p f log now
        → let (f', passed) = allow_connected e now f in Good p f' (logged p passed now e log) now
    unfolding allow_connected
    allow_connected-Good is clear g = elim (Bool-cases (leb f.policy.debounce 0)) [
      | inl off ↦
          let on : leb p.debounce 0 ≡ true =
            ap (λ (q : Policy). leb q.debounce 0) (sym g.policy) ∙ off in
          rw off (
            Good-record p e now true (rw is) clear
              (λ k h at. absurd (ground (arith, (g.waits k h at).debounced))) g)
      | inr on ↦ rw on (elim (Option-cases (lookup e.network_key f.held)) [
        | inl free ↦ rw free (hold-Good f.next_timer (f.next_timer + 1) is on clear g)
        | inr (h, at) ↦ rw at g
      ])
    ]

    record-Good :
        e.type ≢ connected
        → is_secret_needed e.type ≡ false
        → Clear p f.last e now
        → Good p f log now
        → Good p (record_at e now f) (logged p true now e log) now
    record-Good ne plain clear g = Good-record p e now true plain clear (fresh_of_type p e ne g) g

    allow_disconnected-Good :
        e.type ≡ disconnected
        → Clear p f.last e now
        → Good p f log now
        → let (f', passed) = allow_disconnected e now f in Good p f' (logged p passed now e log) now
    unfolding allow_disconnected
    allow_disconnected-Good is clear g = elim (Option-cases (lookup e.network_key f.held)) [
      | inl free ↦ rw (free, allow_disconnected) (record-Good (λ c. cc) (rw is) clear g)
      | inr (h, at) ↦ rw (at, allow_disconnected) (Good-erase p e.network_key g)
    ]

    allow_switch-Good :
        (t : EventType)
        → e.type ≡ t
        → is_secret_needed t ≡ false
        → Clear p f.last e now
        → Good p f log now
        → let (f', passed) = allow_switch t e now f in Good p f' (logged p passed now e log) now
    unfolding allow_switch
    allow_switch-Good connected is plain clear g = allow_connected-Good is clear g
    allow_switch-Good disconnected is plain clear g = allow_disconnected-Good is clear g
    allow_switch-Good _ is plain clear g = record-Good (λ c. cc) (rw is plain) clear g

    -- A prompt is logged p and changes nothing.
    Good-prompt : is_secret_needed e.type ≡ true → Good p f log now → Good p f ((now, e) ∷ log) now
    Good-prompt prompt g = record {
      policy = g.policy;
      distinct = g.distinct;
      covers = (λ plain. cc, g.covers);
      past = g.past;
      waits = g.waits;
      spaced = (λ plain. cc, g.spaced);
    }

    pub allow-Good :
        Good p f log now
        → let (f', passed) = allow e now f in Good p f' (logged p passed now e log) now
    unfolding allow
    allow-Good g = elim (Bool-cases (is_enabled f.policy e.type)) [
      | inr off ↦ rw off g
      | inl on ↦ rw on (elim (Bool-cases (is_secret_needed e.type)) [
        | inl prompt ↦ rw prompt (Good-prompt prompt g)
        | inr plain ↦ rw plain (elim (Bool-cases (is_muted f.policy e.network_key)) [
          | inl muted ↦ rw muted g
          | inr heard ↦ rw heard (elim (Bool-cases (limited f e now)) [
            | inl soon ↦ rw soon g
            | inr free ↦ rw free (
                allow_switch-Good e.type refl plain (limited-Clear p f e now g.policy g.past free)
                  g)
          ])
        ])
      ])
    ]
