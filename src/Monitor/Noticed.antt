-- ===== src/Monitor/Noticed.antt =====
-- A network that gets worse in a round is reported.
use better_nm.Prelude.{
  ℕ, ◌+◌, ◌≤◌, ◌<◌, String, List, [], ◌∷◌, ◌++◌, false, some, lookup, insert, length, length-append,
  ltb, str_eq, if◌then◌else◌, ◌≡◌, ◌≢◌, ◌⊎◌, inl, inr, refl, sym, ap, ◌∙◌, arith, eq_iff,
  Bool-cases, Option-cases,
}
use better_nm.Core.Event
use better_nm.Core.Event.{Event}
use better_nm.Core.Monitor.{Sample, degraded}
use better_nm.Monitor.Floats.{Floats}
use better_nm.Monitor.Anchor.{AnchorState}
use better_nm.Monitor.Engine.{
  KeyState, Engine, Transition, same_state, settle, add, add_all, key_of, feed,
}
use better_nm.Monitor.Events.{event_for, the_event, degraded_body}
use better_nm.Monitor.Transitions.{States, states, Leads, add_all-Leads}
use better_nm.Monitor.Rounds.{
  Monitor, Target, Probed, emit_change, send, round_samples, report, end_round, event_buffer,
}

-- A degraded event of the network stands in the queue.
abbrev pub Reported : String → List Event → Type 0
Reported key [] = ⊥
Reported key (e ∷ es) = ((e.type ≡ Event.degraded) × (e.network_key ≡ key)) ⊎ Reported key es

Reported-append :
    (key : String) (es fs : List Event)
    → (Reported key es ⊎ Reported key fs)
    → Reported key (es ++ fs)
Reported-append key [] fs (inl h) = absurd h
Reported-append key [] fs (inr h) = h
Reported-append key (e ∷ es) fs (inl (inl h)) = inl h
Reported-append key (e ∷ es) fs (inl (inr h)) = inr (Reported-append key es fs (inl h))
Reported-append key (e ∷ es) fs (inr h) = inr (Reported-append key es fs (inr h))

module _ {F : Type 0} where
  abbrev Worsens : String → List (Transition F) → Type 0
  Worsens key [] = ⊥
  Worsens key (t ∷ ts) = ((t.network_key ≡ key) × (t.to_state ≡ degraded)) ⊎ Worsens key ts

  Leads-Worsens :
      (key : String) (from to : States) (ts : List (Transition F))
      → Leads from ts to
      → from key ≢ degraded
      → to key ≡ degraded
      → Worsens key ts
  Leads-Worsens key from to [] l better worse = absurd (better (l key ∙ worse))
  Leads-Worsens key from to (t ∷ ts) (a, b, l) better worse =
      elim (Bool-cases (str_eq t.network_key key)) [
        | inl here ↦ elim (Bool-cases (same_state t.to_state degraded)) [
          | inl bad ↦ inl ((eq_iff t.network_key key).0 here, ground arith)
          | inr good ↦ inr (
              Leads-Worsens key (λ k. if str_eq t.network_key k then t.to_state else from k) to ts l
                (λ h. ground arith) worse)
        ]
        | inr there ↦ inr (
            Leads-Worsens key (λ k. if str_eq t.network_key k then t.to_state else from k) to ts l
              (λ h. better (ground arith)) worse)
      ]

  settle-length :
      (key anchor : String) (ks : KeyState F) (a : AnchorState F) (at : ℕ)
      → length (settle key ks anchor a at).1 ≤ 1
  unfolding settle
  settle-length key anchor ks a at = ground arith

  module _ ⦃fl : Floats F⦄ where
    add-length : (s : Sample F) (e : Engine F) → length (add s e).1 ≤ 1
    unfolding add
    add-length s e =
        let ks = key_of s.network_key e in
        let a = feed e.config s (lookup s.anchor ks.anchors) in
        ground (
          arith,
          settle-length s.network_key s.anchor
              (record ks { anchors = insert s.anchor a ks.anchors }) a s.time,
        )

    add_all-length : (ss : List (Sample F)) (e : Engine F) → length (add_all ss e).1 ≤ length ss
    unfolding add_all
    add_all-length [] e = omega arith
    add_all-length (s ∷ ss) e = omega (
      arith,
      length-append (add s e).1 (add_all ss (add s e).0).1,
      add-length s e,
      add_all-length ss (add s e).0,
    )

    round_samples-length :
        (key : String) (now : ℕ) (probed : List (Target × Probed F)) (dns : F)
        → length (round_samples key now probed dns) ≡ length probed
    unfolding round_samples
    round_samples-length key now [] dns = refl
    round_samples-length key now ((t, p) ∷ rest) dns =
        omega (arith, round_samples-length key now rest fl.minus_one)

    module _ (print : F → String) (key : String) where
      -- What is reported stays reported.
      report-keeps :
          (ts : List (Transition F)) (m : Monitor F)
          → Reported key m.events
          → Reported key (report print ts m).events
      unfolding report
      report-keeps [] m h = h
      report-keeps (t ∷ ts) m h = elim (Option-cases (event_for print t)) [
        | inl silent ↦ rw (silent, report) (report-keeps ts m h)
        | inr (e, told) ↦ rw (told, report) (report-keeps ts (send e m) (sent-keeps e m h))
      ]
        where
          sent-keeps :
              (e : Event) (m : Monitor F) → Reported key m.events → Reported key (send e m).events
          sent-keeps e m h =
              unfold send in
              elim (Bool-cases (ltb (length m.events) event_buffer)) [
                | inl room ↦ rw room (Reported-append key m.events (e ∷ []) (inl h))
                | inr full ↦ rw full h
              ]

      event_for-degraded :
          (t : Transition F)
          → t.to_state ≡ degraded
          → (e : Event) × (event_for print t ≡ some e)
            × (e.type ≡ Event.degraded)
            × (e.network_key ≡ t.network_key)
      unfolding event_for
      event_for-degraded t worse = (
        the_event print Event.degraded "Network degraded" (degraded_body print t) "normal" t,
        ground arith,
        refl,
        refl,
      )

      sent :
          (e : Event) (m : Monitor F)
          → length m.events < event_buffer
          → (send e m).events ≡ m.events ++ (e ∷ [])
      unfolding send
      sent e m room = ground arith

      report-Reported :
          (ts : List (Transition F)) (m : Monitor F)
          → Worsens key ts
          → length m.events + length ts ≤ event_buffer
          → Reported key (report print ts m).events
      unfolding report
      report-Reported [] m w room = absurd w
      report-Reported (t ∷ ts) m (inl (here, bad)) room =
          let (e, told, type, at) = event_for-degraded t bad in
          rw (told, report)
            (report-keeps ts (send e m) (
              rw (sent e m (omega arith))
                (Reported-append key m.events (e ∷ []) (inr (inl (type, at ∙ here))))))
      report-Reported (t ∷ ts) m (inr w) room = elim (Option-cases (event_for print t)) [
        | inl silent ↦ rw (silent, report) (report-Reported ts m w (omega arith))
        | inr (e, told) ↦
            let one_more : length (send e m).events + length ts ≤ event_buffer =
              omega (arith, ap length (sent e m (omega arith)), length-append m.events (e ∷ [])) in
            rw (told, report) (report-Reported ts (send e m) w one_more)
      ]

      report-engine :
          (ts : List (Transition F)) (m : Monitor F) → (report print ts m).engine ≡ m.engine
      unfolding report send
      report-engine [] m = refl
      report-engine (t ∷ ts) m = elim (Option-cases (event_for print t)) [
        | inl silent ↦ rw (silent, report) (report-engine ts m)
        | inr (e, told) ↦ rw (told, report) (report-engine ts (send e m) ∙ ground arith)
      ]

      -- The part of a round that counts.
      end_round_lem :
          (now : ℕ) (probed : List (Target × Probed F)) (dns : F) (m : Monitor F)
          → m.network_key ≡ key
          → let m' = (end_round print false key now probed dns m).0 in
            let r = add_all (round_samples key now probed dns) m.engine in
            let m'' : Monitor F = record m { engine = r.0; last_sample = now } in
            (m'.engine ≡ (report print r.1 m'').engine)
            × (m'.events ≡ (report print r.1 m'').events)
      unfolding end_round emit_change
      end_round_lem now probed dns m same =
          (ground (arith, eq_iff m.network_key key), ground (arith, eq_iff m.network_key key))

      -- A network that gets worse is reported: if a round ends for the network that is monitored, its
      -- key was not degraded before and is afterwards, and the channel has room for as many events as
      -- there were probes, then a degraded event of that key stands in the channel.
      pub worsening_noticed :
          (now : ℕ) (probed : List (Target × Probed F)) (dns : F) (m : Monitor F)
          → m.network_key ≡ key
          → states m.engine key ≢ degraded
          → states (end_round print false key now probed dns m).0.engine key ≡ degraded
          → length m.events + length probed ≤ event_buffer
          → Reported key (end_round print false key now probed dns m).0.events
      worsening_noticed now probed dns m same better worse room =
          let ss = round_samples key now probed dns in
          let r = add_all ss m.engine in
          let m'' : Monitor F = record m { engine = r.0; last_sample = now } in
          let (engine_is, events_are) = end_round_lem now probed dns m same in
          let after : states r.0 key ≡ degraded =
            ap (λ e. states e key) (sym (engine_is ∙ report-engine r.1 m'')) ∙ worse in
          rw events_are (
            report-Reported r.1 m''
              (Leads-Worsens key (states m.engine) (states r.0) r.1 (add_all-Leads ss m.engine)
                better after)
              (omega (arith, add_all-length ss m.engine, round_samples-length key now probed dns)))
