-- ===== src/Monitor/Life.antt =====
-- A life of the monitor: changes of the network, pauses, resets and ends of rounds in any order.
use better_nm.Prelude.{
  ℕ, ◌≤◌, String, List, [], ◌∷◌, Bool, true, some, lookup, All, All-append, lookup-erase, length,
  length-append, ltb, str_eq, ◌≡◌, ◌⊎◌, inl, inr, refl, sym, ◌∙◌, arith, eq_iff, Bool-cases,
  Option-cases,
}
use better_nm.Core.Event
use better_nm.Core.Event.{Event}
use better_nm.Core.Monitor.{Sample, Baseline}
use better_nm.Monitor.Floats.{Floats}
use better_nm.Monitor.Anchor.{is_degraded}
use better_nm.Monitor.Config.{EngineConfig}
use better_nm.Monitor.Engine.{gateway_anchor, Engine, Transition, reset}
use better_nm.Monitor.Events.{event_for}
use better_nm.Monitor.Load.{load}
use better_nm.Monitor.Steady.{IsUsable}
use better_nm.Monitor.Verdicts.{IsGood}
use better_nm.Monitor.Restored.{load-IsGood}
use better_nm.Monitor.Warm.{Agrees, load-Agrees}
use better_nm.Monitor.Rounds.{
  Monitor, Stored, Target, Probed, emit_change, poke, send, pause, resume, reset_baseline,
  maybe_prune, stored_samples, rows, warm, set_network, report, end_round, event_buffer,
}

-- A round that was begun at any time before ends as `ends`.
pub data Call (F : Type 0) : Type 0 where
  sets : String → String → Stored F → Call F
  pauses resumes : Call F
  resets : String → Bool → Call F
  prunes : ℕ → Call F
  ends : Bool → String → ℕ → List (Target × Probed F) → F → Call F

-- The event says that a network is degraded or has recovered.
abbrev IsQuality : Event → Type 0
IsQuality e = (e.type ≡ Event.degraded) ⊎ (e.type ≡ Event.recovered)

module _ {F : Type 0} where
  -- The store returns rows of the key that it is asked for.
  pub record IsOf (key : String) (st : Stored F) : Type 0 where
    pub baselines : All (λ b. b.network_key ≡ key) (rows st.baselines)
    pub samples :
        (a : String) (ss : List (Sample F))
        → st.samples a ≡ some ss
        → All (λ s. s.network_key ≡ key) ss

  abbrev pub IsAsked : Call F → Type 0
  IsAsked (sets key gateway st) = IsOf key st
  IsAsked _ = Unit

  stored_samples-rows :
      (key : String) (st : Stored F) (anchors : List String)
      → IsOf key st
      → All (λ s. s.network_key ≡ key) (stored_samples st anchors)
  unfolding stored_samples
  stored_samples-rows key st [] of = tt
  stored_samples-rows key st (a ∷ anchors) of = elim (Option-cases (st.samples a)) [
    | inl failed ↦ rw (failed, All) (stored_samples-rows key st anchors of)
    | inr (ss, got) ↦
        rw (got, All)
          (All-append (λ s. s.network_key ≡ key) ss (stored_samples st anchors)
            (of.samples a ss got) (stored_samples-rows key st anchors of))
  ]

  pub reset-IsGood :
      (c : EngineConfig F) (k : String) (e : Engine F) → IsGood c e → IsGood c (reset k e)
  unfolding reset
  reset-IsGood c k e g = record {
    config = g.config;
    keys = λ j ks at. elim (Bool-cases (str_eq k j)) [
      | inl same ↦ absurd (ground (arith, lookup-erase k j e.keys))
      | inr other ↦ g.keys j ks (ground (arith, lookup-erase k j e.keys))
    ];
  }

  -- What is queued for the daemon: a bounded number of events, each of a degraded or a recovered
  -- network, over a sound engine.
  pub record IsWatchful (c : EngineConfig F) (m : Monitor F) : Type 0 where
    pub engine : IsGood c m.engine
    pub bounded : length m.events ≤ event_buffer
    pub hinted : length m.changes ≤ event_buffer
    pub quality : All IsQuality m.events

  module _ ⦃fl : Floats F⦄ (print : F → String) where
    -- A call, with the writes to the store left out.
    unfoldable pub call : Call F → Monitor F → Monitor F
    call (sets key gateway st) m = set_network key gateway st m
    call pauses m = pause m
    call resumes m = resume m
    call (resets key deleted) m = (reset_baseline key deleted m).0
    call (prunes now) m = (maybe_prune now m).0
    call (ends ended key now probed dns) m = (end_round print ended key now probed dns m).0

    unfoldable pub run : List (Call F) → Monitor F → Monitor F
    unfolding call
    run [] m = m
    run (k ∷ ks) m = run ks (call k m)

  module _ ⦃fl : Floats F⦄ (print : F → String) (c : EngineConfig F) (u : IsUsable c) where
    load-kept :
        (key : String) (bs : List (Baseline F)) (ss : List (Sample F)) (e : Engine F)
        → All (λ b. b.network_key ≡ key) bs
        → All (λ s. s.network_key ≡ key) ss
        → IsGood c e
        → IsGood c (load bs ss (reset key e))
    unfolding reset lookup
    load-kept key bs ss e rows_b rows_s g =
        let empty : Engine F = record e { keys = [] } in
        let fresh = load-IsGood c bs ss empty u g.config refl in
        let start : Agrees key (reset key e) empty (λ k. lookup k e.keys) = record {
          config = refl;
          at_key = ground (arith, lookup-erase key key e.keys, eq_iff key key);
          elsewhere = λ k other. ground (arith, lookup-erase key k e.keys);
        } in
        let a =
          load-Agrees key bs ss (reset key e) empty (λ k. lookup k e.keys) rows_b rows_s start in
        record {
          config = a.config ∙ fresh.config;
          keys = λ k ks at. elim (Bool-cases (str_eq key k)) [
            | inl same ↦ fresh.keys k ks (ground (arith, a.at_key, eq_iff key k))
            | inr other ↦ g.keys k ks (sym (a.elsewhere k other) ∙ at)
          ];
        }

    event_for-IsQuality :
        (tr : Transition F) (e : Event) → event_for print tr ≡ some e → IsQuality e
    unfolding event_for
    event_for-IsQuality t e h = elim (Bool-cases (is_degraded t.to_state)) [
      | inl bad ↦ inl (ground arith)
      | inr good ↦ inr (ground arith)
    ]

    pub emit_change-IsWatchful :
        (path : String) (m : Monitor F) → IsWatchful c m → IsWatchful c (emit_change path m)
    unfolding emit_change
    emit_change-IsWatchful path m w = elim (Bool-cases (ltb (length m.changes) event_buffer)) [
      | inl room ↦ rw room (record {
        engine = w.engine;
        bounded = w.bounded;
        hinted = ground (arith, length-append m.changes (path ∷ []));
        quality = w.quality;
      })
      | inr full ↦ rw full w
    ]

    send-IsWatchful :
        (e : Event) (m : Monitor F) → IsQuality e → IsWatchful c m → IsWatchful c (send e m)
    unfolding send
    send-IsWatchful e m q w = elim (Bool-cases (ltb (length m.events) event_buffer)) [
      | inl room ↦ rw room (record {
        engine = w.engine;
        bounded = ground (arith, length-append m.events (e ∷ []));
        hinted = w.hinted;
        quality = All-append IsQuality m.events (e ∷ []) w.quality (q, tt);
      })
      | inr full ↦ rw full w
    ]

    pub report-IsWatchful :
        (trs : List (Transition F)) (m : Monitor F)
        → IsWatchful c m
        → IsWatchful c (report print trs m)
    unfolding report
    report-IsWatchful [] m w = w
    report-IsWatchful (tr ∷ trs) m w = elim (Option-cases (event_for print tr)) [
      | inl silent ↦ rw (silent, report) (report-IsWatchful trs m w)
      | inr (e, told) ↦
          rw (told, report)
            (report-IsWatchful trs (send e m)
              (send-IsWatchful e m (event_for-IsQuality tr e told) w))
    ]

    pub with_engine :
        (m : Monitor F) (e : Engine F) (at : ℕ)
        → IsGood c e
        → IsWatchful c m
        → IsWatchful c (record m { engine = e; last_sample = at })
    with_engine m e at g w = record {
      engine = g;
      bounded = w.bounded;
      hinted = w.hinted;
      quality = w.quality;
    }

    pub set_network-IsWatchful :
        (key gateway : String) (st : Stored F) (m : Monitor F)
        → IsOf key st
        → IsWatchful c m
        → IsWatchful c (set_network key gateway st m)
    unfolding set_network warm poke
    set_network-IsWatchful key gateway st m of w =
        let m₁ : Monitor F = record m { network_key = key; gateway_ip = gateway } in
        let w₁ : IsWatchful c m₁ = record {
          engine = w.engine;
          bounded = w.bounded;
          hinted = w.hinted;
          quality = w.quality;
        } in
        let warmed : IsWatchful c (warm key st m₁) =
          with_engine m₁ _ _
            (load-kept key (rows st.baselines) (stored_samples st (gateway_anchor ∷ m.anchors))
              m.engine of.baselines (stored_samples-rows key st (gateway_anchor ∷ m.anchors) of)
              w.engine)
            w₁ in
        elim (Bool-cases (str_eq key m.network_key)) [
          | inl same ↦ rw same w₁
          | inr changed ↦ rw changed (elim (Bool-cases (str_eq key "")) [
            | inl gone ↦ rw gone (poked _ (emit_change-IsWatchful "network" m₁ w₁))
            | inr there ↦
                rw there (poked _ (emit_change-IsWatchful "network" (warm key st m₁) warmed))
          ])
        ]
      where
        poked : (m : Monitor F) → IsWatchful c m → IsWatchful c (record m { wake = true })
        poked m w = record {
          engine = w.engine;
          bounded = w.bounded;
          hinted = w.hinted;
          quality = w.quality;
        }
