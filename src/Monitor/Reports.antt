-- ===== src/Monitor/Reports.antt =====
-- What a monitor is over its whole life, and that it reports a network that gets worse.
use better_nm.Prelude.{
  ℕ, ◌+◌, String, List, [], ◌∷◌, Bool, false, not, ◌||◌, All, leb, str_eq, if◌then◌else◌, ◌≡◌, inl,
  inr, refl, arith, Bool-cases,
}
use better_nm.Monitor.Floats.{Floats}
use better_nm.Monitor.Config.{with_defaults}
use better_nm.Monitor.Engine.{reset, add_all}
use better_nm.Monitor.Steady.{with_defaults-IsUsable}
use better_nm.Monitor.Verdicts.{add_all-IsGood, new_engine-IsGood}
use better_nm.Monitor.Rounds.{
  MonitorConfig, Monitor, Target, Probed, emit_change, poke, pause, resume, reset_baseline,
  maybe_prune, new_monitor, round_samples, end_round,
}
use better_nm.Monitor.Life.{
  Call, sets, pauses, resumes, resets, prunes, ends, IsAsked, IsWatchful, call, run,
  emit_change-IsWatchful, report-IsWatchful, with_engine, set_network-IsWatchful, reset-IsGood,
}

module _ {F : Type 0} ⦃fl : Floats F⦄ (print : F → String) (cfg : MonitorConfig F) where
  abbrev Sound : Monitor F → Type 0
  Sound m = IsWatchful (with_defaults cfg.engine) m

  end_round-Sound :
      (ended : Bool) (key : String) (now : ℕ) (probed : List (Target × Probed F)) (dns : F)
      (m : Monitor F)
      → Sound m
      → Sound (end_round print ended key now probed dns m).0
  unfolding end_round
  end_round-Sound ended key now probed dns m w =
      elim (Bool-cases (ended || not (str_eq m.network_key key))) [
        | inl dropped ↦ rw dropped w
        | inr kept ↦
            let u = with_defaults-IsUsable cfg.engine in
            let samples = round_samples key now probed dns in
            rw kept (
              emit_change-IsWatchful print (with_defaults cfg.engine) u "round" _ (
                report-IsWatchful print (with_defaults cfg.engine) u (add_all samples m.engine).1 _
                  (with_engine print (with_defaults cfg.engine) u m _ now
                    (add_all-IsGood (with_defaults cfg.engine) samples m.engine u w.engine) w)))
      ]

  abbrev same_queues :
      (m m' : Monitor F)
      → m'.engine ≡ m.engine
      → m'.events ≡ m.events
      → m'.changes ≡ m.changes
      → Sound m
      → Sound m'
  same_queues m m' e f g w = record {
    engine = rw e w.engine;
    bounded = rw f w.bounded;
    hinted = rw g w.hinted;
    quality = rw f w.quality;
  }

  told : (path : String) (m : Monitor F) → Sound m → Sound (emit_change path m)
  told = emit_change-IsWatchful print (with_defaults cfg.engine) (with_defaults-IsUsable cfg.engine)

  reset-Sound :
      (key : String) (deleted : Bool) (m : Monitor F)
      → Sound m
      → Sound (reset_baseline key deleted m).0
  unfolding reset_baseline
  reset-Sound asked deleted m w =
      let key = if str_eq asked "" then m.network_key else asked in
      let w' : Sound (record m { engine = reset key m.engine }) = record {
        engine = reset-IsGood (with_defaults cfg.engine) key m.engine w.engine;
        bounded = w.bounded;
        hinted = w.hinted;
        quality = w.quality;
      } in
      elim (Bool-cases (str_eq key "")) [
        | inl nothing ↦ rw nothing w'
        | inr something ↦ rw something (elim (Bool-cases deleted) [
          | inl done ↦ rw done (told "reset" _ w')
          | inr failed ↦ rw failed w'
        ])
      ]

  prune-Sound : (now : ℕ) (m : Monitor F) → Sound m → Sound (maybe_prune now m).0
  unfolding maybe_prune
  prune-Sound now m w = elim (Bool-cases (leb (m.last_prune + 3600000000000) now)) [
    | inl due ↦ rw due (same_queues m _ refl refl refl w)
    | inr early ↦ rw early w
  ]

  call-Sound : (k : Call F) (m : Monitor F) → IsAsked k → Sound m → Sound (call print k m)
  unfolding call pause resume poke
  call-Sound (sets key gateway st) m of w =
      set_network-IsWatchful print (with_defaults cfg.engine) (with_defaults-IsUsable cfg.engine)
        key gateway st m of w
  call-Sound pauses m of w = told "paused" _ (same_queues m _ refl refl refl w)
  call-Sound resumes m of w =
      let m' : Monitor F = record m { paused = false } in
      same_queues (emit_change "resumed" m') _ refl refl refl
        (told "resumed" m' (same_queues m m' refl refl refl w))
  call-Sound (resets key deleted) m of w = reset-Sound key deleted m w
  call-Sound (prunes now) m of w = prune-Sound now m w
  call-Sound (ends ended key now probed dns) m of w = end_round-Sound ended key now probed dns m w

  run-Sound :
      (ks : List (Call F)) (m : Monitor F) → All IsAsked ks → Sound m → Sound (run print ks m)
  unfolding run
  run-Sound [] m of w = w
  run-Sound (k ∷ ks) m (one, rest) w = run-Sound ks (call print k m) rest (call-Sound k m one w)

  -- Over the whole life of a monitor, whatever changes of the network, pauses, resets and ends of
  -- rounds come in whatever order, as long as the store returns rows of the key that it is asked for:
  -- the engine satisfies its invariant, also for the keys that were warmed from the store, the two
  -- channels stay within their buffers, and only degraded and recovered events are queued.
  pub run-IsWatchful :
      (ks : List (Call F))
      → All IsAsked ks
      → IsWatchful (with_defaults cfg.engine) (run print ks (new_monitor cfg))
  unfolding new_monitor
  run-IsWatchful ks of = run-Sound ks (new_monitor cfg) of (record {
    engine = new_engine-IsGood cfg.engine;
    bounded = omega arith;
    hinted = omega arith;
    quality = tt;
  })
