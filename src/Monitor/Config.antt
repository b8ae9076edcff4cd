-- ===== src/Monitor/Config.antt =====
-- internal/monitor/engine.go: the knobs of the engine. A count that is not positive is 0 here.
use better_nm.Prelude.{ℕ, ltb, leb, if◌then◌else◌}
use better_nm.Monitor.Floats.{Floats}

pub record EngineConfig (F : Type 0) : Type 0 where
  pub window : ℕ
  pub min_samples : ℕ
  pub current_window : ℕ
  pub degrade_rtt_factor : F
  pub degrade_rtt_delta_ms : F
  pub degrade_loss : F
  pub degrade_baseline_loss : F
  pub degrade_streak : ℕ
  pub recover_rtt_factor : F
  pub recover_loss : F
  pub recover_streak : ℕ

abbrev pub or_default : ℕ → ℕ → ℕ
or_default n d = if leb n 0 then d else n

module _ {F : Type 0} ⦃fl : Floats F⦄ where
  open fl use {le, of_ℕ, literal}

  unfoldable default_engine_config : EngineConfig F
  default_engine_config = record {
    window = 200;
    min_samples = 40;
    current_window = 10;
    degrade_rtt_factor = of_ℕ 2;
    degrade_rtt_delta_ms = of_ℕ 20;
    degrade_loss = literal 1 10;
    degrade_baseline_loss = literal 2 100;
    degrade_streak = 3;
    recover_rtt_factor = literal 13 10;
    recover_loss = literal 3 100;
    recover_streak = 10;
  }

  abbrev float_or : F → F → F
  float_or x d = if le x (of_ℕ 0) then d else x

  unfoldable pub with_defaults : EngineConfig F → EngineConfig F
  unfolding default_engine_config
  with_defaults c =
      let d = default_engine_config in
      let window = or_default c.window d.window in
      let min_samples = or_default c.min_samples d.min_samples in
      record {
        window = window;
        min_samples = if ltb window min_samples then window else min_samples;
        current_window = or_default c.current_window d.current_window;
        degrade_rtt_factor = float_or c.degrade_rtt_factor d.degrade_rtt_factor;
        degrade_rtt_delta_ms = float_or c.degrade_rtt_delta_ms d.degrade_rtt_delta_ms;
        degrade_loss = float_or c.degrade_loss d.degrade_loss;
        degrade_baseline_loss = float_or c.degrade_baseline_loss d.degrade_baseline_loss;
        degrade_streak = or_default c.degrade_streak d.degrade_streak;
        recover_rtt_factor = float_or c.recover_rtt_factor d.recover_rtt_factor;
        recover_loss = float_or c.recover_loss d.recover_loss;
        recover_streak = or_default c.recover_streak d.recover_streak;
      }
