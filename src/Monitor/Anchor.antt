-- ===== src/Monitor/Anchor.antt =====
-- internal/monitor/engine.go: one anchor, its window of samples and its own state machine.
use better_nm.Prelude.{
  ℕ, ◌+◌, ◌-◌, String, List, [], ◌∷◌, Bool, true, false, not, ◌&&◌, ◌||◌, length, drop, ltb, leb,
  if◌then◌else◌,
}
use better_nm.Core.Monitor.{Sample, BaselineState, learning, ok, degraded, idle, Baseline}
use better_nm.Monitor.Floats.{Floats}
use better_nm.Monitor.Config.{EngineConfig}
use better_nm.Monitor.Stats.{median_rtt, mean_loss, last_dns, current}

-- Which rule fired; `nothing` is the empty string.
pub data Reason : Type 0 where
  rtt loss nothing : Reason

pub record AnchorState (F : Type 0) : Type 0 where
  pub samples : List (Sample F)  -- oldest first
  pub state : BaselineState
  pub since : ℕ
  pub bad_streak : ℕ
  pub good_streak : ℕ
  pub last_reason : Reason
  pub baseline : Baseline F

-- What the current samples say against the baseline.
pub record Verdict : Type 0 where
  pub rtt_bad : Bool
  pub loss_bad : Bool
  pub good : Bool

abbrev pub is_learning : BaselineState → Bool
is_learning learning = true
is_learning _ = false

abbrev pub is_degraded : BaselineState → Bool
is_degraded degraded = true
is_degraded _ = false

abbrev pub is_bad : Verdict → Bool
is_bad v = v.rtt_bad || v.loss_bad

module _ {F : Type 0} where
  -- `case core.BaselineOK`
  unfoldable evaluate_ok : EngineConfig F → Verdict → ℕ → AnchorState F → AnchorState F
  evaluate_ok c v at a =
      let a' : AnchorState F =
        if is_bad v
        then record a {
          bad_streak = a.bad_streak + 1;
          last_reason = if v.loss_bad && not v.rtt_bad then loss else rtt;
        }
        else record a { bad_streak = 0 } in
      if leb c.degrade_streak a'.bad_streak
      then record a' { state = degraded; since = at; good_streak = 0 }
      else a'

  -- `case core.BaselineDegraded`
  unfoldable evaluate_degraded : EngineConfig F → Verdict → ℕ → AnchorState F → AnchorState F
  evaluate_degraded c v at a =
      let a' : AnchorState F = record a { good_streak = if v.good then a.good_streak + 1 else 0 } in
      if leb c.recover_streak a'.good_streak
      then record a' { state = ok; since = at; bad_streak = 0 }
      else a'

  -- The `switch` over the state; the first case falls through to the second.
  unfoldable pub evaluate_state :
      BaselineState → EngineConfig F → Verdict → ℕ → AnchorState F → AnchorState F
  unfolding evaluate_ok evaluate_degraded
  evaluate_state learning c v at a =
      evaluate_ok c v at (record a { state = ok; since = at; bad_streak = 0; good_streak = 0 })
  evaluate_state idle c v at a =
      evaluate_ok c v at (record a { state = ok; since = at; bad_streak = 0; good_streak = 0 })
  evaluate_state ok c v at a = evaluate_ok c v at a
  evaluate_state degraded c v at a = evaluate_degraded c v at a
  evaluate_state BaselineState.unset c v at a = a

  -- Too few samples.
  unfoldable pub relearn : ℕ → AnchorState F → AnchorState F
  relearn at a =
      let a' : AnchorState F =
        if is_learning a.state then a else record a { state = learning; since = at } in
      record a' { bad_streak = 0; good_streak = 0 }

  -- The newest `window` samples.
  unfoldable pub trim : ℕ → List (Sample F) → List (Sample F)
  trim window ss = if ltb window (length ss) then drop (length ss - window) ss else ss

  module _ ⦃fl : Floats F⦄ where
    open fl use {lt, le, plus, times, of_ℕ, minus_one}

    unfoldable pub judge : EngineConfig F → List (Sample F) → Verdict
    judge c ss =
        let base_rtt = median_rtt ss in
        let base_loss = mean_loss ss in
        let cur = current c.current_window ss in
        let cur_rtt = median_rtt cur in
        let cur_loss = mean_loss cur in
        let answered = le (of_ℕ 0) cur_rtt && le (of_ℕ 0) base_rtt in
        record {
          rtt_bad =
              answered
              && lt (times c.degrade_rtt_factor base_rtt) cur_rtt
              && lt (plus base_rtt c.degrade_rtt_delta_ms) cur_rtt;
          loss_bad = lt c.degrade_loss cur_loss && lt base_loss c.degrade_baseline_loss;
          good =
              answered
              && lt cur_rtt (times c.recover_rtt_factor base_rtt)
              && lt cur_loss c.recover_loss;
        }

    unfoldable pub evaluate : EngineConfig F → ℕ → AnchorState F → AnchorState F
    evaluate c at a =
        if ltb (length a.samples) c.min_samples
        then relearn at a
        else evaluate_state a.state c (judge c a.samples) at a

    unfoldable pub snapshot : EngineConfig F → String → String → AnchorState F → ℕ → Baseline F
    snapshot c key anchor a at =
        let b : Baseline F = record {
          network_key = key;
          anchor = anchor;
          state = a.state;
          sample_count = length a.samples;
          baseline_rtt = minus_one;
          baseline_loss = of_ℕ 0;
          current_rtt = minus_one;
          current_loss = of_ℕ 0;
          current_dns = minus_one;
          since = a.since;
          updated_at = at;
        } in
        let cur = current c.current_window a.samples in
        elim a.samples [
          | [] ↦ b
          | _ ∷ _ ↦ record b {
            baseline_rtt = median_rtt a.samples;
            baseline_loss = mean_loss a.samples;
            current_rtt = median_rtt cur;
            current_loss = mean_loss cur;
            current_dns = last_dns minus_one cur;
          }
        ]

    -- `&anchorState{}`
    unfoldable pub blank_anchor : AnchorState F
    blank_anchor = record {
      samples = [];
      state = BaselineState.unset;
      since = 0;
      bad_streak = 0;
      good_streak = 0;
      last_reason = nothing;
      baseline = record {
        network_key = "";
        anchor = "";
        state = BaselineState.unset;
        sample_count = 0;
        baseline_rtt = of_ℕ 0;
        baseline_loss = of_ℕ 0;
        current_rtt = of_ℕ 0;
        current_loss = of_ℕ 0;
        current_dns = of_ℕ 0;
        since = 0;
        updated_at = 0;
      };
    }

    -- `&anchorState{state: core.BaselineLearning, since: s.Time}`
    unfoldable pub new_anchor : ℕ → AnchorState F
    unfolding blank_anchor
    new_anchor at = record blank_anchor { state = learning; since = at }
