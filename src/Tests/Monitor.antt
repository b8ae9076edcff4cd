-- ===== src/Tests/Monitor.antt =====
-- The engine at concrete samples. A value is a number of hundredths, and `none` is −1.
use better_nm.Prelude.{
  ℕ, ◌+◌, ◌*◌, ◌/◌, ◌<◌, List, [], ◌∷◌, Bool, true, false, Option, none, some, lookup, All, length,
  ltb, leb, if◌then◌else◌, ◌==◌, ◌≡◌, ◌↔◌, refl, arith, insert,
}
use better_nm.Core.Monitor.{Sample, Baseline, ok, degraded}
use better_nm.Monitor.Floats.{Floats}
use better_nm.Monitor.Config.{EngineConfig, with_defaults}
use better_nm.Monitor.Anchor.{
  AnchorState, Verdict, is_bad, blank_anchor, evaluate, trim, new_anchor, relearn, evaluate_state,
  judge,
}
use better_nm.Monitor.Stats.{median_rtt, current, mean_loss}
use better_nm.Monitor.Engine.{
  KeyState, new_engine, add, add_all, key_of, settle, derive_key_state, feed,
}
use better_nm.Monitor.Streaks.{evaluate_all, degrade_exact}
use better_nm.Monitor.Verdicts.{IsGood, PublicDegraded, degraded-iff-public}
use better_nm.Monitor.Transitions.{Leads, states, add_all-Leads}
use better_nm.Monitor.Load.{load}
use better_nm.Monitor.Restored.{loaded-IsGood}

abbrev pub Value : Type 0
Value = Option ℕ

abbrev value_lt : Value → Value → Bool
value_lt none none = false
value_lt none (some b) = true
value_lt (some a) none = false
value_lt (some a) (some b) = ltb a b

abbrev value_le : Value → Value → Bool
value_le none b = true
value_le (some a) none = false
value_le (some a) (some b) = leb a b

abbrev value_plus : Value → Value → Value
value_plus (some a) (some b) = some (a + b)
value_plus _ b = b

abbrev value_times : Value → Value → Value
value_times (some a) (some b) = some ((a * b) / 100)
value_times _ b = none

abbrev value_divided : Value → Value → Value
value_divided (some a) (some b) = if b == 0 then none else some ((a * 100) / b)
value_divided _ b = none

instance abbrev pub hundredths : Floats Value
hundredths = record {
  lt = value_lt;
  le = value_le;
  plus = value_plus;
  times = value_times;
  divided = value_divided;
  of_ℕ = λ n. some (n * 100);
  literal = λ n m. some ((n * 100) / m);
  minus_one = none;
}

-- Two samples suffice, and one bad or good evaluation.
abbrev pub quick : EngineConfig Value
quick = record {
  window = 8;
  min_samples = 2;
  current_window = 2;
  degrade_rtt_factor = some 0;
  degrade_rtt_delta_ms = some 0;
  degrade_loss = some 0;
  degrade_baseline_loss = some 0;
  degrade_streak = 1;
  recover_rtt_factor = some 0;
  recover_loss = some 0;
  recover_streak = 1;
}

abbrev pub sample : ℕ → ℕ → Sample Value
sample time rtt = record {
  time = time;
  network_key = "wifi:home";
  anchor = "1.1.1.1";
  rtt_ms = some rtt;
  loss = some 0;
  dns_ms = none;
  method = "icmp";
  anchor_addr = "";
}

-- Fast answers, then slow ones.
abbrev samples : List (Sample Value)
samples =
    sample 1 1000
    ∷ sample 2 1000
    ∷ sample 3 1000
    ∷ sample 4 1000
    ∷ sample 5 1000
    ∷ sample 6 9000
    ∷ sample 7 9000
    ∷ []

abbrev pub stored : List (Baseline Value)
stored =
    record {
      network_key = "wifi:home";
      anchor = "1.1.1.1";
      state = degraded;
      sample_count = 0;
      baseline_rtt = none;
      baseline_loss = none;
      current_rtt = none;
      current_loss = none;
      current_dns = none;
      since = 1;
      updated_at = 1;
    }
    ∷ []

loaded-IsGood_example :
    IsGood (with_defaults quick) (add_all samples (load stored samples (new_engine quick))).0
loaded-IsGood_example = loaded-IsGood quick stored samples samples

add_all-Leads_example :
    let (e, out) = add_all samples (new_engine quick) in
    Leads (states (new_engine quick)) out (states e)
add_all-Leads_example = add_all-Leads samples (new_engine quick)

-- The key is known after the samples.
abbrev at_home : KeyState Value
at_home = key_of "wifi:home" (add_all samples (new_engine quick)).0

home_known : lookup "wifi:home" (add_all samples (new_engine quick)).0.keys ≡ some at_home
unfolding add_all new_engine lookup key_of insert add
home_known = refl

degraded-iff-public_example : (at_home.state ≡ degraded) ↔ PublicDegraded at_home.anchors
degraded-iff-public_example = degraded-iff-public quick samples "wifi:home" at_home home_known

-- The slow answers have been noticed.
home_degraded : at_home.state ≡ degraded
unfolding add_all new_engine lookup key_of insert add settle derive_key_state feed evaluate trim
    with_defaults new_anchor relearn evaluate_state judge median_rtt current mean_loss
home_degraded = refl

abbrev bad : Verdict
bad = record { loss_bad = true; rtt_bad = false; good = false }

abbrev good : Verdict
good = record { loss_bad = false; rtt_bad = false; good = true }

abbrev ok_anchor : AnchorState Value
ok_anchor = record blank_anchor { state = ok; bad_streak = 0; good_streak = 0 }

abbrev degraded_anchor : AnchorState Value
degraded_anchor = record blank_anchor { state = degraded; bad_streak = 0; good_streak = 0 }

abbrev patient : EngineConfig Value
patient = record quick { degrade_streak = 3; recover_streak = 2 }

abbrev three_bad : List (ℕ × Verdict)
three_bad = (1, bad) ∷ ((2, bad) ∷ ((3, bad) ∷ []))

abbrev two_good : List (ℕ × Verdict)
two_good = (1, good) ∷ ((2, good) ∷ [])

degrade_exact_example :
    let vs = three_bad in
    (length vs < 3 → (evaluate_all patient vs ok_anchor).state ≡ ok)
    × (length vs ≡ 3
        → All (λ e. is_bad e.1 ≡ true) vs
        → (evaluate_all patient vs ok_anchor).state ≡ degraded)
degrade_exact_example = degrade_exact patient three_bad ok_anchor refl refl (omega arith)
