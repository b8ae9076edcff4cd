-- ===== src/Tests/Rounds.antt =====
-- The monitor over a round with slow answers.
use better_nm.Prelude.{
  ◌+◌, ◌≤◌, String, List, [], ◌∷◌, true, false, none, some, length, ◌≡◌, ◌≢◌, refl, arith, lookup,
  insert,
}
use better_nm.Core.Monitor.{ok, degraded}
use better_nm.Monitor.Config.{with_defaults}
use better_nm.Monitor.Anchor.{evaluate, trim, new_anchor, relearn, evaluate_state, judge}
use better_nm.Monitor.Stats.{median_rtt, current, mean_loss}
use better_nm.Monitor.Engine.{
  new_engine, add, add_all, key_of, settle, derive_key_state, feed, state_of,
}
use better_nm.Monitor.Transitions.{states}
use better_nm.Monitor.Rounds.{
  MonitorConfig, Monitor, Stored, Target, Probed, new_monitor, end_round, round_samples, report,
  sample_of, emit_change, send, event_buffer,
}
use better_nm.Monitor.Life.{Call, sets, pauses, resumes, resets, ends, IsOf, IsWatchful, run}
use better_nm.Monitor.Reports.{run-IsWatchful}
use better_nm.Monitor.Noticed.{Reported, worsening_noticed}
use better_nm.Tests.Monitor.{Value, hundredths, quick, stored, sample}

abbrev print : Value → String
print none = "n/a"
print (some n) = "some"

abbrev home : String
home = "wifi:home"

abbrev config : MonitorConfig Value
config = record { interval = 0; anchors = some ("1.1.1.1" ∷ []); engine = quick; round_timeout = 0 }

-- The store knows one baseline and a failed list of samples.
abbrev rows_of_home : Stored Value
rows_of_home = record { baselines = some stored; samples = λ anchor. none }

rows-IsOf : IsOf home rows_of_home
rows-IsOf = record { baselines = (refl, tt); samples = λ a ss got. absurd (ground (arith, got)) }

abbrev slow : List (Target × Probed Value)
slow =
    (
      ("1.1.1.1", "1.1.1.1"),
      record { rtt = some 9000; loss = some 0; method = "icmp"; failed = false },
    )
    ∷ []

abbrev calls : List (Call Value)
calls =
    sets home "192.168.1.1" rows_of_home
    ∷ pauses
    ∷ resumes
    ∷ ends false home 10 slow none
    ∷ resets "" true
    ∷ []

run-IsWatchful_example : IsWatchful (with_defaults quick) (run print calls (new_monitor config))
run-IsWatchful_example = run-IsWatchful print config calls (rows-IsOf, (tt, (tt, (tt, (tt, tt)))))

-- A monitor that has seen fast answers.
abbrev before : Monitor Value
before = record (new_monitor config) {
  network_key = home;
  engine =
      (add_all (sample 1 1000 ∷ sample 2 1000 ∷ sample 3 1000 ∷ sample 4 1000 ∷ sample 5 1000 ∷ [])
        (new_engine quick)).0;
}

ok_before : states before.engine home ≡ ok
unfolding state_of add_all new_engine lookup key_of insert add settle derive_key_state feed evaluate
    trim with_defaults new_anchor relearn evaluate_state judge median_rtt current mean_loss
ok_before = refl

degraded_after : states (end_round print false home 7 slow none before).0.engine home ≡ degraded
unfolding end_round round_samples report sample_of emit_change send new_monitor state_of add_all
    new_engine lookup key_of insert add settle derive_key_state feed evaluate trim with_defaults
    new_anchor relearn evaluate_state judge median_rtt current mean_loss
degraded_after = refl

still_ok : states before.engine home ≢ degraded
still_ok worse = absurd (grind (arith, ok_before, worse))

room : length before.events + length slow ≤ event_buffer
unfolding new_monitor
room = omega arith

worsening_noticed_example : Reported home (end_round print false home 7 slow none before).0.events
worsening_noticed_example =
    worsening_noticed print home 7 slow none before refl still_ok degraded_after room
