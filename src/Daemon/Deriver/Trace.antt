-- ===== src/Daemon/Deriver/Trace.antt =====
-- A life of the deriver: views and timer calls in any order, with the events in order.
use mathlib.Core.Path.{subst}
use better_nm.Prelude.{ℕ, List, [], ◌∷◌, ◌++◌, true, ◌≡◌, refl, sym, ◌∙◌}
use better_nm.Core.Event.{Event}
use better_nm.Core.Status.{network_key}
use better_nm.Daemon.Deriver.State.{View, Deriver, new_deriver, connected_primary}
use better_nm.Daemon.Deriver.Machine.{apply, apply-advance, flush, initialize}
use better_nm.Daemon.Deriver.Replay.{Follows, HasIds, Follows-append, flush-Follows}
use better_nm.Daemon.Deriver.Follow.{
  advance-Follows, flush-vpns, advance-initialized, initial_vpns-HasIds, flush-initialized,
  initialize-initialized,
}

pub data Input : Type 0 where
  see : View → Input
  tick : Input

unfoldable pub step : Input → ℕ → Deriver → Deriver × List Event
step (see v) now d = apply v now d
step tick now d = flush now d

unfoldable pub run : List (ℕ × Input) → Deriver → Deriver × List Event
run [] d = (d, [])
run ((now, i) ∷ inputs) d =
    let (d', es) = step i now d in let (d'', es') = run inputs d' in (d'', es ++ es')

pub record Ready (d : Deriver) : Type 0 where
  pub initialized : d.initialized ≡ true
  pub ids : HasIds d.vpn_up

pub step-Follows :
    (i : Input) (now : ℕ) (d : Deriver)
    → Ready d
    → Follows d (step i now d) × Ready (step i now d).0
unfolding step
step-Follows (see v) now d r =
    let cur = connected_primary v.status in
    let key = network_key cur v.profiles in
    let (f, ids) = advance-Follows v cur key now d r.ids in
    rw (apply-advance v now d r.initialized)
      (f, record { initialized = advance-initialized v cur key now d ∙ r.initialized; ids = ids })
step-Follows tick now d r = (
  flush-Follows now d,
  record {
    initialized = flush-initialized now d ∙ r.initialized;
    ids = subst HasIds (sym (flush-vpns now d)) r.ids;
  },
)

run-Ready : (inputs : List (ℕ × Input)) (d : Deriver) → Ready d → Follows d (run inputs d)
unfolding run
run-Ready [] d r = (refl, refl, λ id. refl)
run-Ready ((now, i) ∷ inputs) d r =
    let (f, r') = step-Follows i now d r in
    Follows-append d (step i now d) (run inputs (step i now d).0) f
      (run-Ready inputs (step i now d).0 r')

pub first-Ready :
    (debounce grace : ℕ) (v : View) (now : ℕ) → Ready (apply v now (new_deriver debounce grace)).0
unfolding apply initialize new_deriver
first-Ready debounce grace v now =
    let d =
      initialize v (connected_primary v.status)
        (network_key (connected_primary v.status) v.profiles) now (new_deriver debounce grace) in
    record {
      initialized =
          flush-initialized now d
          ∙ initialize-initialized v (connected_primary v.status)
              (network_key (connected_primary v.status) v.profiles) now
              (new_deriver debounce grace);
      ids = subst HasIds (sym (flush-vpns now d)) (initial_vpns-HasIds v.vpns [] tt);
    }

-- From the first view on, whatever views and timer calls follow and whenever: one who replays the
-- events from there ends with the deriver's monitored network, with its outstanding no-internet,
-- and, for every VPN, with the knowledge whether it is up.
pub run-Follows :
    (debounce grace : ℕ) (first : View) (start : ℕ) (inputs : List (ℕ × Input))
    → let d = (apply first start (new_deriver debounce grace)).0 in Follows d (run inputs d)
run-Follows debounce grace first start inputs =
    run-Ready inputs _ (first-Ready debounce grace first start)
