-- ===== src/Daemon/Deriver/Sound.antt =====
-- What holds of the deriver between two calls.
use better_nm.Prelude.{
  ℕ, String, List, [], ◌∷◌, true, false, Option, none, ◌≡◌, ◌⊎◌, inl, inr, arith, Bool-cases,
}
use better_nm.Core.Status.{ActiveConnection, Connectivity, network_key}
use better_nm.Core.Vpn.{Vpn}
use better_nm.Daemon.Deriver.State.{View, Deriver, new_deriver, connected_primary}
use better_nm.Daemon.Deriver.Machine.{
  flush_disconnect, flush_no_internet, flush, initialize, switch_primary, switch_connectivity,
  update_vpns, advance, apply-advance, apply-initialize,
}
use better_nm.Daemon.Deriver.Trace.{Input, see, tick, step, run}

-- A disconnect waits only while there is no primary; a no-internet is not announced twice; with no
-- primary and no disconnect waiting the probe engine is on no network and nothing is outstanding;
-- and before the first view there is no primary.
pub record IsSound (d : Deriver) : Type 0 where
  pub one : (d.primary ≡ none) ⊎ (d.pending_disc ≡ none)
  pub outstanding : d.no_internet ≡ true → d.pending_no_internet ≡ none
  pub idle_key : d.primary ≡ none → d.pending_disc ≡ none → d.monitor_key ≡ ""
  pub idle_gateway : d.primary ≡ none → d.pending_disc ≡ none → d.monitor_gateway ≡ ""
  pub idle_online : d.primary ≡ none → d.pending_disc ≡ none → d.no_internet ≡ false
  pub idle_quiet : d.primary ≡ none → d.pending_disc ≡ none → d.pending_no_internet ≡ none
  pub fresh : d.initialized ≡ false → (d.primary ≡ none) × (d.pending_disc ≡ none)

flush_disconnect-IsSound : (now : ℕ) (d : Deriver) → IsSound d → IsSound (flush_disconnect now d).0
unfolding flush_disconnect
flush_disconnect-IsSound now d s = ground arith

flush_no_internet-IsSound :
    (now : ℕ) (d : Deriver) → IsSound d → IsSound (flush_no_internet now d).0
unfolding flush_no_internet
flush_no_internet-IsSound now d s = ground arith

flush-IsSound : (now : ℕ) (d : Deriver) → IsSound d → IsSound (flush now d).0
unfolding flush
flush-IsSound now d s =
    flush_no_internet-IsSound now (flush_disconnect now d).0 (flush_disconnect-IsSound now d s)

switch_primary-IsSound :
    (cur : Option ActiveConnection) (key : String) (now : ℕ) (d : Deriver)
    → d.initialized ≡ true
    → IsSound d
    → IsSound (switch_primary d.primary cur key now d).0
unfolding switch_primary
switch_primary-IsSound cur key now d i s = ground arith

switch_connectivity-IsSound :
    (conn : Connectivity) (now : ℕ) (d : Deriver)
    → IsSound d
    → IsSound (switch_connectivity conn now d).0
unfolding switch_connectivity
switch_connectivity-IsSound conn now d s = ground arith

update_vpns-IsSound :
    (vpns : List Vpn) (now : ℕ) (d : Deriver) → IsSound d → IsSound (update_vpns vpns now d).0
unfolding update_vpns
update_vpns-IsSound vpns now d s = ground arith

initialize-IsSound :
    (v : View) (cur : Option ActiveConnection) (now : ℕ) (d : Deriver)
    → d.initialized ≡ false
    → IsSound d
    → IsSound (initialize v cur (network_key cur v.profiles) now d)
unfolding initialize network_key
initialize-IsSound v cur now d i s = ground arith

advance-IsSound :
    (v : View) (cur : Option ActiveConnection) (key : String) (now : ℕ) (d : Deriver)
    → d.initialized ≡ true
    → IsSound d
    → IsSound (advance v cur key now d).0
unfolding advance
advance-IsSound v cur key now d i s = flush-IsSound now _ (
    update_vpns-IsSound v.vpns now _ (
      switch_connectivity-IsSound v.status.connectivity now _
        (switch_primary-IsSound cur key now d i s)))

step-IsSound : (i : Input) (now : ℕ) (d : Deriver) → IsSound d → IsSound (step i now d).0
unfolding step
step-IsSound (see v) now d s =
    let cur = connected_primary v.status in
    elim (Bool-cases d.initialized) [
      | inl ready ↦ rw (apply-advance v now d ready) (advance-IsSound v cur _ now d ready s)
      | inr new ↦
          rw (apply-initialize v now d new)
            (flush-IsSound now _ (initialize-IsSound v cur now d new s))
    ]
step-IsSound tick now d s = flush-IsSound now d s

run_from-IsSound : (inputs : List (ℕ × Input)) (d : Deriver) → IsSound d → IsSound (run inputs d).0
unfolding run
run_from-IsSound [] d s = s
run_from-IsSound ((now, i) ∷ inputs) d s =
    run_from-IsSound inputs (step i now d).0 (step-IsSound i now d s)

-- The invariant holds of a new deriver and after any views and timer calls, in any order, at any
-- times.
pub run-IsSound :
    (debounce grace : ℕ) (inputs : List (ℕ × Input))
    → IsSound (run inputs (new_deriver debounce grace)).0
unfolding new_deriver
run-IsSound debounce grace inputs = run_from-IsSound inputs _ (ground arith)
