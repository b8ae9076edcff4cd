-- ===== src/Daemon/Loop/Unsynced.antt =====
-- internal/daemon/daemon.go, `onVPNChanges`: it lets the deriver's timers run out without telling the
-- monitor.
use mathlib.Core.Path.{subst}
use better_nm.Prelude.{
  ℕ, ◌-◌, String, List, [], true, Option, none, some, ◌≡◌, inl, inr, refl, sym, ap, ◌∙◌, arith,
  Bool-cases,
}
use better_nm.Core.Status.{Connectivity, network_key}
use better_nm.Core.Vpn.{Vpn}
use better_nm.Daemon.Bus.{vpn}
use better_nm.Daemon.Deriver.State.{
  View, Deriver, PendingDisconnect, connected_primary, monitor_network,
}
use better_nm.Daemon.Deriver.Machine.{
  apply, apply-advance, advance, expired, flush, flush_disconnect, flush_no_internet, next_deadline,
  disconnect_deadline, switch_primary, switch_connectivity, update_vpns,
}
use better_nm.Daemon.Loop.{Daemon, refresh_vpn, derive, view, publish_changes}
use better_nm.Daemon.Loop.Handlers.{Change, arm_timer, on_vpn_changes, with_kind}
use better_nm.Daemon.Loop.Life.{emit_events-Emits, refresh_vpn-SameBut, publish_changes-SameBut}

-- The deriver is on no network and waits for nothing.
record IsOver (d : Deriver) : Type 0 where
  network : monitor_network d ≡ ("", "")
  deadline : next_deadline d ≡ none

record IsDue (now : ℕ) (pd : PendingDisconnect) (d : Deriver) : Type 0 where
  primary : d.primary ≡ none
  waits : d.pending_disc ≡ some pd
  due : expired pd.at d.debounce now ≡ true

flush-IsOver :
    (now : ℕ) (pd : PendingDisconnect) (d : Deriver) → IsDue now pd d → IsOver (flush now d).0
unfolding flush flush_disconnect flush_no_internet monitor_network next_deadline disconnect_deadline
flush-IsOver now pd d h = record {
  network = ground (arith, h.primary, h.waits, h.due);
  deadline = ground (arith, h.primary, h.waits, h.due);
}

offline :
    (conn : Connectivity) (now : ℕ) (d : Deriver)
    → d.primary ≡ none
    → switch_connectivity conn now d ≡ (d, [])
unfolding switch_connectivity
offline conn now d without = simp (without)

stays :
    (key : String) (now : ℕ) (d : Deriver)
    → d.primary ≡ none
    → switch_primary d.primary none key now d ≡ (d, [])
stays key now d without =
    ap (λ w. switch_primary w none key now d) without ∙ (unfold switch_primary in refl)

apply-IsOver :
    (v : View) (now : ℕ) (pd : PendingDisconnect) (d : Deriver)
    → d.initialized ≡ true
    → connected_primary v.status ≡ none
    → IsDue now pd d
    → IsOver (apply v now d).0
unfolding advance update_vpns
apply-IsOver v now pd d ready gone h =
    rw (apply-advance v now d ready, gone)
      (rw (stays (network_key none v.profiles) now d h.primary) (
        rw (offline v.status.connectivity now d h.primary) (
          flush-IsOver now pd (update_vpns v.vpns now d).0
            (record { primary = h.primary; waits = h.waits; due = h.due }))))

refresh_vpn-status :
    (vpns : Option (List Vpn)) (now : ℕ) (d : Daemon)
    → (refresh_vpn vpns now d).snap.status ≡ d.snap.status
unfolding refresh_vpn
refresh_vpn-status none now d = refl
refresh_vpn-status (some vpns) now d = elim (Bool-cases d.wiring.vpn) [
  | inl wired ↦ ground arith
  | inr bare ↦ ground arith
]

-- When the primary connection is gone, its drop waits, and the debounce has run out at the moment at
-- which VPNs change: the handler of that change ends the drop, so that the deriver is on no network
-- and no timer is set after it, but tells the monitor nothing.
pub vpn_change_unsynced :
    (changes : List Change) (vpns : Option (List Vpn)) (now : ℕ) (pd : PendingDisconnect)
    (d : Daemon)
    → d.der.initialized ≡ true
    → d.der.primary ≡ none
    → d.der.pending_disc ≡ some pd
    → expired pd.at d.der.debounce now ≡ true
    → connected_primary d.snap.status ≡ none
    → let d' = on_vpn_changes changes vpns now d in
      (monitor_network d'.der ≡ ("", ""))
      × (arm_timer now d' ≡ none)
      × (d'.monitor_calls ≡ d.monitor_calls)
unfolding on_vpn_changes derive view arm_timer
vpn_change_unsynced changes vpns now pd d ready without waits due gone =
    let d₁ = refresh_vpn vpns now d in
    let s = refresh_vpn-SameBut vpns now d in
    let (der, es) = apply (view d₁) now d₁.der in
    let d₂ : Daemon = record d₁ { der = der } in
    let p = publish_changes-SameBut (with_kind vpn changes) d₂ in
    let e = emit_events-Emits es (publish_changes (with_kind vpn changes) d₂) in
    let over : IsOver der =
      subst (λ x. IsOver (apply (view d₁) now x).0) (sym s.der)
        (apply-IsOver (view d₁) now pd d.der ready
          (ap connected_primary (refresh_vpn-status vpns now d) ∙ gone)
          (record { primary = without; waits = waits; due = due })) in
    let same = e.der ∙ p.der in
    (
      ap monitor_network same ∙ over.network,
      ap (λ t. elim t [ none ↦ none | some deadline ↦ some (deadline - now) ])
          (ap next_deadline same ∙ over.deadline),
      e.monitor_calls ∙ (p.monitor_calls ∙ s.monitor_calls),
    )
