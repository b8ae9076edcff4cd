-- ===== src/Daemon/Loop/Told.antt =====
-- internal/daemon/daemon.go: over the daemon's life, the network that the monitor was told of.
use better_nm.Prelude.{ℕ, List, [], ◌∷◌, true, some, ◌≡◌, refl}
use better_nm.Core.Event.{Event}
use better_nm.Daemon.Bus.{vpn, monitor}
use better_nm.Daemon.Deriver.State.{monitor_network}
use better_nm.Daemon.Deriver.Machine.{apply}
use better_nm.Daemon.Loop.{
  Daemon, Wiring, new_daemon, refresh_vpn, refresh_monitor, emit_events, derive, view,
  publish_changes,
}
use better_nm.Daemon.Loop.Handlers.{
  on_vpn_changes, on_monitor_change, on_monitor_event, on_secret_needed, on_secret_resolved,
  take_first, take_notification, with_kind,
}
use better_nm.Daemon.Loop.Life.{
  Call, nm_changed, vpn_changed, monitor_changed, monitor_told, timer_fired, refreshed,
  secret_asked, secret_settled, notified, handle, live, SameBut-trans, refresh_vpn-SameBut,
  refresh_monitor-SameBut, publish_changes-SameBut,
}
use better_nm.Daemon.Loop.Sync.{
  last_of, IsMindful, Alike-IsMindful, SameBut-Alike, derived-IsMindful, emitted-IsMindful, syncs,
  syncing,
}

took-IsMindful :
    (wiring : Wiring) (q : List Event) (d : Daemon)
    → IsMindful wiring d
    → IsMindful wiring (take_first q d).0
took-IsMindful wiring [] d m = m
took-IsMindful wiring (e ∷ q) d m = record { wired = m.wired; last = m.last }

beside-IsMindful :
    (wiring : Wiring) (e : Event) (d : Daemon)
    → IsMindful wiring d
    → IsMindful wiring (emit_events (e ∷ []) d)
beside-IsMindful wiring e d m = emitted-IsMindful wiring (e ∷ []) d m

handle-IsMindful :
    (wiring : Wiring) (c : Call) (d : Daemon) → IsMindful wiring d → IsMindful wiring (handle c d)
unfolding handle on_vpn_changes on_monitor_change on_monitor_event on_secret_needed
    on_secret_resolved take_notification derive
handle-IsMindful wiring (nm_changed changes w now) d m =
    (syncing wiring (nm_changed changes w now) d refl m).mindful
handle-IsMindful wiring (timer_fired now) d m = (syncing wiring (timer_fired now) d refl m).mindful
handle-IsMindful wiring (refreshed w vpns key now) d m =
    (syncing wiring (refreshed w vpns key now) d refl m).mindful
handle-IsMindful wiring (vpn_changed changes vpns now) d m =
    let d₁ = refresh_vpn vpns now d in
    let (der, es) = apply (view d₁) now d₁.der in
    let d₂ : Daemon = record d₁ { der = der } in
    emitted-IsMindful wiring es (publish_changes (with_kind vpn changes) d₂) (
      Alike-IsMindful wiring d₂ _
        (SameBut-Alike d₂ _ (publish_changes-SameBut (with_kind vpn changes) d₂))
        (derived-IsMindful wiring d d₁ der (refresh_vpn-SameBut vpns now d) m))
handle-IsMindful wiring (monitor_changed c key now) d m =
    let d₁ = refresh_monitor key now d in
    Alike-IsMindful wiring d _
      (SameBut-Alike d _ (
        SameBut-trans d d₁ _ (refresh_monitor-SameBut key now d)
          (publish_changes-SameBut (with_kind monitor (c ∷ [])) d₁)))
      m
handle-IsMindful wiring (monitor_told e key now) d m =
    beside-IsMindful wiring _ (refresh_monitor key now d)
      (Alike-IsMindful wiring d _ (SameBut-Alike d _ (refresh_monitor-SameBut key now d)) m)
handle-IsMindful wiring (secret_asked req now) d m = beside-IsMindful wiring _ d m
handle-IsMindful wiring (secret_settled id outcome now) d m = beside-IsMindful wiring _ d m
handle-IsMindful wiring notified d m = took-IsMindful wiring d.notify_ch d m

live-IsMindful :
    (wiring : Wiring) (cs : List Call) (d : Daemon)
    → IsMindful wiring d
    → IsMindful wiring (live cs d)
unfolding live
live-IsMindful wiring [] d m = m
live-IsMindful wiring (c ∷ cs) d m =
    live-IsMindful wiring cs (handle c d) (handle-IsMindful wiring c d m)

new-IsMindful :
    (wiring : Wiring) (debounce grace : ℕ) → IsMindful wiring (new_daemon wiring debounce grace)
unfolding new_daemon
new-IsMindful wiring debounce grace = record { wired = refl; last = refl }

-- Whatever happened to a daemon with a monitor before: after a change of NetworkManager, a timer call
-- or a refresh, the last network that the monitor was told of is the deriver's.
pub monitor_told_last :
    (wiring : Wiring) (debounce grace : ℕ) (cs : List Call) (c : Call)
    → wiring.monitor ≡ true
    → syncs c ≡ true
    → let d = handle c (live cs (new_daemon wiring debounce grace)) in
      last_of d.monitor_calls ≡ some (monitor_network d.der)
monitor_told_last wiring debounce grace cs c on h =
    (syncing wiring c (live cs (new_daemon wiring debounce grace)) h
        (live-IsMindful wiring cs _ (new-IsMindful wiring debounce grace))).synced
      on
