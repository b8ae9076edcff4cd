-- ===== src/Daemon/Loop/Steps.antt =====
-- internal/daemon/daemon.go: each handler, and a life of the daemon, as the history tells it.
use mathlib.Core.Path.{subst}
use better_nm.Prelude.{
  ℕ, ◌≤◌, String, List, [], ◌∷◌, ◌++◌, true, All, any, length, append-nil, append_assoc, Option,
  ◌≡◌, ◌⊎◌, inl, inr, refl, sym, ap, ◌∙◌, arith,
}
use better_nm.Core.Event
use better_nm.Core.Event.{Event}
use better_nm.Core.Vpn.{Vpn}
use better_nm.Daemon.Bus.{ChangeKind, vpn, monitor}
use better_nm.Daemon.Deriver.State.{Deriver}
use better_nm.Daemon.Deriver.Replay.{Follows, Follows-append}
use better_nm.Daemon.Deriver.Trace.{see, tick, step, Ready, step-Follows}
use better_nm.Daemon.Loop.{
  Daemon, NmAnswers, refresh_nm, refresh_vpn, refresh_monitor, sync_monitor_network, emit_events,
  derive, view, publish_changes, notify_buffer,
}
use better_nm.Daemon.Loop.Handlers.{
  Change, needs_wifi, on_nm_changes, on_vpn_changes, on_monitor_change, on_monitor_event, on_timer,
  refresh, on_secret_needed, on_secret_resolved, take_first, take_notification, with_kind, complete,
}
use better_nm.Daemon.Loop.Life.{
  Call, nm_changed, vpn_changed, monitor_changed, monitor_told, timer_fired, refreshed,
  secret_asked, secret_settled, notified, handle, live, SameBut, SameBut-trans, refresh_nm-SameBut,
  refresh_vpn-SameBut, refresh_monitor-SameBut, publish_changes-SameBut,
}
use better_nm.Daemon.Loop.Replayed.{Told, quiet, Moves-shown, sync-Moves, emitted, stepped, moved}

nm-Told :
    (changes : List (ChangeKind × String)) (w : NmAnswers) (now : ℕ) (d : Daemon)
    → Ready d.der
    → Told d (on_nm_changes changes w now d)
unfolding on_nm_changes derive step
nm-Told changes w now d r =
    let d₁ = refresh_nm (any needs_wifi changes) w now d in
    let s = refresh_nm-SameBut (any needs_wifi changes) w now d in
    let (der, es) = step (see (view d₁)) now d₁.der in
    let (f, r') = stepped (see (view d₁)) now d d₁ r s in
    let d₂ = sync_monitor_network (record d₁ { der = der }) in
    emitted d (publish_changes changes d₂) der es
      (Moves-shown d d₂ _ der (sync-Moves d (record d₁ { der = der }) der (moved d d₁ der s))
        (publish_changes-SameBut changes d₂))
      f r'

vpn-Told :
    (changes : List Change) (vpns : Option (List Vpn)) (now : ℕ) (d : Daemon)
    → Ready d.der
    → Told d (on_vpn_changes changes vpns now d)
unfolding on_vpn_changes derive step
vpn-Told changes vpns now d r =
    let d₁ = refresh_vpn vpns now d in
    let s = refresh_vpn-SameBut vpns now d in
    let (der, es) = step (see (view d₁)) now d₁.der in
    let (f, r') = stepped (see (view d₁)) now d d₁ r s in
    let d₂ : Daemon = record d₁ { der = der } in
    emitted d (publish_changes (with_kind vpn changes) d₂) der es
      (Moves-shown d d₂ _ der (moved d d₁ der s)
        (publish_changes-SameBut (with_kind vpn changes) d₂))
      f r'

timer-Told : (now : ℕ) (d : Daemon) → Ready d.der → Told d (on_timer now d)
unfolding on_timer step
timer-Told now d r =
    let (der, es) = step tick now d.der in
    let (f, r') = step-Follows tick now d.der r in
    emitted d _ der es
      (sync-Moves d (record d { der = der }) der
        (record { at = refl; history = refl; notify_ch = refl }))
      f r'

unfoldable pub all_read : NmAnswers → Option (List Vpn) → String → ℕ → Daemon → Daemon
all_read w vpns key now d = refresh_monitor key now (refresh_vpn vpns now (refresh_nm true w now d))

pub all_read-SameBut :
    (w : NmAnswers) (vpns : Option (List Vpn)) (key : String) (now : ℕ) (d : Daemon)
    → SameBut d (all_read w vpns key now d)
unfolding all_read
all_read-SameBut w vpns key now d =
    let d₁ = refresh_nm true w now d in
    let d₂ = refresh_vpn vpns now d₁ in
    SameBut-trans d d₂ _
      (SameBut-trans d d₁ d₂ (refresh_nm-SameBut true w now d) (refresh_vpn-SameBut vpns now d₁))
      (refresh_monitor-SameBut key now d₂)

refresh-Told :
    (w : NmAnswers) (vpns : Option (List Vpn)) (key : String) (now : ℕ) (d : Daemon)
    → Ready d.der
    → Told d (refresh w vpns key now d)
unfolding refresh derive step all_read
refresh-Told w vpns key now d r =
    let d₁ = all_read w vpns key now d in
    let s = all_read-SameBut w vpns key now d in
    let (der, es) = step (see (view d₁)) now d₁.der in
    let (f, r') = stepped (see (view d₁)) now d d₁ r s in
    let t =
      emitted d _ der es (sync-Moves d (record d₁ { der = der }) der (moved d d₁ der s)) f r' in
    record {
      news = t.news;
      history = t.history;
      follows = t.follows;
      ready = t.ready;
      bounded = t.bounded;
    }

-- Events that are none of the deriver's.
beside :
    (e : Event) (d d' : Daemon)
    → Ready d.der
    → SameBut d d'
    → Follows d.der (d.der, e ∷ [])
    → Told d (emit_events (e ∷ []) d')
beside e d d' r s f = emitted d d' d.der (e ∷ []) (quiet d d' s) f r

-- The monitor says of a network that it got worse, or better again.
abbrev pub IsMonitored : Call → Type 0
IsMonitored (monitor_told e key now) = (e.type ≡ Event.degraded) ⊎ (e.type ≡ Event.recovered)
IsMonitored _ = Unit

monitor-Follows :
    (e : Event) (d : Deriver)
    → (e.type ≡ Event.degraded) ⊎ (e.type ≡ Event.recovered)
    → Follows d (d, e ∷ [])
monitor-Follows e d (inl worse) = rw worse (refl, refl, λ id. refl)
monitor-Follows e d (inr better) = rw better (refl, refl, λ id. refl)

idle : (d d' : Daemon) → Ready d.der → SameBut d d' → Told d d'
idle d d' r s = record {
  news = [];
  history = s.history ∙ sym (append-nil d.history);
  follows = subst (λ x. Follows d.der (x, [])) (sym s.der) (refl, refl, λ id. refl);
  ready = subst Ready (sym s.der) r;
  bounded = λ h. subst (λ q. length q ≤ notify_buffer) (sym s.notify_ch) h;
}

same : (d : Daemon) → SameBut d d
same d = record {
  wiring = refl;
  der = refl;
  last_net = refl;
  net_set = refl;
  history = refl;
  notify_ch = refl;
  monitor_calls = refl;
}

taken-Told :
    (d : Daemon) (q : List Event) → d.notify_ch ≡ q → Ready d.der → Told d (take_first q d).0
taken-Told d [] at r = idle d d r (same d)
taken-Told d (e ∷ q) at r = record {
  news = [];
  history = sym (append-nil d.history);
  follows = (refl, refl, λ id. refl);
  ready = r;
  bounded = λ h. grind (arith, at);
}

handle-Told : (c : Call) (d : Daemon) → IsMonitored c → Ready d.der → Told d (handle c d)
unfolding handle on_monitor_change on_monitor_event on_secret_needed on_secret_resolved complete
    take_notification
handle-Told (nm_changed changes w now) d m r = nm-Told changes w now d r
handle-Told (vpn_changed changes vpns now) d m r = vpn-Told changes vpns now d r
handle-Told (monitor_changed c key now) d m r =
    let d₁ = refresh_monitor key now d in
    idle d _ r (
      SameBut-trans d d₁ _ (refresh_monitor-SameBut key now d)
        (publish_changes-SameBut (with_kind monitor (c ∷ [])) d₁))
handle-Told (monitor_told e key now) d m r =
    beside (complete d.snap.network_key now e) d (refresh_monitor key now d) r
      (refresh_monitor-SameBut key now d)
      (monitor-Follows (complete d.snap.network_key now e) d.der m)
handle-Told (timer_fired now) d m r = timer-Told now d r
handle-Told (refreshed w vpns key now) d m r = refresh-Told w vpns key now d r
handle-Told (secret_asked req now) d m r = beside _ d d r (same d) (refl, refl, λ id. refl)
handle-Told (secret_settled id outcome now) d m r = beside _ d d r (same d) (refl, refl, λ id. refl)
handle-Told notified d m r = taken-Told d d.notify_ch refl r

Told-trans : (d d' d'' : Daemon) → Told d d' → Told d' d'' → Told d d''
Told-trans d d' d'' s t = record {
  news = s.news ++ t.news;
  history = t.history ∙ (ap (λ h. h ++ t.news) s.history ∙ append_assoc d.history s.news t.news);
  follows = Follows-append d.der (d'.der, s.news) (d''.der, t.news) s.follows t.follows;
  ready = t.ready;
  bounded = λ h. t.bounded (s.bounded h);
}

pub live-Told :
    (cs : List Call) (d : Daemon) → All IsMonitored cs → Ready d.der → Told d (live cs d)
unfolding live
live-Told [] d m r = idle d d r (same d)
live-Told (c ∷ cs) d (m, ms) r =
    let t = handle-Told c d m r in
    Told-trans d (handle c d) (live cs (handle c d)) t (live-Told cs (handle c d) ms t.ready)
