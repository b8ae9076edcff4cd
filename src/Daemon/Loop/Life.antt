-- ===== src/Daemon/Loop/Life.antt =====
-- internal/daemon/daemon.go: the life of a daemon, handlers in any order, and what a handler leaves as
-- it was.
use better_nm.Prelude.{
  ℕ, ◌≤◌, String, List, [], ◌∷◌, ◌++◌, Bool, true, false, Option, none, some, length, length-append,
  append_assoc, append-nil, ◌≡◌, refl, sym, ◌∙◌, arith, if◌then◌else◌,
}
use better_nm.Core.Event.{Event}
use better_nm.Core.Secrets.{SecretRequest, SecretOutcome}
use better_nm.Core.Vpn.{Vpn}
use better_nm.Daemon.Bus.{ChangeKind, Bus, change, publish}
use better_nm.Daemon.Loop.{
  Snapshot, Daemon, NmAnswers, refresh_nm, refresh_vpn, refresh_monitor, emit_event, emit_events,
  publish_changes, notify_buffer,
}
use better_nm.Daemon.Loop.Handlers.{
  Change, on_nm_changes, on_vpn_changes, on_monitor_change, on_monitor_event, on_timer, refresh,
  on_secret_needed, on_secret_resolved, take_notification,
}

-- What wakes the loop or calls into the daemon, with the answers of the backends and the clock.
pub data Call : Type 0 where
  nm_changed : List (ChangeKind × String) → NmAnswers → ℕ → Call
  vpn_changed : List Change → Option (List Vpn) → ℕ → Call
  monitor_changed : Change → String → ℕ → Call
  monitor_told : Event → String → ℕ → Call
  timer_fired : ℕ → Call
  refreshed : NmAnswers → Option (List Vpn) → String → ℕ → Call
  secret_asked : SecretRequest → ℕ → Call
  secret_settled : String → SecretOutcome → ℕ → Call
  notified : Call

unfoldable pub handle : Call → Daemon → Daemon
handle (nm_changed changes w now) d = on_nm_changes changes w now d
handle (vpn_changed changes vpns now) d = on_vpn_changes changes vpns now d
handle (monitor_changed c key now) d = on_monitor_change c key now d
handle (monitor_told e key now) d = on_monitor_event e key now d
handle (timer_fired now) d = on_timer now d
handle (refreshed w vpns key now) d = refresh w vpns key now d
handle (secret_asked req now) d = on_secret_needed req now d
handle (secret_settled id outcome now) d = on_secret_resolved id outcome now d
handle notified d = (take_notification d).0

unfoldable pub live : List Call → Daemon → Daemon
unfolding handle
live [] d = d
live (c ∷ cs) d = live cs (handle c d)

-- Two daemons that differ in their snapshot and their bus at most.
pub record SameBut (d d' : Daemon) : Type 0 where
  pub wiring : d'.wiring ≡ d.wiring
  pub der : d'.der ≡ d.der
  pub last_net : d'.last_net ≡ d.last_net
  pub net_set : d'.net_set ≡ d.net_set
  pub history : d'.history ≡ d.history
  pub notify_ch : d'.notify_ch ≡ d.notify_ch
  pub monitor_calls : d'.monitor_calls ≡ d.monitor_calls

shown : (snap : Snapshot) (bus : Bus) (d : Daemon) → SameBut d (record d { snap = snap; bus = bus })
shown snap bus d = record {
  wiring = refl;
  der = refl;
  last_net = refl;
  net_set = refl;
  history = refl;
  notify_ch = refl;
  monitor_calls = refl;
}

if-SameBut : (b : Bool) (d d' : Daemon) → SameBut d d' → SameBut d (if b then d' else d)
if-SameBut true d d' s = s
if-SameBut false d d' s = shown d.snap d.bus d

pub SameBut-trans : (d d' d'' : Daemon) → SameBut d d' → SameBut d' d'' → SameBut d d''
SameBut-trans d d' d'' s t = record {
  wiring = t.wiring ∙ s.wiring;
  der = t.der ∙ s.der;
  last_net = t.last_net ∙ s.last_net;
  net_set = t.net_set ∙ s.net_set;
  history = t.history ∙ s.history;
  notify_ch = t.notify_ch ∙ s.notify_ch;
  monitor_calls = t.monitor_calls ∙ s.monitor_calls;
}

pub refresh_nm-SameBut :
    (wifi : Bool) (w : NmAnswers) (now : ℕ) (d : Daemon) → SameBut d (refresh_nm wifi w now d)
unfolding refresh_nm
refresh_nm-SameBut wifi w now d = record {
  wiring = ground arith;
  der = ground arith;
  last_net = ground arith;
  net_set = ground arith;
  history = ground arith;
  notify_ch = ground arith;
  monitor_calls = ground arith;
}

pub refresh_vpn-SameBut :
    (answer : Option (List Vpn)) (now : ℕ) (d : Daemon) → SameBut d (refresh_vpn answer now d)
unfolding refresh_vpn
refresh_vpn-SameBut none now d = shown d.snap d.bus d
refresh_vpn-SameBut (some vpns) now d = if-SameBut d.wiring.vpn d _ (shown _ d.bus d)

pub refresh_monitor-SameBut :
    (key : String) (now : ℕ) (d : Daemon) → SameBut d (refresh_monitor key now d)
unfolding refresh_monitor
refresh_monitor-SameBut key now d = if-SameBut d.wiring.monitor d _ (shown _ d.bus d)

pub publish_changes-SameBut :
    (cs : List (ChangeKind × String)) (d : Daemon) → SameBut d (publish_changes cs d)
unfolding publish_changes
publish_changes-SameBut [] d = shown d.snap d.bus d
publish_changes-SameBut (c ∷ cs) d =
    let bus = publish (change c.0 c.1) d.bus in
    let told : Daemon = record d { bus = bus } in
    SameBut-trans d told _ (shown d.snap bus d) (publish_changes-SameBut cs told)

-- What a batch of events adds: each is handed to the store, and queued for the notifier while there
-- is room.
pub record Emits (es : List Event) (d d' : Daemon) : Type 0 where
  pub der : d'.der ≡ d.der
  pub wiring : d'.wiring ≡ d.wiring
  pub last_net : d'.last_net ≡ d.last_net
  pub net_set : d'.net_set ≡ d.net_set
  pub monitor_calls : d'.monitor_calls ≡ d.monitor_calls
  pub history : d'.history ≡ d.history ++ es
  pub bounded : length d.notify_ch ≤ notify_buffer → length d'.notify_ch ≤ notify_buffer

pub emit_events-Emits : (es : List Event) (d : Daemon) → Emits es d (emit_events es d)
unfolding emit_events emit_event
emit_events-Emits [] d = record {
  der = refl;
  wiring = refl;
  last_net = refl;
  net_set = refl;
  monitor_calls = refl;
  history = sym (append-nil d.history);
  bounded = λ h. h;
}
emit_events-Emits (e ∷ es) d =
    let r = emit_events-Emits es (emit_event e d) in
    record {
      der = r.der;
      wiring = r.wiring;
      last_net = r.last_net;
      net_set = r.net_set;
      monitor_calls = r.monitor_calls;
      history = r.history ∙ append_assoc d.history (e ∷ []) es;
      bounded = λ h. r.bounded (ground (arith, length-append d.notify_ch (e ∷ [])));
    }
