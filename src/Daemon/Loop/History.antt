-- ===== src/Daemon/Loop/History.antt =====
-- internal/daemon/daemon.go from the initial read on: the history, and the queue of the notifier.
use mathlib.Core.Path.{subst}
use better_nm.Prelude.{
  ℕ, ◌≤◌, String, List, ◌++◌, All, Option, none, some, length, ◌≡◌, inl, inr, sym, ◌∙◌, arith,
  Bool-cases,
}
use better_nm.Core.Event.{Event}
use better_nm.Core.Vpn.{Vpn}
use better_nm.Daemon.Deriver.Machine.{apply}
use better_nm.Daemon.Deriver.Replay.{Follows}
use better_nm.Daemon.Deriver.Trace.{Ready, first-Ready}
use better_nm.Daemon.Loop.{
  Daemon, NmAnswers, Wiring, new_daemon, reads_well, view, derive, sync_monitor_network,
  emit_events, notify_buffer,
}
use better_nm.Daemon.Loop.Handlers.{initial_read}
use better_nm.Daemon.Loop.Life.{Call, live, emit_events-Emits}
use better_nm.Daemon.Loop.Replayed.{Moves, sync-Moves, moved}
use better_nm.Daemon.Loop.Steps.{IsMonitored, all_read, all_read-SameBut, live-Told}

-- What a later state added to the history of an earlier one, and that one who replays just that
-- follows the deriver.
pub record Replays (d d' : Daemon) : Type 0 where
  pub news : List Event
  pub history : d'.history ≡ d.history ++ news
  pub follows : Follows d.der (d'.der, news)

pub record Started (d : Daemon) : Type 0 where
  pub ready : Ready d.der
  pub bounded : length d.notify_ch ≤ notify_buffer

-- The daemon that the initial read leaves when its reads succeed.
started : NmAnswers → Option (List Vpn) → String → ℕ → Daemon → Daemon
unfolding derive
started w vpns key now d =
    let (d', es) = derive now (all_read w vpns key now d) in
    emit_events es (sync_monitor_network d')

new-Started :
    (wiring : Wiring) (debounce grace : ℕ) (w : NmAnswers) (vpns : Option (List Vpn)) (key : String)
    (now : ℕ)
    → Started (started w vpns key now (new_daemon wiring debounce grace))
unfolding started new_daemon derive
new-Started wiring debounce grace w vpns key now =
    let d = new_daemon wiring debounce grace in
    let d₁ = all_read w vpns key now d in
    let s = all_read-SameBut w vpns key now d in
    let (der, es) = apply (view d₁) now d₁.der in
    let d₂ = sync_monitor_network (record d₁ { der = der }) in
    let m : Moves d d₂ der = sync-Moves d (record d₁ { der = der }) der (moved d d₁ der s) in
    let e = emit_events-Emits es d₂ in
    record {
      ready = subst Ready (sym (e.der ∙ m.at)) (
          subst (λ x. Ready (apply (view d₁) now x).0) (sym s.der)
            (first-Ready debounce grace (view d₁) now));
      bounded = e.bounded (subst (λ q. length q ≤ notify_buffer) (sym m.notify_ch) (omega arith));
    }

abbrev pub IsStarted : Option Daemon → Type 0
IsStarted none = Unit
IsStarted (some d) = Started d

pub initial_read-Started :
    (wiring : Wiring) (debounce grace : ℕ) (w : NmAnswers) (vpns : Option (List Vpn)) (key : String)
    (now : ℕ)
    → IsStarted (initial_read w vpns key now (new_daemon wiring debounce grace))
unfolding initial_read started derive all_read
initial_read-Started wiring debounce grace w vpns key now = elim (Bool-cases (reads_well w)) [
  | inl well ↦ rw well (new-Started wiring debounce grace w vpns key now)
  | inr ill ↦ rw ill tt
]

-- From a successful initial read of the daemon on, whatever changes of the backends, timer calls,
-- refreshes, password prompts and takings of notifications come in whatever order, one step at a time,
-- as long as the monitor's own events are of the two kinds degraded and recovered: the history only
-- grows, one who replays what was added ends with the deriver's monitored network and outstanding
-- no-internet, and knows of every VPN whether it is up. The queue of the notifier stays in its buffer.
pub history-Follows :
    (wiring : Wiring) (debounce grace : ℕ) (w : NmAnswers) (vpns : Option (List Vpn)) (key : String)
    (now : ℕ) (d : Daemon)
    → initial_read w vpns key now (new_daemon wiring debounce grace) ≡ some d
    → (cs : List Call) → All IsMonitored cs
    → Replays d (live cs d) × (length (live cs d).notify_ch ≤ notify_buffer)
history-Follows wiring debounce grace w vpns key now d h cs ms =
    let s = subst IsStarted h (initial_read-Started wiring debounce grace w vpns key now) in
    let t = live-Told cs d ms s.ready in
    (record { news = t.news; history = t.history; follows = t.follows }, t.bounded s.bounded)
