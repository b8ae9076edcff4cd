-- ===== src/Tests/Loop.antt =====
-- The daemon's loop over a day on one network.
use better_nm.Prelude.{
  ◌≤◌, List, [], ◌∷◌, ◌++◌, lookup, insert, true, Option, none, some, All, length, ◌≡◌, inl, refl,
}
use better_nm.Core.Event
use better_nm.Core.Event.{Event}
use better_nm.Core.Secrets.{answered}
use better_nm.Core.Status.{Connectivity, full, network_key}
use better_nm.Daemon.Bus.{status}
use better_nm.Daemon.Deriver.State.{
  PendingDisconnect, new_deriver, connected_primary, monitor_network,
}
use better_nm.Daemon.Deriver.Machine.{
  expired, initialize, flush_disconnect, flush_no_internet, advance, switch_primary,
  switch_connectivity, update_vpns,
}
use better_nm.Daemon.Deriver.Events.{connected_event, disconnected_event}
use better_nm.Daemon.Deriver.Replay.{replay, follow_key}
use better_nm.Daemon.Loop.Steps.{all_read}
use better_nm.Daemon.Loop.{Daemon, NmAnswers, Wiring, new_daemon, notify_buffer}
use better_nm.Daemon.Loop.Handlers.{arm_timer, initial_read, on_vpn_changes}
use better_nm.Daemon.Loop.Life.{
  Call, nm_changed, vpn_changed, monitor_told, timer_fired, refreshed, secret_settled, notified,
  handle, live,
}
use better_nm.Daemon.Loop.Steps.{IsMonitored}
use better_nm.Daemon.Loop.History.{Replays, history-Follows}
use better_nm.Daemon.Loop.Order.{
  Act, derives, emits, by_nm, by_timer, by_refresh, Racing, race, Announced, ordered-Announced,
}
use better_nm.Daemon.Loop.Sync.{last_of}
use better_nm.Daemon.Loop.Told.{monitor_told_last}
use better_nm.Daemon.Loop.Unsynced.{vpn_change_unsynced}
use better_nm.Tests.Daemon.{home, profiles, tunnel}

abbrev wiring : Wiring
wiring = record { vpn = true; monitor = true; notifier = true }

abbrev at_home : NmAnswers
at_home = record {
  status = some (record { connectivity = full; primary = some home }, "");
  devices = some [];
  profiles = some profiles;
  active = some (home ∷ []);
  wifi = none;
}

abbrev away : NmAnswers
away = record at_home {
  status = some (record { connectivity = Connectivity.none; primary = none }, "");
  active = some [];
}

abbrev fresh : Daemon
fresh = new_daemon wiring 5 30

abbrev or_fresh : Option Daemon → Daemon
or_fresh none = fresh
or_fresh (some d) = d

abbrev running : Daemon
running = or_fresh (initial_read at_home (some (tunnel ∷ [])) "wifi:home" 1 fresh)

reads_at_home : initial_read at_home (some (tunnel ∷ [])) "wifi:home" 1 fresh ≡ some running
unfolding initial_read
reads_at_home = refl

abbrev slow : Event
slow = record {
  time = 0;
  type = Event.degraded;
  network_key = "wifi:home";
  title = "";
  body = "";
  urgency = "";
  extra = [];
}

-- NetworkManager loses the network, the timer runs out, and the network comes back.
abbrev calls : List Call
calls =
    monitor_told slow "wifi:home" 2
    ∷ nm_changed ((status, "/") ∷ []) away 10
    ∷ vpn_changed [] none 12
    ∷ timer_fired 20
    ∷ notified
    ∷ secret_settled "r1" answered 25
    ∷ refreshed at_home (some []) "wifi:home" 30
    ∷ []

calls-IsMonitored : All IsMonitored calls
calls-IsMonitored = (inl refl, (tt, (tt, (tt, (tt, (tt, (tt, tt)))))))

history-Follows_example :
    Replays running (live calls running) × (length (live calls running).notify_ch ≤ notify_buffer)
history-Follows_example =
    history-Follows wiring 5 30 at_home (some (tunnel ∷ [])) "wifi:home" 1 running reads_at_home
      calls calls-IsMonitored

monitor_told_last_example :
    let d = handle (timer_fired 20) (live calls fresh) in
    last_of d.monitor_calls ≡ some (monitor_network d.der)
monitor_told_last_example = monitor_told_last wiring 5 30 calls (timer_fired 20) refl refl

-- The primary was lost at 10, and the debounce of 5 has run out.
abbrev left : PendingDisconnect
left = record { key = "wifi:home"; name = "Home"; uuid = "uuid-home"; at = 10 }

abbrev lost : Daemon
lost = record fresh {
  der = record (new_deriver 5 30) {
    initialized = true;
    pending_disc = some left;
    monitor_key = "wifi:home";
    monitor_gateway = "192.168.1.1";
  };
  net_set = true;
  last_net = ("wifi:home", "192.168.1.1");
  monitor_calls = ("wifi:home", "192.168.1.1") ∷ [];
}

lost_primary : lost.der.primary ≡ none
unfolding new_deriver
lost_primary = refl

debounce_over : expired left.at lost.der.debounce 20 ≡ true
unfolding new_deriver
debounce_over = refl

no_primary : connected_primary lost.snap.status ≡ none
unfolding new_daemon connected_primary
no_primary = refl

vpn_change_unsynced_example :
    let d' = on_vpn_changes [] none 20 lost in
    (monitor_network d'.der ≡ ("", ""))
    × (arm_timer 20 d' ≡ none)
    × (d'.monitor_calls ≡ lost.monitor_calls)
vpn_change_unsynced_example =
    vpn_change_unsynced [] none 20 left lost refl lost_primary refl debounce_over no_primary

-- A request refreshes between what the loop derives and what it emits.
abbrev acts : List Act
acts =
    derives (by_nm ((status, "/") ∷ []) away 10)
    ∷ emits
    ∷ derives (by_timer 20)
    ∷ derives (by_refresh at_home (some []) "wifi:home" 30)
    ∷ emits
    ∷ []

ordered-Announced_example : Announced running (race acts (record { daemon = running; outbox = [] }))
ordered-Announced_example =
    ordered-Announced wiring 5 30 at_home (some (tunnel ∷ [])) "wifi:home" 1 running reads_at_home
      acts

-- The timer's batch and the one of the refresh wait, and are emitted the wrong way round.
abbrev waiting : Racing
waiting =
    race
      (derives (by_nm ((status, "/") ∷ []) away 10)
        ∷ derives (by_timer 20)
        ∷ derives (by_refresh at_home (some []) "wifi:home" 30)
        ∷ [])
      (record { daemon = running; outbox = [] })

abbrev backwards : List (List Event) → List Event
backwards [] = []
backwards (es ∷ rest) = backwards rest ++ es

-- The deriver is on `home`, and one who replays the batches in the wrong order is on no network.
swapped_lost :
    (waiting.daemon.der.monitor_key ≡ "wifi:home")
    × (replay follow_key (backwards waiting.outbox) running.der.monitor_key ≡ "")
unfolding race initial_read flush_disconnect new_daemon initialize connected_primary
    flush_no_internet advance switch_primary switch_connectivity update_vpns lookup insert
    network_key all_read disconnected_event connected_event
swapped_lost = (refl, refl)
