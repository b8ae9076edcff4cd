-- ===== src/Tests/Daemon.antt =====
-- The deriver and the bus at concrete views and items.
use better_nm.Prelude.{
  ℕ, ◌+◌, ◌*◌, ◌≤◌, List, [], ◌∷◌, ◌++◌, true, false, none, some, All, length, ◌≡◌, ◌≢◌, refl,
  arith,
}
use better_nm.Core.Status.{
  Profile, wifi, ActiveConnection, activated, Connectivity, full, limited, network_key, profile_key,
}
use better_nm.Core.Vpn.{Vpn, VpnBackend, VpnState}
use better_nm.Notify.Policy.{second}
use better_nm.Daemon.Deriver.State.{
  View, Deriver, PendingDisconnect, new_deriver, connected_primary, monitor_network,
}
use better_nm.Daemon.Deriver.Events.{disconnected_event}
use better_nm.Daemon.Deriver.Machine.{apply, flush, next_deadline}
use better_nm.Daemon.Deriver.Replay.{Follows}
use better_nm.Daemon.Deriver.Trace.{Input, see, tick, run, run-Follows}
use better_nm.Daemon.Deriver.Sound.{IsSound, run-IsSound}
use better_nm.Daemon.Deriver.Roam.{IsQuiet}
use better_nm.Daemon.Deriver.Drop.{roam_silent, drop_announced}
use better_nm.Daemon.Deriver.Deadline.{IsTimed, is_due, next_deadline_exact}
use better_nm.Daemon.Bus.{StreamItem, change, ChangeKind, Bus, subscriber_buffer, find_sub}
use better_nm.Daemon.Bus.Delivery.{
  Happening, published, taken, offered, live_through, new_subscriber, IsPart, delivery,
}

abbrev pub home : ActiveConnection
home = record {
  profile_uuid = "uuid-home";
  profile_name = "Home";
  devices = "wlan0" ∷ [];
  state = activated;
  ipv4 = "192.168.1.7/24" ∷ [];
  ipv6 = [];
  gateway4 = "192.168.1.1";
}

abbrev pub profiles : List Profile
profiles = record { uuid = "uuid-home"; name = "Home"; type = wifi; ssid = "home" } ∷ []

abbrev pub tunnel : Vpn
tunnel = record {
  id = "wg:1";
  name = "Tunnel";
  backend = VpnBackend.wireguard;
  kind = "WireGuard";
  state = VpnState.connected;
  detail = "";
  error = "";
}

abbrev online : View
online = record {
  status = record { connectivity = full; primary = some home };
  profiles = profiles;
  vpns = tunnel ∷ [];
}

abbrev captive : View
captive = record online {
  status = record { connectivity = limited; primary = some home };
  vpns = [];
}

abbrev offline : View
offline = record {
  status = record { connectivity = Connectivity.none; primary = none };
  profiles = profiles;
  vpns = [];
}

abbrev inputs : List (ℕ × Input)
inputs =
    (10 * second, see captive)
    ∷ (50 * second, tick)
    ∷ (60 * second, see offline)
    ∷ (80 * second, tick)
    ∷ (90 * second, see online)
    ∷ []

run-Follows_example :
    let d = (apply online second (new_deriver (5 * second) (30 * second))).0 in
    Follows d (run inputs d)
run-Follows_example = run-Follows (5 * second) (30 * second) online second inputs

run-IsSound_example : IsSound (run inputs (new_deriver (5 * second) (30 * second))).0
run-IsSound_example = run-IsSound (5 * second) (30 * second) inputs

-- The deriver once the home network is up.
abbrev at_home : Deriver
at_home = record {
  debounce = 5 * second;
  grace = 30 * second;
  initialized = true;
  primary = some home;
  primary_key = "wifi:home";
  primary_name = "Home";
  no_internet = false;
  pending_disc = none;
  pending_no_internet = none;
  vpn_up = [];
  monitor_key = "wifi:home";
  monitor_gateway = "192.168.1.1";
}

offline_down : connected_primary offline.status ≡ none
unfolding connected_primary
offline_down = refl

online_up : connected_primary online.status ≡ some home
unfolding connected_primary
online_up = refl

home_key : network_key (some home) online.profiles ≡ at_home.primary_key
unfolding network_key profile_key
home_key = refl

roam_silent_example :
    let r₁ = apply offline (10 * second) at_home in
    let r₂ = flush (12 * second) r₁.0 in
    let r₃ = apply online (13 * second) r₂.0 in
    All IsQuiet r₁.1
    × All IsQuiet r₂.1
    × All IsQuiet r₃.1
    × (monitor_network r₃.0 ≡ monitor_network at_home)
    × (r₃.0.primary ≡ some home)
roam_silent_example =
    roam_silent at_home home offline (10 * second) (12 * second) refl refl offline_down
      (ground arith) online (13 * second) home (ground arith) online_up home_key

drop_announced_example :
    let r₁ = apply offline (10 * second) at_home in
    let r₂ = flush (15 * second) r₁.0 in
    let left : PendingDisconnect = record {
      key = "wifi:home";
      name = "Home";
      uuid = "uuid-home";
      at = 10 * second;
    } in
    All IsQuiet r₁.1
    × (r₂.1 ≡ disconnected_event left (15 * second) ∷ [])
    × (monitor_network r₂.0 ≡ ("", ""))
    × (r₂.0.no_internet ≡ false)
    × (r₂.0.pending_disc ≡ none)
drop_announced_example =
    drop_announced at_home home offline (10 * second) (15 * second) refl refl offline_down
      (ground arith) (ground arith)

abbrev waiting : Deriver
waiting = record at_home {
  primary = none;
  pending_disc =
      some (record { key = "wifi:home"; name = "Home"; uuid = "uuid-home"; at = 10 * second });
}

waiting-IsTimed : IsTimed waiting
waiting-IsTimed = record { disc = λ pd e. ground (arith, e); quiet = λ pn e. ground (arith, e) }

next_deadline_exact_example :
    (is_due (next_deadline waiting) (16 * second) ≡ true → (flush (16 * second) waiting).1 ≢ [])
    × (is_due (next_deadline waiting) (16 * second) ≡ false
        → flush (16 * second) waiting ≡ (waiting, []))
next_deadline_exact_example = next_deadline_exact waiting (16 * second) waiting-IsTimed

abbrev item : StreamItem
item = change ChangeKind.status ""

abbrev happenings : List Happening
happenings = published item ∷ (taken ∷ (published item ∷ (published item ∷ [])))

delivery_example :
    let (s, out) = live_through happenings (new_subscriber, []) in
    IsPart (out ++ s.queue) (offered happenings)
    × (length out + length s.queue + s.dropped ≡ length (offered happenings))
    × (length s.queue ≤ subscriber_buffer)
delivery_example = delivery happenings

abbrev two : Bus
two = record { subs = (0, new_subscriber) ∷ ((1, new_subscriber) ∷ []); next = 2 }

first_sub : find_sub 0 two.subs ≡ some new_subscriber
unfolding find_sub
first_sub = refl

second_sub : find_sub 1 two.subs ≡ some new_subscriber
unfolding find_sub
second_sub = refl
