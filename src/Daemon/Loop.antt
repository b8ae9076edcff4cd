-- ===== src/Daemon/Loop.antt =====
-- internal/daemon/daemon.go: the daemon's state and the handlers of its loop. Each handler is one
-- step here; the code derives under a lock and emits after its release, and child module Order makes
-- steps of the two. The clock's value in a handler is its argument, and so is what a backend answers.
-- `history` is what was handed to the store, `monitor_calls` the calls of the monitor's SetNetwork.
pub mod Handlers
pub mod Life
pub mod Sync
pub mod Told
pub mod Unsynced
pub mod Replayed
pub mod Steps
pub mod History
pub mod Order
use better_nm.Prelude.{
  ℕ, ◌+◌, String, List, [], ◌∷◌, ◌++◌, Bool, true, false, not, ◌&&◌, ◌||◌, Option, none, some,
  is_some, length, ltb, str_eq, if◌then◌else◌,
}
use better_nm.Core.Device.{Device, WifiNetwork}
use better_nm.Core.Event.{Event}
use better_nm.Core.Status.{Status, Profile, ActiveConnection, Connectivity, network_key}
use better_nm.Core.Vpn.{Vpn}
use better_nm.Daemon.Bus.{ChangeKind, StreamItem, change, event, Bus, new_bus, publish}
use better_nm.Daemon.Deriver.State.{View, Deriver, new_deriver, monitor_network}
use better_nm.Daemon.Deriver.Machine.{apply}

pub record Snapshot : Type 0 where
  pub version : ℕ
  pub updated_at : ℕ
  pub status : Status
  pub network_key : String  -- `Status.NetworkKey`
  pub devices : List Device
  pub wifi : List WifiNetwork
  pub profiles : List Profile
  pub active : List ActiveConnection
  pub vpns : List Vpn
  pub monitor_key : String  -- `Monitor.NetworkKey`

-- What was wired; the backends themselves answer through the arguments of the handlers.
pub record Wiring : Type 0 where
  pub vpn : Bool
  pub monitor : Bool
  pub notifier : Bool

pub record Daemon : Type 0 where
  pub wiring : Wiring
  pub snap : Snapshot
  pub der : Deriver
  pub last_net : String × String
  pub net_set : Bool
  pub notify_ch : List Event
  pub bus : Bus
  pub wake : Bool
  pub history : List Event
  pub monitor_calls : List (String × String)

-- What NetworkManager answers; none is an error.
pub record NmAnswers : Type 0 where
  pub status : Option (Status × String)
  pub devices : Option (List Device)
  pub profiles : Option (List Profile)
  pub active : Option (List ActiveConnection)
  pub wifi : Option (List WifiNetwork)

unfoldable pub new_daemon : Wiring → ℕ → ℕ → Daemon
unfolding new_deriver new_bus
new_daemon wiring debounce grace = record {
  wiring = wiring;
  snap = record {
    version = 0;
    updated_at = 0;
    status = record { connectivity = Connectivity.unset; primary = none };
    network_key = "";
    devices = [];
    wifi = [];
    profiles = [];
    active = [];
    vpns = [];
    monitor_key = "";
  };
  der = new_deriver debounce grace;
  last_net = ("", "");
  net_set = false;
  notify_ch = [];
  bus = new_bus;
  wake = false;
  history = [];
  monitor_calls = [];
}

unfoldable bump : ℕ → Snapshot → Snapshot
bump now s = record s { version = s.version + 1; updated_at = now }

abbrev or_network_key : String → Status → List Profile → String
or_network_key key status profiles =
    if str_eq key "" && is_some status.primary then network_key status.primary profiles else key

abbrev or_none : Option (List WifiNetwork) → List WifiNetwork
or_none none = []
or_none (some nets) = nets

-- `refreshNM`; the snapshot stays if one of the reads fails.
unfoldable pub refresh_nm : Bool → NmAnswers → ℕ → Daemon → Daemon
unfolding bump
refresh_nm wifi w now d = elim w.status [
  | none ↦ d
  | some (status, key) ↦ elim w.devices [
    | none ↦ d
    | some devices ↦ elim w.profiles [
      | none ↦ d
      | some profiles ↦ elim w.active [
        | none ↦ d
        | some active ↦
            let s : Snapshot = record d.snap {
              status = status;
              network_key = or_network_key key status profiles;
              devices = devices;
              profiles = profiles;
              active = active;
              wifi = if wifi then or_none w.wifi else d.snap.wifi;
            } in
            record d { snap = bump now s }
      ]
    ]
  ]
]

-- All four reads of `refreshNM` succeed.
abbrev pub reads_well : NmAnswers → Bool
reads_well w = is_some w.status && is_some w.devices && is_some w.profiles && is_some w.active

-- `refreshVPN`; none is a failed list.
unfoldable pub refresh_vpn : Option (List Vpn) → ℕ → Daemon → Daemon
unfolding bump
refresh_vpn answer now d = elim answer [
  | none ↦ d
  | some vpns ↦
      if d.wiring.vpn then record d { snap = bump now (record d.snap { vpns = vpns }) } else d
]

unfoldable pub refresh_monitor : String → ℕ → Daemon → Daemon
unfolding bump
refresh_monitor key now d =
    if d.wiring.monitor
    then record d { snap = bump now (record d.snap { monitor_key = key }) }
    else d

unfoldable pub view : Daemon → View
view d = record { status = d.snap.status; profiles = d.snap.profiles; vpns = d.snap.vpns }

abbrev pub same_net : String × String → String × String → Bool
same_net (k, g) (k', g') = str_eq k k' && str_eq g g'

unfoldable pub sync_monitor_network : Daemon → Daemon
unfolding monitor_network
sync_monitor_network d =
    let net = monitor_network d.der in
    if not d.wiring.monitor || (d.net_set && same_net d.last_net net)
    then d
    else record d { net_set = true; last_net = net; monitor_calls = d.monitor_calls ++ (net ∷ []) }

-- The buffer of the channel to the notifier.
abbrev pub notify_buffer : ℕ
notify_buffer = 64

-- The body of `emitEvents`.
unfoldable pub emit_event : Event → Daemon → Daemon
unfolding publish
emit_event e d = record d {
  history = d.history ++ (e ∷ []);
  bus = publish (event e) d.bus;
  notify_ch =
      if d.wiring.notifier && ltb (length d.notify_ch) notify_buffer
      then d.notify_ch ++ (e ∷ [])
      else d.notify_ch;
}

unfoldable pub emit_events : List Event → Daemon → Daemon
unfolding emit_event
emit_events [] d = d
emit_events (e ∷ es) d = emit_events es (emit_event e d)

-- The deriver sees the snapshot: the new daemon and the events.
unfoldable pub derive : ℕ → Daemon → Daemon × List Event
unfolding view apply
derive now d = let (der', es) = apply (view d) now d.der in (record d { der = der' }, es)

unfoldable pub publish_changes : List (ChangeKind × String) → Daemon → Daemon
unfolding publish
publish_changes [] d = d
publish_changes ((kind, path) ∷ rest) d =
    publish_changes rest (record d { bus = publish (change kind path) d.bus })
