-- ===== src/Daemon/Deriver/Events.antt =====
-- internal/daemon/derive.go: the events that the deriver builds.
use Prim.Native.Char.{code}
use better_nm.Prelude.{
  ℕ, String, List, [], ◌∷◌, Bool, true, false, not, ◌&&◌, str_eq, ◌==◌, if◌then◌else◌, ◌+s◌,
}
use better_nm.Core.Event.{
  Event, EventType, connected, disconnected, no_internet, internet_restored, vpn_down,
}
use better_nm.Core.Status.{ActiveConnection, Connectivity, connectivity_name, portal}
use better_nm.Core.Vpn.{Vpn, backend_name}
use better_nm.Daemon.Deriver.State.{PendingDisconnect}

-- `strings.SplitN(s, "/", 2)[0]`
unfoldable pub before_slash : String → String
before_slash String.[] = String.[]
before_slash (String.◌∷◌ c s) = if code c == b'/' then String.[] else String.◌∷◌ c (before_slash s)

unfoldable pub first_ip : ActiveConnection → String
unfolding before_slash
first_ip p = elim p.ipv4 [
  | a ∷ _ ↦ before_slash a
  | [] ↦ elim p.ipv6 [ a ∷ _ ↦ before_slash a | [] ↦ "" ]
]

abbrev pub first_device : List String → String
first_device [] = ""
first_device (d ∷ ds) = d

unfoldable pub connected_body : String → String → String
connected_body ip dev =
    if not (str_eq ip "") && not (str_eq dev "")
    then ip +s (" via " +s dev)
    else if not (str_eq ip "")
    then ip
    else if not (str_eq dev "")
    then "via " +s dev
    else ""

unfoldable pub connected_event : ActiveConnection → String → ℕ → Event
unfolding first_ip connected_body
connected_event p key now =
    let dev = first_device p.devices in
    record {
      time = now;
      type = connected;
      network_key = key;
      title = "Connected to " +s p.profile_name;
      body = connected_body (first_ip p) dev;
      urgency = "low";
      extra =
          ("uuid", p.profile_uuid)
          ∷ ("device", dev)
          ∷ ("ip", first_ip p)
          ∷ ("gateway", p.gateway4)
          ∷ [];
    }

unfoldable pub disconnected_event : PendingDisconnect → ℕ → Event
disconnected_event pd now = record {
  time = now;
  type = disconnected;
  network_key = pd.key;
  title = "Disconnected from " +s pd.name;
  body = "No network connection";
  urgency = "normal";
  extra = ("uuid", pd.uuid) ∷ [];
}

abbrev pub is_portal : Connectivity → Bool
is_portal portal = true
is_portal _ = false

unfoldable pub no_internet_event : String → String → Connectivity → ℕ → Event
no_internet_event name key conn now = record {
  time = now;
  type = no_internet;
  network_key = key;
  title = "No internet on " +s name;
  body =
      if is_portal conn
      then name +s " needs a login page: open a browser to sign in"
      else "Connected to " +s (name +s " but the internet is unreachable");
  urgency = "normal";
  extra = ("connectivity", connectivity_name conn) ∷ [];
}

unfoldable pub restored_event : String → String → ℕ → Event
restored_event name key now = record {
  time = now;
  type = internet_restored;
  network_key = key;
  title = "Internet restored";
  body = name +s " is back online";
  urgency = "low";
  extra = [];
}

abbrev pub is_vpn_down : EventType → Bool
is_vpn_down vpn_down = true
is_vpn_down _ = false

unfoldable pub vpn_event : EventType → Vpn → String → ℕ → Event
vpn_event t vpn key now = record {
  time = now;
  type = t;
  network_key = key;
  title = vpn.name +s (if is_vpn_down t then " disconnected" else " connected");
  body =
      (if is_vpn_down t then "VPN is down" else "VPN is up")
      +s (if str_eq vpn.kind "" then "" else " (" +s (vpn.kind +s ")"));
  urgency = "low";
  extra = ("vpn", vpn.id) ∷ ("backend", backend_name vpn.backend) ∷ [];
}
