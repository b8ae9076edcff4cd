-- ===== src/Daemon/Deriver/State.antt =====
-- internal/daemon/derive.go: the deriver's state. Times are nanoseconds, 0 is Go's zero time.
use better_nm.Prelude.{ℕ, String, List, [], Bool, true, false, Option, none, some, Assoc}
use better_nm.Core.Status.{
  Status, Profile, ActiveConnection, ActiveState, activated, Connectivity, portal, limited,
}
use better_nm.Core.Vpn.{Vpn, VpnState}

pub record View : Type 0 where
  pub status : Status
  pub profiles : List Profile
  pub vpns : List Vpn

pub record PendingDisconnect : Type 0 where
  pub key : String
  pub name : String
  pub uuid : String
  pub at : ℕ

pub record PendingNoInternet : Type 0 where
  pub conn : Connectivity
  pub since : ℕ

pub record Deriver : Type 0 where
  pub debounce : ℕ
  pub grace : ℕ
  pub initialized : Bool
  pub primary : Option ActiveConnection
  pub primary_key : String
  pub primary_name : String
  pub no_internet : Bool
  pub pending_disc : Option PendingDisconnect
  pub pending_no_internet : Option PendingNoInternet
  pub vpn_up : Assoc Vpn
  pub monitor_key : String
  pub monitor_gateway : String

-- Negative durations are taken as 0, so that they are natural numbers here.
unfoldable pub new_deriver : ℕ → ℕ → Deriver
new_deriver debounce grace = record {
  debounce = debounce;
  grace = grace;
  initialized = false;
  primary = none;
  primary_key = "";
  primary_name = "";
  no_internet = false;
  pending_disc = none;
  pending_no_internet = none;
  vpn_up = [];
  monitor_key = "";
  monitor_gateway = "";
}

abbrev pub is_up : ActiveState → Bool
is_up activated = true
is_up ActiveState.unset = true
is_up _ = false

-- The primary, when it is really up.
unfoldable pub connected_primary : Status → Option ActiveConnection
connected_primary s = elim s.primary [
  | none ↦ none
  | some p ↦ elim (is_up p.state) [ true ↦ some p | false ↦ none ]
]

abbrev pub is_bad : Connectivity → Bool
is_bad Connectivity.none = true
is_bad limited = true
is_bad portal = true
is_bad _ = false

abbrev pub is_full : Connectivity → Bool
is_full Connectivity.full = true
is_full _ = false

abbrev pub is_connected : Vpn → Bool
is_connected v = elim v.state [ VpnState.connected ↦ true | _ ↦ false ]

unfoldable pub gateway_of : Option ActiveConnection → String
gateway_of none = ""
gateway_of (some p) = p.gateway4

unfoldable pub set_primary : Option ActiveConnection → String → Deriver → Deriver
set_primary none key d = record d { primary = none; primary_key = ""; primary_name = "" }
set_primary (some p) key d = record d {
  primary = some p;
  primary_key = key;
  primary_name = p.profile_name;
}

unfoldable pub reset_connectivity : Deriver → Deriver
reset_connectivity d = record d { no_internet = false; pending_no_internet = none }

unfoldable pub monitor_network : Deriver → String × String
monitor_network d = (d.monitor_key, d.monitor_gateway)
