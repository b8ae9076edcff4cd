-- ===== src/Core/Event.antt =====
-- internal/core/monitor.go: the facts that the daemon emits.
use better_nm.Prelude.{ℕ, String, Assoc}

-- `EventType`, a string type with these constants.
pub data EventType : Type 0 where
  connected disconnected no_internet internet_restored : EventType
  vpn_up vpn_down degraded recovered wifi_scan state_changed : EventType
  secret_needed secret_resolved : EventType

-- `string(t)`
abbrev pub type_name : EventType → String
type_name connected = "connected"
type_name disconnected = "disconnected"
type_name no_internet = "no-internet"
type_name internet_restored = "internet-restored"
type_name vpn_up = "vpn-up"
type_name vpn_down = "vpn-down"
type_name degraded = "degraded"
type_name recovered = "recovered"
type_name wifi_scan = "wifi-scan"
type_name state_changed = "state-changed"
type_name secret_needed = "secret-needed"
type_name secret_resolved = "secret-resolved"

pub record Event : Type 0 where
  pub time : ℕ
  pub type : EventType
  pub network_key : String
  pub title : String
  pub body : String
  pub urgency : String
  pub extra : Assoc String  -- `Data`
