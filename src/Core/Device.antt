-- ===== src/Core/Device.antt =====
-- internal/core/types.go: devices and the security of Wi-Fi networks. `DeviceClass` stands with the
-- classification of links.
use better_nm.Prelude.{ℕ, String, List, Bool}
use better_nm.Infra.Classify.{DeviceClass}

pub data DeviceKind : Type 0 where
  wifi ethernet tun bridge veth vlan wireguard loopback other : DeviceKind

pub data DeviceState : Type 0 where
  unmanaged unavailable disconnected connecting connected external failed : DeviceState

pub data WifiSecurity : Type 0 where
  open_network owe wep wpa_psk sae wpa_eap : WifiSecurity

pub record Device : Type 0 where
  pub name : String
  pub if_index : ℕ
  pub kind : DeviceKind
  pub class : DeviceClass
  pub state : DeviceState
  pub managed : Bool
  pub owner : String
  pub hw_addr : String
  pub driver : String
  pub ipv4 : List String
  pub ipv6 : List String
  pub gateway4 : String
  pub dns : List String
  pub active_uuid : String
  pub active_name : String
  pub speed : ℕ
  pub nm_path : String

pub record WifiNetwork : Type 0 where
  pub ssid : String
  pub device : String
  pub strength : ℕ
  pub security : WifiSecurity
  pub frequency : ℕ
  pub channel : ℕ
  pub band : String
  pub bssids : List String
  pub known : Bool
  pub profile_uuid : String
  pub active : Bool
  pub hidden : Bool
  pub last_seen : ℕ
