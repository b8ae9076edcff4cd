-- ===== src/Core/Vpn.antt =====
-- internal/core/vpn.go: the VPNs of every backend. `unset` is the empty string of a string type, and
-- the details that one backend fills in are left out.
use better_nm.Prelude.{String, str_eq, if◌then◌else◌, ◌+s◌}

pub data VpnBackend : Type 0 where
  tailscale wireguard nm_vpn unset : VpnBackend

-- `string(b)`
abbrev pub backend_name : VpnBackend → String
backend_name tailscale = "tailscale"
backend_name wireguard = "wireguard"
backend_name nm_vpn = "nm-vpn"
backend_name unset = ""

pub data VpnState : Type 0 where
  disconnected connecting connected error needs_setup needs_auth unavailable unset : VpnState

pub record Vpn : Type 0 where
  pub id : String
  pub name : String
  pub backend : VpnBackend
  pub kind : String
  pub state : VpnState
  pub detail : String
  pub error : String

-- `VPNKindForServiceType`
unfoldable pub vpn_kind_for_service_type : String → String
vpn_kind_for_service_type st =
    if str_eq st "org.freedesktop.NetworkManager.openvpn"
    then "OpenVPN"
    else if str_eq st "org.freedesktop.NetworkManager.strongswan"
    then "IPsec (strongSwan)"
    else if str_eq st "org.freedesktop.NetworkManager.libreswan"
    then "IPsec (Libreswan)"
    else if str_eq st "org.freedesktop.NetworkManager.l2tp"
    then "L2TP"
    else if str_eq st "org.freedesktop.NetworkManager.sstp"
    then "SSTP"
    else if str_eq st "org.freedesktop.NetworkManager.pptp"
    then "PPTP"
    else if str_eq st "org.freedesktop.NetworkManager.openconnect"
    then "OpenConnect"
    else if str_eq st "org.freedesktop.NetworkManager.vpnc"
    then "vpnc"
    else if str_eq st "org.freedesktop.NetworkManager.fortisslvpn"
    then "Fortinet SSL VPN"
    else if str_eq st "org.freedesktop.NetworkManager.protun"
    then "Proton VPN"
    else if str_eq st ""
    then "VPN"
    else "VPN (" +s (st +s ")")
