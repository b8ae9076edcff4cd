-- ===== src/Nm/Consts.antt =====
-- internal/nm/consts.go: the names of settings and types.
use better_nm.Prelude.{ℕ, String}

abbrev pub setting_connection : String
setting_connection = "connection"

abbrev pub setting_wifi : String
setting_wifi = "802-11-wireless"

abbrev pub setting_wifi_security : String
setting_wifi_security = "802-11-wireless-security"

abbrev pub setting_ipv4 : String
setting_ipv4 = "ipv4"

abbrev pub setting_ipv6 : String
setting_ipv6 = "ipv6"

abbrev pub setting_vpn : String
setting_vpn = "vpn"

abbrev pub setting_wireguard : String
setting_wireguard = "wireguard"

abbrev pub type_wifi : String
type_wifi = "802-11-wireless"

abbrev pub type_ethernet : String
type_ethernet = "802-3-ethernet"

abbrev pub type_wireguard : String
type_wireguard = "wireguard"

abbrev pub type_vpn : String
type_vpn = "vpn"

abbrev pub type_bridge : String
type_bridge = "bridge"

-- `secretFlagsNone`
abbrev pub secret_flags_none : ℕ
secret_flags_none = 0
