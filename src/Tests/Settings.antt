-- ===== src/Tests/Settings.antt =====
-- The settings of NetworkManager at a concrete profile. The parsers know two addresses.
use better_nm.Prelude.{
  String, [], ◌∷◌, true, false, Option, none, some, lookup, any, str_eq, if◌then◌else◌, ◌==◌, ◌≡◌,
  inr, refl, arith,
}
use better_nm.Vpn.WireGuard.Spec.{WireGuardPeer, WireGuardSpec}
use better_nm.Nm.Consts.{setting_wireguard}
use better_nm.Vpn.WireGuard.Text.{trim, is_space}
use better_nm.Nm.Texts.{decimal}
use better_nm.Nm.Variant.{text, one, Props, SettingsDict, section}
use better_nm.Nm.Settings.Ip.{
  IpAddr, v4, v6, Netip, IpConfig, IpResult, got, denied, decode_ip_config, encode_ip_config,
  method_of, ip_keys_owned, split_cidr,
}
use better_nm.Nm.Settings.RoundTrip.{IsPrinted}
use better_nm.Nm.Settings.Decoded.{encode-decode}
use better_nm.Nm.Settings.Profile.{decode_wireguard_setting}
use better_nm.Nm.Settings.Created.{
  made, refused, Made, part_addresses, part_servers, new_ip_settings, wireguard_settings,
}
use better_nm.Nm.Settings.Imported.{Fits, public_part, wireguard_settings-decode}

abbrev host : IpAddr
host = v4 167772162

abbrev router : IpAddr
router = v4 167772161

abbrev read_one : String → Option IpAddr
read_one s =
    if str_eq s "10.0.0.2" then some host else if str_eq s "10.0.0.1" then some router else none

abbrev show_one : IpAddr → String
show_one (v4 n) = if n == 167772162 then "10.0.0.2" else "10.0.0.1"
show_one (v6 bs zone) = "::1"

instance abbrev two_addresses : Netip
two_addresses = record {
  read_addr = read_one;
  read_prefix = λ s. if str_eq s "10.0.0.2/24" then some (host, 24) else none;
  show_addr = show_one;
}

abbrev config : IpConfig
config = record {
  method = "";
  addresses = "10.0.0.2/24" ∷ [];
  gateway = "10.0.0.1";
  dns = "10.0.0.1" ∷ [];
  dns_search = "lan" ∷ [];
  ignore_auto_dns = true;
  never_default = false;
}

-- What stood in the setting before: a key of bnm's, and one of somebody else's.
abbrev before : Props
before = ("method", one (text "auto")) ∷ (("dad-timeout", one (text "5")) ∷ [])

abbrev props_of : IpResult Props → Props
props_of (got m) = m
props_of (denied e) = []

abbrev written : Props
written = props_of (encode_ip_config before config 4)

config-IsPrinted : IsPrinted 4 config
unfolding split_cidr trim decimal is_space
config-IsPrinted = record {
  addresses = (("10.0.0.2", 24, refl, refl, refl), tt);
  gateway = inr (router, refl, refl);
  dns = ((router, refl, refl, tt, refl), tt);
}

config_accepted : encode_ip_config before config 4 ≡ got written
unfolding encode_ip_config split_cidr is_space
config_accepted = refl

encode-decode_example :
    (decode_ip_config written 4 ≡ record config { method = method_of config })
    × ((k : String) → any (str_eq k) ip_keys_owned ≡ false → lookup k written ≡ lookup k before)
encode-decode_example = encode-decode before config 4 written config-IsPrinted config_accepted

abbrev peer : WireGuardPeer
peer = record {
  public_key = "peer-key";
  preshared_key = "shared";
  endpoint = "vpn.example.org:51820";
  allowed_ips = "0.0.0.0/0" ∷ [];
  persistent_keepalive = 25;
}

abbrev spec : WireGuardSpec
spec = record {
  name = "Tunnel";
  interface_name = "wg0";
  private_key = "secret";
  listen_port = 51820;
  fw_mark = 0;
  mtu = 1420;
  addresses = "10.0.0.2/24" ∷ [];
  dns = "10.0.0.1" ∷ [];
  dns_search = [];
  peers = peer ∷ [];
  auto_default_route = some true;
  dropped = [];
}

abbrev settings_of : Made → SettingsDict
settings_of (made s) = s
settings_of (refused e) = []

abbrev tunnel : SettingsDict
tunnel = settings_of (wireguard_settings spec true "uuid-tunnel" "ada")

tunnel_made : wireguard_settings spec true "uuid-tunnel" "ada" ≡ made tunnel
unfolding wireguard_settings split_cidr part_addresses part_servers new_ip_settings encode_ip_config
    is_space
tunnel_made = refl

spec-Fits : Fits spec
spec-Fits = record {
  listen_port = omega arith;
  fw_mark = omega arith;
  mtu = omega arith;
  peers = (omega arith, tt);
}

wireguard_settings-decode_example :
    decode_wireguard_setting (section setting_wireguard tunnel)
    ≡ record { listen_port = 51820; fw_mark = 0; mtu = 1420; peers = public_part peer ∷ [] }
wireguard_settings-decode_example =
    wireguard_settings-decode spec true "uuid-tunnel" "ada" tunnel tunnel_made spec-Fits
